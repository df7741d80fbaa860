-- ===== src/Stacks/Sync.antt =====
-- `Sync` of internal/stacks/deploy.go: the latest stored source is translated again, and deployed if
-- its rendering or the live swarm has changed. The translation, the hash, the YAML of the rendering
-- and the deploy are parameters.
pub mod Unchanged
use poor_man_cluster.Common.{
  ℕ, String, ◌==◌, Bool, true, false, not, ◌&&◌, Option, none, some, List, [], ◌∷◌, if◌then◌else◌,
  ltb,
}
use poor_man_cluster.Common.Errors.{Error, plain, wrapped, Result, ok, err}
use poor_man_cluster.Store.Stacks.{StackRevision, Tables}
use poor_man_cluster.Stacks.Drift.{ComposeService, LiveService, Reason, in_sync}

-- The later of two revisions.
abbrev pub later_of : StackRevision → Option StackRevision → StackRevision
later_of r none = r
later_of r (some s) = if ltb r.revision s.revision then s else r

-- `ListRevisions` with a limit of 1: the revision of the stack with the highest number.
unfoldable pub latest_revision : String → List StackRevision → Option StackRevision
latest_revision name [] = none
latest_revision name (r ∷ rs) =
    let rest = latest_revision name rs in
    if r.stack_name == name then some (later_of r rest) else rest

pub record Outside : Type 0 where
  pub list_fails : Option Error
  pub translate : StackRevision → Result String
  pub config_hash : String → String
  pub compose : String → Result (List ComposeService)
  pub services : Option (Result (List LiveService))
  pub deploy : String → Result ℕ

-- How a sync ends: nothing to apply, by the revision and its rendering; a deploy, by its result; or
-- an error before either.
pub data Synced : Type 0 where
  unchanged : ℕ → String → Synced
  deployed : Result ℕ → Synced
  failed : Error → Synced

-- An error of the live check is taken for being in sync.
abbrev pub has_drifted : Result (Option Reason) → Bool
has_drifted (err e) = false
has_drifted (ok none) = false
has_drifted (ok (some r)) = true

module _ (o : Outside) (stack_name : String) where
  abbrev checked : StackRevision → String → Synced
  checked latest rendered =
      if has_drifted (in_sync o.services stack_name (o.compose rendered))
      then deployed (o.deploy latest.source_yaml)
      else unchanged latest.revision rendered

  abbrev compared_hash : StackRevision → Result String → Synced
  compared_hash latest (err e) = deployed (o.deploy latest.source_yaml)
  compared_hash latest (ok rendered) =
      if o.config_hash rendered == latest.rendered_hash && not (latest.rendered_hash == "")
      then checked latest rendered
      else deployed (o.deploy latest.source_yaml)

  abbrev of_latest : Option StackRevision → Synced
  of_latest none = failed (plain "stack has no revisions")
  of_latest (some latest) = compared_hash latest (o.translate latest)

  -- `Sync`
  unfoldable pub sync : Tables → Synced
  unfolding latest_revision in_sync
  sync t = elim o.list_fails [
    | some e ↦ failed (wrapped "load latest revision" e)
    | none ↦ of_latest (latest_revision stack_name t.revisions)
  ]
