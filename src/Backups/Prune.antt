-- ===== src/Backups/Prune.antt =====
-- internal/backups/prune.go and prune_remote.go: the three pruners that carry out a plan.
-- The local one changes a directory, here its files with their sizes; `refuses` says for which names
-- `os.Remove` fails. An entry of `failed` is the name without the text of its error. For the remote ones the store answers to each deletion.
pub mod Local
pub mod ControlPlane
use poor_man_cluster.Common.{
  ℕ, zero, suc, ◌+◌, ◌-◌, String, ◌==◌, Bool, true, false, not, ◌||◌, Option, none, some, List, [],
  ◌∷◌, ◌++◌, map, if◌then◌else◌, leb, length, take,
}
use poor_man_cluster.Common.Errors.{Error, plain, wrapped, Result, ok, err}
use poor_man_cluster.Common.Text.{has_suffix}
use poor_man_cluster.Backups.Retention.{
  Retention, Artifact, Plan, plan_prune, group_artifacts, groups_of, floor_of,
}
use Prim.Native.String.{◌++◌ as ◌+++◌}

-- `PruneResult`
pub record PruneResult : Type 0 where
  pub kept : ℕ
  pub deleted : List String
  pub freed_bytes : ℕ
  pub failed : List String
  pub skipped_old : ℕ
  pub dry_run : Bool

abbrev pub Files : Type 0
Files = List (String × ℕ)

-- `os.Stat`
unfoldable pub size_of : String → Files → Option ℕ
size_of name [] = none
size_of name ((n, size) ∷ files) = if n == name then some size else size_of name files

unfoldable pub without : String → Files → Files
without name [] = []
without name ((n, size) ∷ files) =
    let rest = without name files in if n == name then rest else (n, size) ∷ rest

abbrev pub or_zero : Option ℕ → ℕ
or_zero none = 0
or_zero (some n) = n

-- What a pruner reads from outside. `entries` is `os.ReadDir`, in the order of its listing: no
-- directory, an error, or the names, each with whether it is a directory.
pub data Listing : Type 0 where
  missing : Listing
  unreadable : Error → Listing
  entries : List (String × Bool) → Listing

module _ (refuses : String → Bool) where
  -- `removeArtifact`: the bytes freed, or the error, and the files that are left.
  unfoldable pub remove_artifact : String → Files → Result ℕ × Files
  unfolding size_of without
  remove_artifact name files =
      if refuses name
      then (err (plain "remove"), files)
      else if refuses (name +++ ".json")
      then (err (plain "remove"), without name files)
      else (ok (or_zero (size_of name files)), without (name +++ ".json") (without name files))

  abbrev pub would_delete : String → String
  would_delete name = name +++ " (would delete)"

  abbrev after_removal : String → PruneResult → Result ℕ × Files → PruneResult × Files
  after_removal name res (err e, files) =
      (record res { failed = res.failed ++ name ∷ []; kept = suc res.kept }, files)
  after_removal name res (ok size, files) = (
    record res { deleted = res.deleted ++ name ∷ []; freed_bytes = res.freed_bytes + size },
    files,
  )

  -- One artifact of the loop in `PruneArtifacts`.
  unfoldable pub prune_one : Bool → Artifact → PruneResult × Files → PruneResult × Files
  prune_one true a (res, files) = (
    record res {
      deleted = res.deleted ++ would_delete a.name ∷ [];
      freed_bytes = res.freed_bytes + or_zero (size_of a.name files);
    },
    files,
  )
  prune_one false a (res, files) = after_removal a.name res (remove_artifact a.name files)

  unfoldable pub prune_all : Bool → List Artifact → PruneResult × Files → PruneResult × Files
  unfolding prune_one
  prune_all dry [] s = s
  prune_all dry (a ∷ del) s = prune_all dry del (prune_one dry a s)

abbrev is_skipped : String × Bool → Bool
is_skipped (name, is_dir) = is_dir || has_suffix name ".json"

-- The names of the entries that may be artifacts.
unfoldable pub candidates : List (String × Bool) → List String
candidates [] = []
candidates (e ∷ es) = let rest = candidates es in if is_skipped e then rest else e.0 ∷ rest

-- `if policy.KeepLast < 1 { policy.KeepLast = 1 }`
abbrev pub with_floor : Retention → Retention
with_floor policy = record policy { keep_last = floor_of policy }

abbrev pub empty_result : Bool → PruneResult
empty_result dry = record {
  kept = 0;
  deleted = [];
  freed_bytes = 0;
  failed = [];
  skipped_old = 0;
  dry_run = dry;
}

-- The library calls that a pruner makes, and the clock.
pub record Outside : Type 0 where
  pub parse : String → Option Artifact
  pub sort : List Artifact → List Artifact
  pub now : ℕ

module _ (o : Outside) where
  -- What the policy says of some names: the plan, and the legacy archives passed over.
  unfoldable pub planned : Retention → List String → Plan × ℕ
  planned policy names =
      let g = group_artifacts o.parse policy names in
      (plan_prune o.sort (groups_of g.by_stack) policy o.now, g.skipped)

  abbrev pub begun : Bool → Plan × ℕ → PruneResult
  begun dry (plan, skipped) = record (empty_result dry) { kept = plan.kept; skipped_old = skipped }

  -- `PruneArtifacts`: the result or the error, and the files that are left.
  unfoldable pub prune_artifacts :
      (String → Bool) → Listing → Retention → Bool → Files → Result PruneResult × Files
  unfolding candidates
  prune_artifacts refuses missing policy dry files = (ok (empty_result dry), files)
  prune_artifacts refuses (unreadable e) policy dry files = (err (wrapped "read" e), files)
  prune_artifacts refuses (entries es) policy dry files =
      let plan = planned (with_floor policy) (candidates es) in
      let (res, left) = prune_all refuses dry plan.0.del (begun dry plan, files) in (ok res, left)

  abbrev answered : String → PruneResult → Option Error → PruneResult
  answered name res (some e) = record res { failed = res.failed ++ name ∷ []; kept = suc res.kept }
  answered name res none = record res { deleted = res.deleted ++ name ∷ [] }

  abbrev delete_one : (String → Option Error) → Bool → String → PruneResult → PruneResult
  delete_one delete true name res = record res {
    deleted = res.deleted ++ (name +++ " (would delete)") ∷ [];
  }
  delete_one delete false name res = answered name res (delete name)

  unfoldable pub delete_all :
      (String → Option Error) → Bool → List Artifact → PruneResult → PruneResult
  delete_all delete dry [] res = res
  delete_all delete dry (a ∷ del) res = delete_all delete dry del (delete_one delete dry a.name res)

  abbrev pruned_remote : (String → Option Error) → Bool → Plan × ℕ → Result PruneResult
  pruned_remote delete dry plan = ok (delete_all delete dry plan.0.del (begun dry plan))

  abbrev of_objects :
      (String → Option Error) → Retention → Bool → Result (List String) → Result PruneResult
  of_objects delete policy dry (err e) = err (wrapped "list offsite objects" e)
  of_objects delete policy dry (ok names) = pruned_remote delete dry (planned policy names)

  -- `PruneS3`, by what listing the bucket and deleting an object answer.
  unfoldable pub prune_s3 :
      Bool → Result (List String) → (String → Option Error) → Retention → Bool → Result PruneResult
  unfolding delete_all planned
  prune_s3 configured objects delete policy dry =
      if configured then of_objects delete policy dry objects else ok (empty_result dry)

abbrev pub control_plane_keep : ℕ
control_plane_keep = 2

-- How many were deleted and are kept, and the error that ended the loop.
pub record Counts : Type 0 where
  pub deleted : ℕ
  pub kept : ℕ
  pub error : Option Error

-- The counts if the deletion of a key answers so.
abbrev stopped : ℕ → ℕ → Counts → Option Error → Counts
stopped total deleted rest (some e) = record {
  deleted = deleted;
  kept = total - deleted;
  error = some e;
}
stopped total deleted rest none = rest

-- The loop of `pruneControlPlaneArchives`; `total` is the number of archives.
unfoldable pub delete_archives : (String → Option Error) → Bool → ℕ → ℕ → List String → Counts
delete_archives delete dry total deleted [] = record {
  deleted = deleted;
  kept = total - deleted;
  error = none;
}
delete_archives delete true total deleted (key ∷ del) =
    delete_archives delete true total (suc deleted) del
delete_archives delete false total deleted (key ∷ del) =
    let rest = delete_archives delete false total (suc deleted) del in
    stopped total deleted rest (delete key)

abbrev of_archives : (String → Option Error) → Bool → List String → Counts
of_archives delete dry names =
    if leb (length names) control_plane_keep
    then record { deleted = 0; kept = length names; error = none }
    else delete_archives delete dry (length names) 0
        (take (length names - control_plane_keep) names)

-- `pruneControlPlaneArchives`, by the sorting of texts, the listing and the deletions.
unfoldable pub prune_control_plane :
    (List String → List String) → Result (List String) → (String → Option Error) → Bool → Counts
unfolding delete_archives
prune_control_plane sort (err e) delete dry = record { deleted = 0; kept = 0; error = some e }
prune_control_plane sort (ok names) delete dry = of_archives delete dry (sort names)
