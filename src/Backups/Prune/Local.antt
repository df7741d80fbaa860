-- ===== src/Backups/Prune/Local.antt =====
-- What the local pruner does to the directory and to its counts.
use poor_man_cluster.Common.{
  ℕ, suc, ◌+◌, String, ◌==◌, eq_iff, ◌≡◌, refl, sym, ◌∙◌, Bool, true, false, List, [], ◌∷◌, ◌++◌,
  map, arith, length, length-append, All,
}
use poor_man_cluster.Common.Errors.{Result, ok, err}
use poor_man_cluster.Backups.Retention.{
  Retention, Artifact, Plan, plan_prune, judge, append_to, group_artifacts, groups_of,
}
use poor_man_cluster.Backups.Retention.Floor.{judge-partition}
use poor_man_cluster.Backups.Prune.{
  PruneResult, Files, size_of, without, entries, remove_artifact, would_delete, after_removal,
  prune_one, prune_all, candidates, with_floor, Outside, planned, begun, prune_artifacts,
}
use mathlib.Core.List.{append-nil, append_assoc}
use Prim.Native.String.{◌++◌ as ◌+++◌}

-- A name that is neither an artifact's of the list nor its sidecar's.
abbrev pub IsOther : String → List Artifact → Type 0
IsOther name del =
    All (λ (a : Artifact). ((a.name == name) ≡ false) × (((a.name +++ ".json") == name) ≡ false))
      del

size_of-without :
    (name other : String) (files : Files)
    → (name == other) ≡ false
    → size_of other (without name files) ≡ size_of other files
unfolding size_of without
size_of-without name other [] ne = refl
size_of-without name other ((n, size) ∷ files) ne =
    ground
      (arith, eq_iff n name, eq_iff n other, eq_iff name other, size_of-without name other files)

module _ (refuses : String → Bool) where
  remove_artifact-others :
      (name other : String) (files : Files)
      → (name == other) ≡ false
      → ((name +++ ".json") == other) ≡ false
      → size_of other (remove_artifact refuses name files).1 ≡ size_of other files
  unfolding remove_artifact
  remove_artifact-others name other files ne ne' = ground (
    arith,
    size_of-without name other files ne,
    size_of-without (name +++ ".json") other (without name files) ne',
  )

  prune_one-others :
      (dry : Bool) (a : Artifact) (res : PruneResult) (files : Files) (other : String)
      → (a.name == other) ≡ false
      → ((a.name +++ ".json") == other) ≡ false
      → size_of other (prune_one refuses dry a (res, files)).1 ≡ size_of other files
  unfolding prune_one
  prune_one-others true a res files other ne ne' = refl
  prune_one-others false a res files other ne ne' =
      go (remove_artifact refuses a.name files) (remove_artifact-others a.name other files ne ne')
    where
      go :
          (r : Result ℕ × Files)
          → size_of other r.1 ≡ size_of other files
          → size_of other (after_removal refuses a.name res r).1 ≡ size_of other files
      go (err e, left) h = h
      go (ok n, left) h = h

  prune_all-others :
      (dry : Bool) (del : List Artifact) (s : PruneResult × Files) (other : String)
      → IsOther other del
      → size_of other (prune_all refuses dry del s).1 ≡ size_of other s.1
  unfolding prune_all
  prune_all-others dry [] s other all = refl
  prune_all-others dry (a ∷ del) s other ((p, q), all) =
      prune_all-others dry del (prune_one refuses dry a s) other all
      ∙ prune_one-others dry a s.0 s.1 other p q

  prune_all-dry :
      (del : List Artifact) (s : PruneResult × Files) → (prune_all refuses true del s).1 ≡ s.1
  unfolding prune_all prune_one
  prune_all-dry [] s = refl
  prune_all-dry (a ∷ del) s = prune_all-dry del (prune_one refuses true a s)

  -- How many artifacts a result accounts for.
  abbrev pub accounted : PruneResult → ℕ
  accounted res = res.kept + length res.deleted

  prune_one-accounted :
      (dry : Bool) (a : Artifact) (s : PruneResult × Files)
      → accounted (prune_one refuses dry a s).0 ≡ suc (accounted s.0)
  unfolding prune_one
  prune_one-accounted true a (res, files) =
      omega (arith, length-append res.deleted (would_delete refuses a.name ∷ []))
  prune_one-accounted false a (res, files) = go (remove_artifact refuses a.name files)
    where
      go :
          (r : Result ℕ × Files)
          → accounted (after_removal refuses a.name res r).0 ≡ suc (accounted res)
      go (err e, left) = omega arith
      go (ok n, left) = omega (arith, length-append res.deleted (a.name ∷ []))

  prune_all-accounted :
      (dry : Bool) (del : List Artifact) (s : PruneResult × Files)
      → accounted (prune_all refuses dry del s).0 ≡ accounted s.0 + length del
  unfolding prune_all
  prune_all-accounted dry [] s = omega arith
  prune_all-accounted dry (a ∷ del) s =
      omega (
        arith,
        prune_all-accounted dry del (prune_one refuses dry a s),
        prune_one-accounted dry a s,
      )

  prune_all-dry_deleted :
      (del : List Artifact) (s : PruneResult × Files)
      → (prune_all refuses true del s).0.deleted
        ≡ s.0.deleted ++ map (λ (a : Artifact). would_delete refuses a.name) del
  unfolding prune_all prune_one
  prune_all-dry_deleted [] s = sym (append-nil s.0.deleted)
  prune_all-dry_deleted (a ∷ del) s =
      prune_all-dry_deleted del (prune_one refuses true a s)
      ∙ append_assoc s.0.deleted (would_delete refuses a.name ∷ []) _

  prune_all-deleted :
      (del : List Artifact) (s : PruneResult × Files)
      → ((name : String) → refuses name ≡ false)
      → (prune_all refuses false del s).0.deleted
        ≡ s.0.deleted ++ map (λ (a : Artifact). a.name) del
  unfolding prune_all prune_one remove_artifact
  prune_all-deleted [] s h = sym (append-nil s.0.deleted)
  prune_all-deleted (a ∷ del) s h =
      prune_all-deleted del (prune_one refuses false a s) h
      ∙ rw (h a.name, h (a.name +++ ".json")) (append_assoc s.0.deleted (a.name ∷ []) _)

-- How many artifacts some groups hold.
pub total : List (String × List Artifact) → ℕ
total [] = 0
total ((k, arts) ∷ groups) = length arts + total groups

total-append_to :
    (art : Artifact) (groups : List (String × List Artifact))
    → total (append_to art groups) ≡ suc (total groups)
unfolding total append_to
total-append_to art [] = omega arith
total-append_to art ((k, arts) ∷ groups) =
    ground (arith, length-append arts (art ∷ []), total-append_to art groups)

plan_prune-partition :
    (sort : List Artifact → List Artifact) (groups : List (String × List Artifact))
    (policy : Retention) (now : ℕ)
    → ((arts : List Artifact) → length (sort arts) ≡ length arts)
    → length (plan_prune sort (groups_of groups) policy now).del
        + (plan_prune sort (groups_of groups) policy now).kept
      ≡ total groups
unfolding plan_prune total
plan_prune-partition sort [] policy now h = refl
plan_prune-partition sort ((k, arts) ∷ groups) policy now h =
    let first = judge policy now (sort arts) 0 (sort arts) in
    let others = plan_prune sort (groups_of groups) policy now in
    omega (
      arith,
      length-append first.del others.del,
      judge-partition policy now (sort arts) 0 (sort arts),
      h arts,
      plan_prune-partition sort groups policy now h,
    )

module _ (o : Outside) (refuses : String → Bool) (es : List (String × Bool)) (policy : Retention)
    (files : Files) where
  -- The plan for the directory.
  abbrev pub plan : Plan
  plan = (planned o (with_floor policy) (candidates es)).0

  -- Pruning a directory, dry or not and whatever cannot be removed, leaves every file that is
  -- neither a planned artifact nor the sidecar of one; a dry run leaves every file.
  pub prune_artifacts_leaves :
      (dry : Bool) (other : String)
      → IsOther other plan.del
      → (size_of other (prune_artifacts o refuses (entries es) policy dry files).1
          ≡ size_of other files)
        × ((prune_artifacts o refuses (entries es) policy true files).1 ≡ files)
  unfolding prune_artifacts
  prune_artifacts_leaves dry other h =
      (prune_all-others refuses dry plan.del _ other h, prune_all-dry refuses plan.del _)

  -- A dry run names what the real one deletes: where nothing refuses to be removed, the real run
  -- deletes the planned artifacts in their order, and the dry run lists the same names, marked.
  pub dry_run_truthful :
      ((name : String) → refuses name ≡ false)
      → (dry real : PruneResult) × ((prune_artifacts o refuses (entries es) policy true files).0
          ≡ ok dry)
        × ((prune_artifacts o refuses (entries es) policy false files).0 ≡ ok real)
        × (real.deleted ≡ map (λ (a : Artifact). a.name) plan.del)
        × (dry.deleted ≡ map (λ (a : Artifact). would_delete refuses a.name) plan.del)
  unfolding prune_artifacts
  dry_run_truthful h = (
    _,
    _,
    refl,
    refl,
    prune_all-deleted refuses plan.del _ h,
    prune_all-dry_deleted refuses plan.del _,
  )

  -- The counts of a prune, dry or not and whatever cannot be removed, account for every artifact
  -- of the directory's groups once: those deleted, or marked, and those kept are together as many.
  pub prune_artifacts_accounts :
      ((arts : List Artifact) → length (o.sort arts) ≡ length arts)
      → (dry : Bool)
      → (res : PruneResult) × ((prune_artifacts o refuses (entries es) policy dry files).0 ≡ ok res)
        × (res.kept + length res.deleted
            ≡ total (group_artifacts o.parse (with_floor policy) (candidates es)).by_stack)
  unfolding prune_artifacts planned
  prune_artifacts_accounts h dry =
      let g = (group_artifacts o.parse (with_floor policy) (candidates es)).by_stack in
      (
        _,
        refl,
        omega (
          arith,
          prune_all-accounted refuses dry plan.del
              (begun o dry (planned o (with_floor policy) (candidates es)), files),
          plan_prune-partition o.sort g (with_floor policy) o.now h,
        ),
      )
