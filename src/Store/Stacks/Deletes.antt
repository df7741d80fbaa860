-- ===== src/Store/Stacks/Deletes.antt =====
-- Deleting a stack.
use poor_man_cluster.Common.{
  ℕ, String, ◌==◌, eq_iff, eq_refl, ◌≡◌, refl, Bool, true, false, not, ◌&&◌, ◌||◌, Option, none,
  some, ◌⊎◌, inl, inr, List, [], ◌∷◌, arith, All,
}
use poor_man_cluster.Store.Stacks.{
  Stack, StackRevision, OwnedRow, Tables, has_stack, has_revision, without_owner, without_stack,
  without_revisions, delete_stack, err_stack_not_found, DeleteFault, configs_refused,
  secrets_refused, record_refused, delete_stack_with,
}
use poor_man_cluster.Common.Errors.{Error}
use poor_man_cluster.Store.Stacks.Invariant.{
  WellFormed, DistinctStacks, DistinctRevisions, IsOwned, IsCurrent,
}

-- Whether some row belongs to the stack.
pub has_owner : String → List OwnedRow → Bool
has_owner n [] = false
has_owner n (r ∷ rs) = r.stack == n || has_owner n rs

module _ (name : String) where
  has_stack-without :
      (n : String) (ss : List Stack)
      → has_stack n (without_stack name ss) ≡ (not (name == n) && has_stack n ss)
  unfolding has_stack without_stack
  has_stack-without n [] = ground arith
  has_stack-without n (s ∷ ss) =
      ground (arith, eq_iff s.name name, eq_iff s.name n, eq_iff name n, has_stack-without n ss)

  has_revision-without :
      (n : String) (k : ℕ) (rs : List StackRevision)
      → has_revision n k (without_revisions name rs) ≡ (not (name == n) && has_revision n k rs)
  unfolding has_revision without_revisions
  has_revision-without n k [] = ground arith
  has_revision-without n k (r ∷ rs) = ground (
    arith,
    eq_iff r.stack_name name,
    eq_iff r.stack_name n,
    eq_iff name n,
    has_revision-without n k rs,
  )

  has_owner-without :
      (n : String) (rs : List OwnedRow)
      → has_owner n (without_owner name rs) ≡ (not (name == n) && has_owner n rs)
  unfolding has_owner without_owner
  has_owner-without n [] = ground arith
  has_owner-without n (r ∷ rs) =
      ground (arith, eq_iff r.stack name, eq_iff r.stack n, eq_iff name n, has_owner-without n rs)

  DistinctStacks-without :
      (ss : List Stack) → DistinctStacks ss → DistinctStacks (without_stack name ss)
  unfolding without_stack
  DistinctStacks-without [] h = tt
  DistinctStacks-without (s ∷ ss) h =
      ground (arith, has_stack-without s.name ss, DistinctStacks-without ss)

  DistinctRevisions-without :
      (rs : List StackRevision)
      → DistinctRevisions rs
      → DistinctRevisions (without_revisions name rs)
  unfolding without_revisions
  DistinctRevisions-without [] h = tt
  DistinctRevisions-without (r ∷ rs) h =
      ground (arith, has_revision-without r.stack_name r.revision rs, DistinctRevisions-without rs)

  IsOwned-without :
      (ss : List Stack) (rs : List StackRevision)
      → All (IsOwned ss) rs
      → All (IsOwned (without_stack name ss)) (without_revisions name rs)
  unfolding without_revisions
  IsOwned-without ss [] h = tt
  IsOwned-without ss (r ∷ rs) h = ground (
    arith,
    has_stack-without r.stack_name ss,
    eq_iff name r.stack_name,
    eq_iff r.stack_name name,
    IsOwned-without ss rs,
  )

  IsCurrent-without :
      (rs : List StackRevision) (ss : List Stack)
      → All (IsCurrent rs) ss
      → All (IsCurrent (without_revisions name rs)) (without_stack name ss)
  unfolding without_stack
  IsCurrent-without rs [] h = tt
  IsCurrent-without rs (s ∷ ss) h = ground (
    arith,
    has_revision-without s.name s.current_revision rs,
    eq_iff name s.name,
    eq_iff s.name name,
    IsCurrent-without rs ss,
  )

  -- Deleting a stack, whether it exists or not, keeps the tables well formed.
  pub delete_stack-WellFormed : (t : Tables) → WellFormed t → WellFormed (delete_stack name t).1
  unfolding delete_stack
  delete_stack-WellFormed t w = record {
    stacks_distinct = DistinctStacks-without t.stacks w.stacks_distinct;
    revisions_distinct = DistinctRevisions-without t.revisions w.revisions_distinct;
    owned = IsOwned-without t.stacks t.revisions w.owned;
    current = IsCurrent-without t.revisions t.stacks w.current;
  }

  -- No stack, revision, config or secret of that name is left, and whether those of another name
  -- exist is as before.
  abbrev pub Deleted : String → ℕ → Tables → Tables → Type 0
  Deleted n k t t' =
      (has_stack n t'.stacks ≡ (not (name == n) && has_stack n t.stacks))
      × (has_revision n k t'.revisions ≡ (not (name == n) && has_revision n k t.revisions))
      × (has_owner n t'.configs ≡ (not (name == n) && has_owner n t.configs))
      × (has_owner n t'.secrets ≡ (not (name == n) && has_owner n t.secrets))

  -- The stacks and the revisions are as before, and so is whether configs and secrets of another
  -- name exist.
  abbrev pub PartlyDeleted : String → Tables → Tables → Type 0
  PartlyDeleted n t t' =
      (t'.stacks ≡ t.stacks)
      × (t'.revisions ≡ t.revisions)
      × ((not (name == n) && has_owner n t'.configs) ≡ (not (name == n) && has_owner n t.configs))
      × ((not (name == n) && has_owner n t'.secrets) ≡ (not (name == n) && has_owner n t.secrets))

  -- After a delete that the database lets pass, only what carries the name is gone.
  pub delete_stack_leaves :
      (t : Tables) (n : String) (k : ℕ) → Deleted n k t (delete_stack name t).1
  unfolding delete_stack
  delete_stack_leaves t n k = (
    has_stack-without n t.stacks,
    has_revision-without n k t.revisions,
    has_owner-without n t.configs,
    has_owner-without n t.secrets,
  )

  -- Deleting a stack of the store passes, or the database refuses a statement.
  pub delete_stack_with-cases :
      (fault : Option DeleteFault) (t : Tables) (n : String) (k : ℕ)
      → has_stack name t.stacks ≡ true
      → let d = delete_stack_with fault name t in
        ((d.0 ≡ none) × Deleted n k t d.1) ⊎ ((e : Error) × (d.0 ≡ some e) × PartlyDeleted n t d.1)
  unfolding delete_stack_with delete_stack
  delete_stack_with-cases none t n k h = inl (rw h refl, delete_stack_leaves t n k)
  delete_stack_with-cases (some (configs_refused e)) t n k h =
      inr (_, refl, (refl, refl, refl, refl))
  delete_stack_with-cases (some (secrets_refused e)) t n k h =
      inr (_, refl, (refl, refl, ground (arith, has_owner-without n t.configs), refl))
  delete_stack_with-cases (some (record_refused e)) t n k h = inr (
    _,
    refl,
    (
      refl,
      refl,
      ground (arith, has_owner-without n t.configs),
      ground (arith, has_owner-without n t.secrets),
    ),
  )

  -- Where no stack of that name exists, the delete reports that, and yet has removed every config
  -- and secret that carries the name.
  pub delete_stack_missing :
      (t : Tables)
      → has_stack name t.stacks ≡ false
      → ((delete_stack name t).0 ≡ some err_stack_not_found)
        × (has_owner name (delete_stack name t).1.configs ≡ false)
        × (has_owner name (delete_stack name t).1.secrets ≡ false)
  unfolding delete_stack
  delete_stack_missing t h = (
    rw h,
    rw (has_owner-without name t.configs, eq_refl),
    rw (has_owner-without name t.secrets, eq_refl),
  )
