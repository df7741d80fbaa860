-- ===== src/Store/Stacks/Updates.antt =====
-- What the smaller writes leave alone: the hash of a revision, and the errors of a stack.
use poor_man_cluster.Common.{
  ℕ, String, ◌==◌, eq_iff, ◌≡◌, refl, false, List, [], ◌∷◌, arith, All, Bool-cases, inl, inr,
}
use poor_man_cluster.Common.Errors.{ok}
use poor_man_cluster.Store.Stacks.{
  Stack, StackRevision, Tables, has_stack, has_revision, find_revision, update_stack, stamp,
  set_revision_rendered_hash, stack, revision,
}
use poor_man_cluster.Store.Stacks.Invariant.{
  WellFormed, DistinctStacks, DistinctRevisions, IsOwned, IsCurrent,
}

-- A stack and its revisions read the same in two tables.
pub record ReadsSame (other : String) (t t' : Tables) : Type 0 where
  pub same_stack : stack other t' ≡ stack other t
  pub same_revisions : (number : ℕ) → revision other number t' ≡ revision other number t

pub has_stack-update_stack :
    (name other : String) (f : Stack → Stack) (ss : List Stack)
    → ((s : Stack) → (f s).name ≡ s.name)
    → has_stack other (update_stack name f ss) ≡ has_stack other ss
unfolding has_stack update_stack
has_stack-update_stack name other f [] h = refl
has_stack-update_stack name other f (s ∷ ss) h =
    ground (arith, h s, has_stack-update_stack name other f ss h)

module _ (name : String) (number : ℕ) (hash : String) where
  has_revision-stamp :
      (other : String) (n : ℕ) (rs : List StackRevision)
      → has_revision other n (stamp name number hash rs) ≡ has_revision other n rs
  unfolding has_revision stamp
  has_revision-stamp other n [] = refl
  has_revision-stamp other n (r ∷ rs) = ground (arith, has_revision-stamp other n rs)

  DistinctRevisions-stamp :
      (rs : List StackRevision)
      → DistinctRevisions rs
      → DistinctRevisions (stamp name number hash rs)
  unfolding stamp
  DistinctRevisions-stamp [] d = tt
  DistinctRevisions-stamp (r ∷ rs) d =
      ground (arith, has_revision-stamp r.stack_name r.revision rs, DistinctRevisions-stamp rs)

  IsOwned-stamp :
      (ss : List Stack) (rs : List StackRevision)
      → All (IsOwned ss) rs
      → All (IsOwned ss) (stamp name number hash rs)
  unfolding stamp
  IsOwned-stamp ss [] a = tt
  IsOwned-stamp ss (r ∷ rs) a = ground (arith, IsOwned-stamp ss rs)

  IsCurrent-stamp :
      (rs : List StackRevision) (ss : List Stack)
      → All (IsCurrent rs) ss
      → All (IsCurrent (stamp name number hash rs)) ss
  IsCurrent-stamp rs [] a = tt
  IsCurrent-stamp rs (s ∷ ss) a =
      ground (arith, has_revision-stamp s.name s.current_revision rs, IsCurrent-stamp rs ss)

  find_revision-stamp_other :
      (other : String) (n : ℕ) (rs : List StackRevision)
      → (name == other) ≡ false
      → find_revision other n (stamp name number hash rs) ≡ find_revision other n rs
  unfolding find_revision stamp
  find_revision-stamp_other other n [] ne = refl
  find_revision-stamp_other other n (r ∷ rs) ne = ground (
    arith,
    eq_iff r.stack_name name,
    eq_iff r.stack_name other,
    eq_iff name other,
    find_revision-stamp_other other n rs,
  )

  -- Stamping a hash changes the rows of the table of revisions alone.
  pub set_revision_rendered_hash_inv :
      (t t' : Tables)
      → set_revision_rendered_hash name number hash t ≡ ok t'
      → t' ≡ record t { revisions = stamp name number hash t.revisions }
  unfolding set_revision_rendered_hash
  set_revision_rendered_hash_inv t t' h = elim (Bool-cases (has_revision name number t.revisions)) [
    | inl there ↦ ground arith
    | inr gone ↦ absurd (ground arith)
  ]

  -- Stamping a hash in well-formed tables leaves them well formed.
  pub set_revision_rendered_hash-WellFormed :
      (t t' : Tables)
      → WellFormed t
      → set_revision_rendered_hash name number hash t ≡ ok t'
      → WellFormed t'
  set_revision_rendered_hash-WellFormed t t' w h =
      rw (set_revision_rendered_hash_inv t t' h) (record {
        stacks_distinct = w.stacks_distinct;
        revisions_distinct = DistinctRevisions-stamp t.revisions w.revisions_distinct;
        owned = IsOwned-stamp t.stacks t.revisions w.owned;
        current = IsCurrent-stamp t.revisions t.stacks w.current;
      })

  -- Stamping a hash leaves every other stack and its revisions as they were.
  pub set_revision_rendered_hash-ReadsSame :
      (other : String) (t t' : Tables)
      → (name == other) ≡ false
      → set_revision_rendered_hash name number hash t ≡ ok t'
      → ReadsSame other t t'
  unfolding stack revision
  set_revision_rendered_hash-ReadsSame other t t' ne h =
      rw (set_revision_rendered_hash_inv t t' h) (record {
        same_stack = refl;
        same_revisions = λ n. rw (find_revision-stamp_other other n t.revisions ne) refl;
      })

module _ (name : String) (f : Stack → Stack) (named : (s : Stack) → (f s).name ≡ s.name)
    (pointing : (s : Stack) → (f s).current_revision ≡ s.current_revision) where
  DistinctStacks-update_stack :
      (ss : List Stack) → DistinctStacks ss → DistinctStacks (update_stack name f ss)
  unfolding update_stack
  DistinctStacks-update_stack [] d = tt
  DistinctStacks-update_stack (s ∷ ss) d = ground (
    arith,
    named s,
    has_stack-update_stack name s.name f ss named,
    DistinctStacks-update_stack ss,
  )

  IsCurrent-update_stack :
      (rs : List StackRevision) (ss : List Stack)
      → All (IsCurrent rs) ss
      → All (IsCurrent rs) (update_stack name f ss)
  unfolding update_stack
  IsCurrent-update_stack rs [] a = tt
  IsCurrent-update_stack rs (s ∷ ss) a =
      ground (arith, named s, pointing s, IsCurrent-update_stack rs ss)

  IsOwned-update_stack :
      (ss : List Stack) (rs : List StackRevision)
      → All (IsOwned ss) rs
      → All (IsOwned (update_stack name f ss)) rs
  IsOwned-update_stack ss [] a = tt
  IsOwned-update_stack ss (r ∷ rs) a =
      ground
        (arith, has_stack-update_stack name r.stack_name f ss named, IsOwned-update_stack ss rs)

  pub update_stack-WellFormed :
      (t : Tables) → WellFormed t → WellFormed (record t { stacks = update_stack name f t.stacks })
  update_stack-WellFormed t w = record {
    stacks_distinct = DistinctStacks-update_stack t.stacks w.stacks_distinct;
    revisions_distinct = w.revisions_distinct;
    owned = IsOwned-update_stack t.stacks t.revisions w.owned;
    current = IsCurrent-update_stack t.revisions t.stacks w.current;
  }
