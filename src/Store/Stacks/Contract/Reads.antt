-- ===== src/Store/Stacks/Contract/Reads.antt =====
-- What each write of the tables does to a read.
use poor_man_cluster.Common.{
  ℕ, String, ◌==◌, eq_iff, ◌≡◌, refl, sym, ◌∙◌, ◌&&◌, none, some, List, [], ◌∷◌, arith,
  if◌then◌else◌, eqb, Bool-cases, inl, inr,
}
use poor_man_cluster.Store.Stacks.{
  Stack, StackRevision, has_stack, find_stack, has_revision, find_revision, stamp, moved_to,
  without_stack, without_revisions,
}
use poor_man_cluster.Store.Stacks.Deploys.{stacks_after}
use poor_man_cluster.Store.Stacks.ErrorHistory.{find_stack-update_stack}
use poor_man_cluster.Store.Stacks.Contract.{is_some, mapped, deployed_stack}

pub has_revision-is_some :
    (name : String) (number : ℕ) (rs : List StackRevision)
    → has_revision name number rs ≡ is_some (find_revision name number rs)
unfolding has_revision find_revision
has_revision-is_some name number [] = refl
has_revision-is_some name number (r ∷ rs) = ground (arith, has_revision-is_some name number rs)

has_stack-is_some :
    (name : String) (ss : List Stack) → has_stack name ss ≡ is_some (find_stack name ss)
unfolding has_stack find_stack
has_stack-is_some name [] = refl
has_stack-is_some name (s ∷ ss) = ground (arith, has_stack-is_some name ss)

pub find_stack-without_stack :
    (name other : String) (ss : List Stack)
    → find_stack other (without_stack name ss)
      ≡ (if name == other then none else find_stack other ss)
unfolding find_stack without_stack
find_stack-without_stack name other [] = ground arith
find_stack-without_stack name other (s ∷ ss) = ground (
  arith,
  eq_iff s.name name,
  eq_iff s.name other,
  eq_iff name other,
  find_stack-without_stack name other ss,
)

pub find_revision-without_revisions :
    (name other : String) (number : ℕ) (rs : List StackRevision)
    → find_revision other number (without_revisions name rs)
      ≡ (if name == other then none else find_revision other number rs)
unfolding find_revision without_revisions
find_revision-without_revisions name other number [] = ground arith
find_revision-without_revisions name other number (r ∷ rs) = ground (
  arith,
  eq_iff r.stack_name name,
  eq_iff r.stack_name other,
  eq_iff name other,
  find_revision-without_revisions name other number rs,
)

pub find_revision-stamp_any :
    (name other : String) (n number : ℕ) (hash : String) (rs : List StackRevision)
    → find_revision other number (stamp name n hash rs) ≡ (
        if name == other && eqb n number
        then mapped
            (λ (r : StackRevision). record r { rendered_hash = hash })
            (find_revision other number rs)
        else find_revision other number rs)
unfolding find_revision stamp
find_revision-stamp_any name other n number hash [] = ground arith
find_revision-stamp_any name other n number hash (r ∷ rs) = ground (
  arith,
  eq_iff r.stack_name name,
  eq_iff r.stack_name other,
  eq_iff name other,
  find_revision-stamp_any name other n number hash rs,
)

module _ (rev : StackRevision) (repo_url : String) (now : ℕ) where
  pub find_stack-stacks_after :
      (other : String) (ss : List Stack)
      → find_stack other (stacks_after rev repo_url now ss) ≡ (
          if rev.stack_name == other
          then some (deployed_stack rev repo_url now (find_stack other ss))
          else find_stack other ss)
  unfolding find_stack
  find_stack-stacks_after other ss = elim (Bool-cases (has_stack rev.stack_name ss)) [
    | inl known ↦ elim (Bool-cases (rev.stack_name == other)) [
      | inr differs ↦
          rw (known, differs)
            (find_stack-update_stack rev.stack_name other (moved_to rev repo_url now) ss (λ r. refl)
              ∙ ground (arith, differs))
      | inl same ↦
          let e = (eq_iff rev.stack_name other).0 same in
          let there = sym (has_stack-is_some rev.stack_name ss) ∙ known in
          rw (known, same)
            (find_stack-update_stack rev.stack_name other (moved_to rev repo_url now) ss (λ r. refl)
              ∙ ground (arith, same, e, there))
    ]
    | inr absent ↦ elim (Bool-cases (rev.stack_name == other)) [
      | inr differs ↦ rw (absent, differs) refl
      | inl same ↦
          let e = (eq_iff rev.stack_name other).0 same in
          let gone = sym (has_stack-is_some rev.stack_name ss) ∙ absent in
          rw (absent, same) (ground (arith, e, gone))
    ]
  ]
