-- ===== src/Store/Stacks/Deploys.antt =====
-- Recording a deploy.
use poor_man_cluster.Common.{
  ℕ, String, ◌==◌, eq_iff, eq_refl, ◌≡◌, refl, ◌∙◌, true, false, ◌||◌, some, List, [], ◌∷◌, arith,
  if◌then◌else◌, Bool-cases, All, inl, inr,
}
use poor_man_cluster.Common.Errors.{plain, ok, err}
use poor_man_cluster.Store.Stacks.{
  Stack, StackRevision, Tables, has_stack, find_stack, has_revision, update_stack, new_stack,
  moved_to, record_deploy, stack, revision,
}
use poor_man_cluster.Store.Stacks.Invariant.{WellFormed, DistinctStacks, IsOwned, IsCurrent}
use poor_man_cluster.Store.Stacks.ErrorHistory.{find_stack-update_stack}

module _ (rev : StackRevision) (repo_url : String) (now : ℕ) where
  abbrev pub row : StackRevision
  row = record rev { created_at = now }

  abbrev pub stacks_after : List Stack → List Stack
  stacks_after ss =
      if has_stack rev.stack_name ss
      then update_stack rev.stack_name (moved_to rev repo_url now) ss
      else new_stack rev repo_url now ∷ ss

  abbrev pub after : Tables → Tables
  after t = record t { revisions = row ∷ t.revisions; stacks = stacks_after t.stacks }

  -- The outcome in one step: a duplicate number is refused, and nothing else is.
  pub record_deploy_lem :
      (t : Tables)
      → record_deploy rev repo_url now t ≡ (
          if has_revision rev.stack_name rev.revision t.revisions
          then err (plain "insert revision")
          else ok (after t))
  unfolding record_deploy has_stack
  record_deploy_lem t = ground (arith, eq_refl rev.stack_name)

  has_stack-update :
      (n : String) (ss : List Stack)
      → has_stack n (update_stack rev.stack_name (moved_to rev repo_url now) ss) ≡ has_stack n ss
  unfolding has_stack update_stack
  has_stack-update n [] = refl
  has_stack-update n (s ∷ ss) = ground (arith, has_stack-update n ss)

  DistinctStacks-update :
      (ss : List Stack)
      → DistinctStacks ss
      → DistinctStacks (update_stack rev.stack_name (moved_to rev repo_url now) ss)
  unfolding update_stack
  DistinctStacks-update [] h = tt
  DistinctStacks-update (s ∷ ss) h =
      ground (arith, has_stack-update s.name ss, DistinctStacks-update ss)

  IsCurrent-update :
      (rs : List StackRevision) (ss : List Stack)
      → All (IsCurrent rs) ss
      → All (IsCurrent (row ∷ rs)) (update_stack rev.stack_name (moved_to rev repo_url now) ss)
  unfolding update_stack has_revision
  IsCurrent-update rs [] h = tt
  IsCurrent-update rs (s ∷ ss) h =
      ground
        (arith, eq_iff s.name rev.stack_name, eq_iff rev.stack_name s.name, IsCurrent-update rs ss)

  IsCurrent-cons :
      (rs : List StackRevision) (ss : List Stack)
      → All (IsCurrent rs) ss
      → All (IsCurrent (row ∷ rs)) ss
  unfolding has_revision
  IsCurrent-cons rs [] h = tt
  IsCurrent-cons rs (s ∷ ss) h = ground (arith, IsCurrent-cons rs ss)

  has_stack-after :
      (n : String) (ss : List Stack)
      → has_stack n (stacks_after ss) ≡ (rev.stack_name == n || has_stack n ss)
  unfolding has_stack
  has_stack-after n ss = ground (arith, has_stack-update n ss, eq_iff rev.stack_name n)

  IsOwned-after :
      (ss : List Stack) (rs : List StackRevision)
      → All (IsOwned ss) rs
      → All (IsOwned (stacks_after ss)) rs
  IsOwned-after ss [] h = tt
  IsOwned-after ss (r ∷ rs) h = ground (arith, has_stack-after r.stack_name ss, IsOwned-after ss rs)

  DistinctStacks-after : (ss : List Stack) → DistinctStacks ss → DistinctStacks (stacks_after ss)
  DistinctStacks-after ss h = elim (Bool-cases (has_stack rev.stack_name ss)) [
    | inl known ↦ rw known (DistinctStacks-update ss h)
    | inr absent ↦ rw absent (absent, h)
  ]

  IsCurrent-after :
      (rs : List StackRevision) (ss : List Stack)
      → All (IsCurrent rs) ss
      → All (IsCurrent (row ∷ rs)) (stacks_after ss)
  unfolding has_revision
  IsCurrent-after rs ss h = elim (Bool-cases (has_stack rev.stack_name ss)) [
    | inl known ↦ rw known (IsCurrent-update rs ss h)
    | inr absent ↦ rw absent (ground (arith, eq_refl rev.stack_name), IsCurrent-cons rs ss h)
  ]

  after-WellFormed :
      (t : Tables)
      → WellFormed t
      → has_revision rev.stack_name rev.revision t.revisions ≡ false
      → WellFormed (after t)
  after-WellFormed t w new = record {
    stacks_distinct = DistinctStacks-after t.stacks w.stacks_distinct;
    revisions_distinct = (new, w.revisions_distinct);
    owned = (
      rw (has_stack-after rev.stack_name t.stacks, eq_refl),
      IsOwned-after t.stacks t.revisions w.owned,
    );
    current = IsCurrent-after t.revisions t.stacks w.current;
  }

  -- A deploy is recorded exactly if its number is not a revision of the stack.
  recorded_inv :
      (t t' : Tables)
      → record_deploy rev repo_url now t ≡ ok t'
      → (has_revision rev.stack_name rev.revision t.revisions ≡ false) × (t' ≡ after t)
  recorded_inv t t' h = elim (Bool-cases (has_revision rev.stack_name rev.revision t.revisions)) [
    | inl old ↦ cc (record_deploy_lem t, old)
    | inr new ↦ let e : ok (after t) ≡ ok t' = rw (record_deploy_lem t, new) at h in (new, cc)
  ]

  -- A deploy that is recorded in well-formed tables leaves them well formed.
  pub record_deploy-WellFormed :
      {t t' : Tables} → WellFormed t → record_deploy rev repo_url now t ≡ ok t' → WellFormed t'
  record_deploy-WellFormed {t} {t'} w h =
      let (new, e) = recorded_inv t t' h in rw e (after-WellFormed t w new)

  has_stack-find_stack :
      (n : String) (ss : List Stack)
      → has_stack n ss ≡ true
      → (s : Stack) × (find_stack n ss ≡ some s)
  unfolding has_stack find_stack
  has_stack-find_stack n [] h = absurd (cc)
  has_stack-find_stack n (s ∷ ss) h = elim (Bool-cases (s.name == n)) [
    | inl here ↦ (s, rw here)
    | inr later ↦ let (r, e) = has_stack-find_stack n ss (ground arith) in (r, rw later e)
  ]

  find_stack-after_self :
      (ss : List Stack)
      → (s : Stack) × (find_stack rev.stack_name (stacks_after ss) ≡ some s)
        × (s.current_revision ≡ rev.revision)
  find_stack-after_self ss = elim (Bool-cases (has_stack rev.stack_name ss)) [
    | inl known ↦
        let (s, e) = has_stack-find_stack rev.stack_name ss known in
        (
          moved_to rev repo_url now s,
          rw known (
              find_stack-update_stack rev.stack_name rev.stack_name (moved_to rev repo_url now) ss
                (λ r. refl)
              ∙ rw (e, eq_refl)),
          refl,
        )
    | inr absent ↦ (new_stack rev repo_url now, rw absent (unfold find_stack in rw eq_refl), refl)
  ]

  find_stack-after_other :
      (other : String) (ss : List Stack)
      → (rev.stack_name == other) ≡ false
      → find_stack other (stacks_after ss) ≡ find_stack other ss
  unfolding find_stack
  find_stack-after_other other ss ne = ground (
    arith,
    find_stack-update_stack rev.stack_name other (moved_to rev repo_url now) ss (λ r. refl),
  )

  -- Behind a deploy that is recorded its revision can be read, with the time of the insert, its
  -- stack points to it, and every other stack and its revisions read as before.
  pub record_deploy_reads :
      (t t' : Tables) (other : String) (number : ℕ)
      → record_deploy rev repo_url now t ≡ ok t'
      → (revision rev.stack_name rev.revision t' ≡ ok row)
        × ((s : Stack) × (stack rev.stack_name t' ≡ ok s) × (s.current_revision ≡ rev.revision))
        × ((rev.stack_name == other) ≡ false
            → (stack other t' ≡ stack other t)
              × (revision other number t' ≡ revision other number t))
  unfolding revision stack
  record_deploy_reads t t' other number h =
      let (new, e) = recorded_inv t t' h in
      let (s, found, points) = find_stack-after_self t.stacks in
      rw e (
        ground (arith, eq_refl rev.stack_name),
        (s, rw found, points),
        λ ne. (rw (find_stack-after_other other t.stacks ne), ground arith),
      )
