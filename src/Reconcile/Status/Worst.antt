-- ===== src/Reconcile/Status/Worst.antt =====
-- The status of a stack is the worst that its services and its error history give.
use poor_man_cluster.Common.{
  ℕ, ◌≤◌, ◌≡◌, refl, subst, sym, ◌⊎◌, inl, inr, Bool, true, false, List, [], ◌∷◌, arith,
  if◌then◌else◌, All, ltb,
}
use poor_man_cluster.Store.StackStatus.{Status, healthy, error, unknown}
use poor_man_cluster.Store.Stacks.{Stack, parse_stack_errors}
use poor_man_cluster.Reconcile.Status.{
  ServiceSummary, service_status, rank, has_current_error, worst_from, stack_status,
}

-- Some service of the list has the status.
abbrev pub Some : Status → List ServiceSummary → Type 0
Some r [] = ⊥
Some r (s ∷ ss) = (service_status s ≡ r) ⊎ Some r ss

-- No service of the list ranks above.
abbrev pub NoneAbove : ℕ → List ServiceSummary → Type 0
NoneAbove n ss = All (λ s. rank (service_status s) ≤ n) ss

worst_from-rank : (w : Status) (ss : List ServiceSummary) → rank w ≤ rank (worst_from w ss)
unfolding worst_from
worst_from-rank w [] = omega arith
worst_from-rank w (s ∷ ss) =
    ground (arith, worst_from-rank w ss, worst_from-rank (service_status s) ss)

rank-le-worse : (w t : Status) → rank t ≤ rank (if ltb (rank w) (rank t) then t else w)
rank-le-worse w t = ground arith

worst_from-NoneAbove :
    (w : Status) (ss : List ServiceSummary) → NoneAbove (rank (worst_from w ss)) ss
unfolding worst_from
worst_from-NoneAbove w [] = tt
worst_from-NoneAbove w (s ∷ ss) =
    let t = service_status s in
    let next = if ltb (rank w) (rank t) then t else w in
    (omega (arith, rank-le-worse w t, worst_from-rank next ss), worst_from-NoneAbove next ss)

attained_step :
    (b : Bool) (w t : Status) (ss : List ServiceSummary)
    → let r = worst_from (if b then t else w) ss in
      (r ≡ (if b then t else w)) ⊎ Some r ss → (r ≡ w) ⊎ ((t ≡ r) ⊎ Some r ss)
attained_step true w t ss (inl e) = inr (inl (sym e))
attained_step true w t ss (inr h) = inr (inr h)
attained_step false w t ss (inl e) = inl e
attained_step false w t ss (inr h) = inr (inr h)

worst_from-attained :
    (w : Status) (ss : List ServiceSummary) → (worst_from w ss ≡ w) ⊎ Some (worst_from w ss) ss
unfolding worst_from
worst_from-attained w [] = inl refl
worst_from-attained w (s ∷ ss) =
    let t = service_status s in
    attained_step (ltb (rank w) (rank t)) w t ss
      (worst_from-attained (if ltb (rank w) (rank t) then t else w) ss)

-- The error history of the stack has an outcome for the current revision.
abbrev pub failed_now : Stack → Bool
failed_now st = has_current_error st.current_revision (parse_stack_errors st.last_error)

worst_of :
    (st : Stack) (s : ServiceSummary) (ss : List ServiceSummary)
    → failed_now st ≡ false
    → worst_from healthy (s ∷ ss) ≡ stack_status st (s ∷ ss)
unfolding stack_status
worst_of st s ss h = rw h

-- An error outcome on the current revision makes the stack's status `error`. Without one, a stack
-- with no service is `unknown`; else no service ranks above the status of the stack, which is
-- `healthy` or that of one of its services.
pub stack_status_worst :
    (st : Stack) (s : ServiceSummary) (ss : List ServiceSummary)
    → (failed_now st ≡ true → (stack_status st [] ≡ error) × (stack_status st (s ∷ ss) ≡ error))
      × (failed_now st ≡ false
          → (stack_status st [] ≡ unknown)
            × NoneAbove (rank (stack_status st (s ∷ ss))) (s ∷ ss)
            × ((stack_status st (s ∷ ss) ≡ healthy) ⊎ Some (stack_status st (s ∷ ss)) (s ∷ ss)))
unfolding stack_status
stack_status_worst st s ss = (
  λ h. (rw h, rw h),
  λ h. (
    rw h,
    subst (λ r. NoneAbove (rank r) (s ∷ ss)) (worst_of st s ss h)
        (worst_from-NoneAbove healthy (s ∷ ss)),
    subst (λ r. (r ≡ healthy) ⊎ Some r (s ∷ ss)) (worst_of st s ss h)
        (worst_from-attained healthy (s ∷ ss)),
  ),
)
