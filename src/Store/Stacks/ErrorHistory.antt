-- ===== src/Store/Stacks/ErrorHistory.antt =====
-- The error history of a stack.
use poor_man_cluster.Common.{
  ℕ, String, ◌==◌, eq_iff, eq_refl, ◌≡◌, refl, true, false, none, some, List, [], ◌∷◌, arith,
  if◌then◌else◌, take, Option-cases, inl, inr,
}
use poor_man_cluster.Common.Errors.{ok}
use poor_man_cluster.Store.Stacks.{
  Stack, StackErrorEntry, history, Tables, parse_stack_errors, has_stack, find_stack, update_stack,
  record_stack_error, list_stack_errors,
}

pub find_stack-update_stack :
    (name other : String) (f : Stack → Stack) (ss : List Stack)
    → ((s : Stack) → (f s).name ≡ s.name)
    → find_stack other (update_stack name f ss) ≡ (elim (find_stack other ss) [
      | none ↦ none
      | some s ↦ some (if name == other then f s else s)
    ])
unfolding find_stack update_stack
find_stack-update_stack name other f [] h = refl
find_stack-update_stack name other f (s ∷ ss) h = ground (
  arith,
  h s,
  eq_iff s.name name,
  eq_iff s.name other,
  eq_iff name other,
  find_stack-update_stack name other f ss h,
)

pub find_stack-has_stack :
    (name : String) (ss : List Stack) (s : Stack)
    → find_stack name ss ≡ some s
    → has_stack name ss ≡ true
unfolding find_stack has_stack
find_stack-has_stack name [] s h = cc
find_stack-has_stack name (r ∷ ss) s h = ground (arith, find_stack-has_stack name ss s)

-- The entry that a failure leaves.
abbrev pub entry_of : ℕ → String → ℕ → StackErrorEntry
entry_of number message now = record { revision = number; error = message; created_at = now }

-- Recording a failure with a message for a stack that exists puts it before the stack's history,
-- cuts the history to its twenty newest entries, and leaves the history of every other stack as it
-- was.
pub list_stack_errors-record_stack_error :
    (name other : String) (number : ℕ) (message : String) (now limit : ℕ) (t : Tables)
    {old : List StackErrorEntry}
    → (message == "") ≡ false
    → list_stack_errors name 0 t ≡ ok old
    → (t' : Tables) × (record_stack_error name number message now t ≡ ok t')
      × (list_stack_errors name 0 t' ≡ ok (take 20 (entry_of number message now ∷ old)))
      × ((name == other) ≡ false
          → list_stack_errors other limit t' ≡ list_stack_errors other limit t)
unfolding record_stack_error list_stack_errors
list_stack_errors-record_stack_error name other number message now limit t h k =
    elim (Option-cases (find_stack name t.stacks)) [
      | inl missing ↦ absurd (ground arith)
      | inr (s, there) ↦
          let entries = take 20 (entry_of number message now ∷ parse_stack_errors s.last_error) in
          let f = λ (r : Stack). record r { last_error = history entries; updated_at = now } in
          let same = find_stack-update_stack name name f t.stacks (λ r. refl) in
          let others = find_stack-update_stack name other f t.stacks (λ r. refl) in
          (
            record t { stacks = update_stack name f t.stacks },
            ground (arith, find_stack-has_stack name t.stacks s),
            ground (arith, same, eq_refl name),
            λ e. ground (arith, others),
          )
    ]
