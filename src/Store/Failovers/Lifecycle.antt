-- ===== src/Store/Failovers/Lifecycle.antt =====
-- The life of a marker, as a map from stacks to markers sees it.
use poor_man_cluster.Common.{
  String, ◌==◌, eq_iff, ◌≡◌, refl, sym, ◌∙◌, true, false, Option, none, some, List, [], ◌∷◌, arith,
  if◌then◌else◌, Bool-cases, inl, inr,
}
use poor_man_cluster.Common.Errors.{Error}
use poor_man_cluster.Store.Failovers.{
  StackFailover, find, has, overwrite, set_stack_failover, acknowledge, ack_stack_failover, remove,
  clear_stack_failover, err_not_found,
}

abbrev pub acked_of : Option StackFailover → Option StackFailover
acked_of none = none
acked_of (some f) = some (record f { acked = true })

abbrev pub found_error : Option StackFailover → Option Error
found_error none = some err_not_found
found_error (some f) = none

pub find-has : (name : String) (fs : List StackFailover) → has name fs ≡ false → find name fs ≡ none
unfolding find has
find-has name [] h = refl
find-has name (f ∷ fs) h = ground (arith, find-has name fs)

found_error-find :
    (name : String) (fs : List StackFailover)
    → found_error (find name fs) ≡ (if has name fs then none else some err_not_found)
unfolding find has
found_error-find name [] = refl
found_error-find name (f ∷ fs) = ground (arith, found_error-find name fs)

find-overwrite_other :
    (g : StackFailover) (name : String) (fs : List StackFailover)
    → (g.stack_name == name) ≡ false
    → find name (overwrite g fs) ≡ find name fs
unfolding find overwrite
find-overwrite_other g name [] h = refl
find-overwrite_other g name (f ∷ fs) h = elim (Bool-cases (f.stack_name == g.stack_name)) [
  | inr other ↦ rw (other, find-overwrite_other g name fs h) refl
  | inl same ↦
      let alike : f.stack_name ≡ g.stack_name = (eq_iff f.stack_name g.stack_name).0 same in
      rw (same, h, alike, h) (find-overwrite_other g name fs h)
]

find-overwrite_self :
    (g : StackFailover) (name : String) (fs : List StackFailover)
    → has g.stack_name fs ≡ true
    → g.stack_name ≡ name
    → find name (overwrite g fs) ≡ some g
unfolding find has overwrite
find-overwrite_self g name [] h e = absurd (ground arith)
find-overwrite_self g name (f ∷ fs) h e = elim (Bool-cases (f.stack_name == g.stack_name)) [
  | inl same ↦ rw same (ground (arith, eq_iff g.stack_name name))
  | inr other ↦ rw other (
      ground (
        arith,
        find-overwrite_self g name fs,
        eq_iff f.stack_name name,
        eq_iff f.stack_name g.stack_name,
      ))
]

find-overwrite :
    (g : StackFailover) (name : String) (fs : List StackFailover)
    → has g.stack_name fs ≡ true
    → find name (overwrite g fs) ≡ (if g.stack_name == name then some g else find name fs)
find-overwrite g name fs h = elim (Bool-cases (g.stack_name == name)) [
  | inl same ↦ rw same (find-overwrite_self g name fs h ((eq_iff g.stack_name name).0 same))
  | inr other ↦ rw other (find-overwrite_other g name fs other)
]

find-set :
    (g : StackFailover) (name : String) (fs : List StackFailover)
    → find name (set_stack_failover g fs) ≡ (if g.stack_name == name then some g else find name fs)
unfolding set_stack_failover find
find-set g name fs = elim (Bool-cases (has g.stack_name fs)) [
  | inl old ↦ rw old (find-overwrite g name fs old)
  | inr new ↦ rw new refl
]

find-acknowledge :
    (stack name : String) (fs : List StackFailover)
    → find name (acknowledge stack fs)
      ≡ (if stack == name then acked_of (find name fs) else find name fs)
unfolding find acknowledge
find-acknowledge stack name [] = ground arith
find-acknowledge stack name (f ∷ fs) = ground (
  arith,
  find-acknowledge stack name fs,
  eq_iff stack name,
  eq_iff f.stack_name name,
  eq_iff f.stack_name stack,
)

pub find-remove :
    (stack name : String) (fs : List StackFailover)
    → find name (remove stack fs) ≡ (if stack == name then none else find name fs)
unfolding find remove
find-remove stack name [] = ground arith
find-remove stack name (f ∷ fs) = ground (
  arith,
  find-remove stack name fs,
  eq_iff stack name,
  eq_iff f.stack_name name,
  eq_iff f.stack_name stack,
)

-- Over any rows, a read after each write is that of a map: setting a marker overwrites that of its
-- stack, acknowledging marks the one that is there, and clearing removes it, the two with "not
-- found" exactly if there is none; the markers of other stacks stay.
pub markers_as_map :
    (g : StackFailover) (stack name : String) (fs : List StackFailover)
    → (find name (set_stack_failover g fs)
        ≡ (if g.stack_name == name then some g else find name fs))
      × (find name (ack_stack_failover stack fs).1
          ≡ (if stack == name then acked_of (find name fs) else find name fs))
      × (find name (clear_stack_failover stack fs).1
          ≡ (if stack == name then none else find name fs))
      × ((ack_stack_failover stack fs).0 ≡ found_error (find stack fs))
      × ((clear_stack_failover stack fs).0 ≡ found_error (find stack fs))
unfolding ack_stack_failover clear_stack_failover
markers_as_map g stack name fs = elim (Bool-cases (has stack fs)) [
  | inl there ↦ (
    find-set g name fs,
    rw there (find-acknowledge stack name fs),
    rw there (find-remove stack name fs),
    rw there (sym (found_error-find stack fs ∙ rw there refl)),
    rw there (sym (found_error-find stack fs ∙ rw there refl)),
  )
  | inr absent ↦
      let nothing = find-has stack fs absent in
      (
        find-set g name fs,
        rw absent (ground (arith, eq_iff stack name, nothing)),
        rw absent (ground (arith, eq_iff stack name, nothing)),
        rw absent (sym (found_error-find stack fs ∙ rw absent refl)),
        rw absent (sym (found_error-find stack fs ∙ rw absent refl)),
      )
]
