-- ===== src/Store/Failovers.antt =====
-- internal/store/failover.go: the markers of automatic moves, less the faults of the database.
pub mod Lifecycle
use poor_man_cluster.Common.{
  ℕ, String, ◌==◌, Bool, true, false, not, ◌||◌, Option, none, some, List, [], ◌∷◌, if◌then◌else◌,
}
use poor_man_cluster.Common.Errors.{Error, plain, Result, ok, err}

-- `StackFailover`
pub record StackFailover : Type 0 where
  pub stack_name : String
  pub from_node : String
  pub to_node : String
  pub at : ℕ
  pub acked : Bool

abbrev pub err_not_found : Error
err_not_found = plain "not found"

unfoldable pub find : String → List StackFailover → Option StackFailover
find name [] = none
find name (f ∷ fs) = if f.stack_name == name then some f else find name fs

unfoldable pub has : String → List StackFailover → Bool
has name [] = false
has name (f ∷ fs) = f.stack_name == name || has name fs

-- `ON CONFLICT(stack_name) DO UPDATE`
unfoldable pub overwrite : StackFailover → List StackFailover → List StackFailover
overwrite g [] = []
overwrite g (f ∷ fs) = (if f.stack_name == g.stack_name then g else f) ∷ overwrite g fs

-- `SetStackFailover`
unfoldable pub set_stack_failover : StackFailover → List StackFailover → List StackFailover
unfolding has overwrite
set_stack_failover g fs = if has g.stack_name fs then overwrite g fs else g ∷ fs

-- `Store.StackFailover`
unfoldable pub stack_failover : String → List StackFailover → Result StackFailover
unfolding find
stack_failover name fs = elim (find name fs) [ none ↦ err err_not_found | some f ↦ ok f ]

unfoldable pub acknowledge : String → List StackFailover → List StackFailover
acknowledge name [] = []
acknowledge name (f ∷ fs) =
    (if f.stack_name == name then record f { acked = true } else f) ∷ acknowledge name fs

-- `AckStackFailover`: no row, no change.
unfoldable pub ack_stack_failover : String → List StackFailover → Option Error × List StackFailover
unfolding has acknowledge
ack_stack_failover name fs =
    if has name fs then (none, acknowledge name fs) else (some err_not_found, fs)

unfoldable pub remove : String → List StackFailover → List StackFailover
remove name [] = []
remove name (f ∷ fs) = let rest = remove name fs in if f.stack_name == name then rest else f ∷ rest

-- `ClearStackFailover`
unfoldable pub clear_stack_failover :
    String → List StackFailover → Option Error × List StackFailover
unfolding has remove
clear_stack_failover name fs =
    if has name fs then (none, remove name fs) else (some err_not_found, fs)
