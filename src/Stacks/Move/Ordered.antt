-- ===== src/Stacks/Move/Ordered.antt =====
-- The order of a move: nothing that lasts changes before the data is on the target.
use poor_man_cluster.Stacks.Move.Brought.{Kept, IsForTarget, Brought}
use poor_man_cluster.Common.{String, ◌≡◌, ◌⊎◌, List, ◌∷◌}
use poor_man_cluster.Common.Errors.{Error, Result, ok, err}
use poor_man_cluster.Stacks.Move.{storage_pins_for_stack}
use poor_man_cluster.Stacks.Move.Acts.{Restored, MoveState, Outside}
use poor_man_cluster.Stacks.Deploy

module _ {Body : Type 0} (o : Outside Body) (stack target : String) where
  -- What the end of a move leaves alone.
  abbrev SameRestored : MoveState → Result (Unit {0}) × MoveState → Type 0
  SameRestored s a = (a.1.restored ≡ s.restored) × (a.1.broken ≡ s.broken)

  -- A restore to the target, which brings the data that the stack has on its nodes.
  abbrev pub IsOf : MoveState → Restored → Type 0
  IsOf s x =
      (ps : List String) × (storage_pins_for_stack o stack target s.db s.tables ≡ ok ps)
      × IsForTarget o stack target ps x

  -- How a move ends: with an error, nothing lasting changed and no restore passed, or after a restore
  -- that has passed.
  abbrev pub Ends : MoveState → Result (Unit {0}) × MoveState → Type 0
  Ends s a =
      (((e : Error) × (a.0 ≡ err e))
        × Kept s a.1
        × (a.1.restored ≡ s.restored)
        × ((a.1.broken ≡ s.broken) ⊎ ((x : Restored) × (a.1.broken ≡ x ∷ s.broken) × IsOf s x)))
      ⊎ ((x : Restored) × (a.1.restored ≡ x ∷ s.restored) × (a.1.broken ≡ s.broken) × IsOf s x)
