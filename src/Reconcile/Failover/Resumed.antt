-- ===== src/Reconcile/Failover/Resumed.antt =====
-- A move ends the outage of a stack: the reconcile loop goes on with it.
use poor_man_cluster.Common.{
  String, ◌==◌, eq_refl, ◌≡◌, refl, Bool, true, false, ◌||◌, none, some, List, [], ◌∷◌, arith,
  if◌then◌else◌, All, Map, Bool-cases, inl, inr,
}
use poor_man_cluster.Common.Errors.{ok}
use poor_man_cluster.Manifest.Ir.{IrService, Ir}
use poor_man_cluster.Stacks.Placement.{
  resolve, holds_volume, is_empty, is_role, pin_of, add_node, pins_from, storage_pins,
}
use poor_man_cluster.Stacks.Placement.Wiring.{read_pin, daemon_pins}
use poor_man_cluster.Stacks.Move.Acts.{MoveState, Outside}
use poor_man_cluster.Stacks.Move.{move_with_options}
use poor_man_cluster.Stacks.Move.Pinned.{move-settled}
use poor_man_cluster.Reconcile.Failover.{is_healthy, first_down, storage_paused}

-- A service that holds a volume leaves its node to the cluster.
abbrev pub IsFree : IrService → Type 0
IsFree s = (is_empty s.volumes || s.placement == "") ≡ true

module _ (nodes : List String) (stack target : String) (given : (target == "") ≡ false)
    (is_node : is_role target ≡ false) where
  pin_of-free :
      (s : IrService)
      → IsFree s
      → pin_of nodes stack target s ≡ (if is_empty s.volumes then "" else target)
  unfolding pin_of resolve
  pin_of-free s free = elim (Bool-cases (is_empty s.volumes)) [
    | inl none_held ↦ rw none_held refl
    | inr held ↦
        let unplaced : (s.placement == "") ≡ true = ground (arith, held) in
        rw (held, unplaced, given) refl
  ]

  add_node-again : (b : Bool) → add_node (target ∷ []) (if b then "" else target) ≡ target ∷ []
  add_node-again true = refl
  add_node-again false = rw (given, is_node, eq_refl target) refl

  pins_from-found :
      (ss : List IrService)
      → All IsFree ss
      → pins_from nodes stack target (target ∷ []) ss ≡ target ∷ []
  unfolding pins_from
  pins_from-found [] free = refl
  pins_from-found (s ∷ ss) (first, free) =
      rw (pin_of-free s first, add_node-again (is_empty s.volumes)) (pins_from-found ss free)

  pins_from-free :
      (ss : List IrService)
      → All IsFree ss
      → holds_volume ss ≡ true
      → pins_from nodes stack target [] ss ≡ target ∷ []
  unfolding pins_from holds_volume
  pins_from-free [] free held = absurd (ground arith)
  pins_from-free (s ∷ ss) (first, free) held = elim (Bool-cases (is_empty s.volumes)) [
    | inl none_held ↦
        rw (pin_of-free s first, none_held) (pins_from-free ss free (ground (arith, none_held)))
    | inr holds ↦ rw (pin_of-free s first, holds, given, is_node) (pins_from-found ss free)
  ]

-- After a move that has passed, with settings that can be read and the pins that the daemon wires,
-- the loop does not pause the stack as long as the target is ready and active, whatever the storage
-- nodes are, if the manifest has a volume and its services with volumes name no node themselves, and
-- the target is not named like a role.
pub move_resumes :
    {Body : Type 0} (o : Outside Body) (stack target : String) (nodes nodes' : List String)
    (from_s3 : Bool) (s s' : MoveState) (ir : Ir) (health : Map Bool)
    → o.deploy.pins ≡ some (daemon_pins nodes)
    → (stack == "") ≡ false
    → s.db.reads_fail ≡ false
    → move_with_options o stack target from_s3 s ≡ (ok tt, s')
    → is_role target ≡ false
    → All IsFree ir.services
    → holds_volume ir.services ≡ true
    → is_healthy health target ≡ true
    → storage_paused true health (storage_pins (some (daemon_pins nodes')) s'.db stack ir) ≡ none
unfolding storage_paused first_down storage_pins read_pin
move_resumes o stack target nodes nodes' from_s3 s s' ir health wired named reads h is_node free
      held up =
    let (given, pinned, cleared) =
      move-settled o stack target nodes wired named from_s3 s s' reads h in
    rw (pinned, pins_from-free nodes' stack target given is_node ir.services free held, up)
      (ground arith)
