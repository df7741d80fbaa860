-- ===== src/Stacks/Move/Pinned.antt =====
-- Where a stack stands after a move that has passed.
use poor_man_cluster.Common.{
  String, ◌==◌, eq_refl, ◌≡◌, refl, sym, ◌∙◌, subst, ap, Bool, false, not, ◌||◌, none, some, List,
  [], ◌∷◌, arith, if◌then◌else◌, Bool-cases, Option, Option-cases, inl, inr, insert, map,
}
use poor_man_cluster.Common.Errors.{Error, Result, ok, err}
use poor_man_cluster.Manifest.Ir.{IrService, Ir}
use poor_man_cluster.Store.Settings.{set_setting}
use poor_man_cluster.Store.Failovers.{StackFailover, find, has, clear_stack_failover}
use poor_man_cluster.Store.Failovers.Lifecycle.{find-remove, find-has}
use poor_man_cluster.Stacks.Placement.{place, resolve, resolve_placement, is_empty}
use poor_man_cluster.Stacks.Placement.Wiring.{Db, stack_pin_key, read_pin, write_pin, daemon_pins}
use poor_man_cluster.Stacks.Placement.Sticky.{pin_in, pin_in-insert}
use poor_man_cluster.Stacks.Deploy.{Deployed, State}
use poor_man_cluster.Stacks.Deploy
use poor_man_cluster.Stacks.Deploy.Pins.{deploy-pins}
use poor_man_cluster.Stacks.Move.{
  latest, pins, bring, settle, pin, redeploy, clear_marker, deployed, payload, move_with_options,
}
use poor_man_cluster.Stacks.Move.Acts.{MoveState, Outside, Act, bind, unless}
use poor_man_cluster.Stacks.Move.Brought.{Brought, bring-Brought}

bind-ok :
    {A B : Type 0} (a : Result A × MoveState) (f : A → Act B) (b : B) (s' : MoveState)
    → bind a f ≡ (ok b, s')
    → (x : A) × (s1 : MoveState) × (a ≡ (ok x, s1)) × (f x s1 ≡ (ok b, s'))
bind-ok (err e, s1) f b s' h = absurd (ground arith)
bind-ok (ok x, s1) f b s' h = (x, s1, refl, h)

-- The marker behind a move that has passed: gone, unless the clearing has failed.
abbrev pub marker_after : Option Error → Option StackFailover → Option StackFailover
marker_after none old = none
marker_after (some e) old = old

find-clear_marker :
    {Body : Type 0} (o : Outside Body) (stack target : String) (s : MoveState)
    → find stack (clear_marker o stack target s).1.markers
      ≡ marker_after o.clear_fails (find stack s.markers)
unfolding clear_marker clear_stack_failover
find-clear_marker o stack target s = elim (Option-cases o.clear_fails) [
  | inr (e, fails) ↦ rw fails refl
  | inl clears ↦ elim (Bool-cases (has stack s.markers)) [
    | inl there ↦ rw (clears, there) (find-remove stack stack s.markers ∙ rw (eq_refl stack) refl)
    | inr absent ↦ rw (clears, absent) (find-has stack s.markers absent)
  ]
]

clear_marker-db :
    {Body : Type 0} (o : Outside Body) (stack target : String) (s : MoveState)
    → (clear_marker o stack target s).1.db ≡ s.db
unfolding clear_marker
clear_marker-db o stack target s = elim (Option-cases o.clear_fails) [
  | inr (e, fails) ↦ rw fails refl
  | inl clears ↦ rw clears refl
]

module _ {Body : Type 0} (o : Outside Body) (stack target : String) (nodes : List String)
    (wired : o.deploy.pins ≡ some (daemon_pins nodes)) (named : (stack == "") ≡ false)
    (given : (target == "") ≡ false) where
  -- The stack is pinned to the target in settings that can be read.
  abbrev IsPinned : Db → Type 0
  IsPinned db = (pin_in db stack ≡ target) × (db.reads_fail ≡ false)

  pin-IsPinned :
      (s s' : MoveState)
      → s.db.reads_fail ≡ false
      → pin o stack target s ≡ (ok tt, s')
      → IsPinned s'.db
  unfolding pin write_pin set_setting
  pin-IsPinned s s' reads h = elim (Bool-cases s.db.writes_fail) [
    | inl failed ↦ absurd (ground (arith, failed))
    | inr writes ↦
        let at : s'.db ≡ record s.db { rows = insert (stack_pin_key stack) target s.db.rows } =
          ground (arith, writes) in
        rw at (pin_in-insert s.db stack target reads, reads)
  ]

  pin-markers : (s : MoveState) → (pin o stack target s).1.markers ≡ s.markers
  unfolding pin
  pin-markers s = refl

  redeploy-markers :
      (yaml : String) (s : MoveState) → (redeploy o stack target yaml s).1.markers ≡ s.markers
  unfolding redeploy
  redeploy-markers yaml s =
      go (Deploy.deploy o.deploy (payload o stack target yaml) false s.tables s.db)
    where
      go :
          (a : Result Deployed × State Body Db)
          → (deployed o stack target s a).1.markers ≡ s.markers
      go (err e, d) = refl
      go (ok made, d) = refl

  redeploy-db :
      (yaml : String) (s s' : MoveState)
      → pin_in s.db stack ≡ target
      → redeploy o stack target yaml s ≡ (ok tt, s')
      → s'.db ≡ s.db
  unfolding redeploy
  redeploy-db yaml s s' at h =
      go (Deploy.deploy o.deploy (payload o stack target yaml) false s.tables s.db)
        (deploy-pins o.deploy (payload o stack target yaml) nodes s.db false s.tables wired
          (rw at given) named)
        h
    where
      go :
          (a : Result Deployed × State Body Db)
          → a.1.pins ≡ s.db
          → deployed o stack target s a ≡ (ok tt, s')
          → s'.db ≡ s.db
      go (err e, d) k h = absurd (ground arith)
      go (ok made, d) k h = ground arith

  settle-IsPinned :
      (yaml : String) (s s' : MoveState)
      → s.db.reads_fail ≡ false
      → settle o stack target yaml s ≡ (ok tt, s')
      → IsPinned s'.db × (find stack s'.markers ≡ marker_after o.clear_fails (find stack s.markers))
  settle-IsPinned yaml s s' reads h =
      let (u, s1, first, h1) = bind-ok (pin o stack target s) _ tt s' h in
      let (v, s2, second, h2) = bind-ok (redeploy o stack target yaml s1) _ tt s' h1 in
      let left = λ (a : Result (Unit {0}) × MoveState). a.1 in
      let pinned = pin-IsPinned s s1 reads first in
      let same = redeploy-db yaml s1 s2 pinned.0 second in
      let last : s' ≡ (clear_marker o stack target s2).1 = sym (ap left h2) in
      let at1 : s1.markers ≡ s.markers =
        ap (λ (x : MoveState). x.markers) (sym (ap left first)) ∙ pin-markers s in
      let at2 : s2.markers ≡ s.markers =
        ap (λ (x : MoveState). x.markers) (sym (ap left second)) ∙ redeploy-markers yaml s1 ∙ at1 in
      let same_db : s'.db ≡ s2.db =
        ap (λ (x : MoveState). x.db) last ∙ clear_marker-db o stack target s2 in
      (
        subst IsPinned (sym (same_db ∙ same)) pinned,
        ap (λ (x : MoveState). find stack x.markers) last
            ∙ find-clear_marker o stack target s2
            ∙ ap (λ (fs : List StackFailover). marker_after o.clear_fails (find stack fs)) at2,
      )

-- A service that holds a volume and names no node is put on the target.
abbrev pub on_target : String → IrService → IrService
on_target target svc =
    if not (svc.placement == "") || is_empty svc.volumes
    then svc
    else record svc { placement = target }

place-on_target :
    (nodes : List String) (stack target : String) (ss : List IrService)
    → (target == "") ≡ false
    → map (place nodes stack target) ss ≡ map (on_target target) ss
unfolding place resolve
place-on_target nodes stack target [] given = refl
place-on_target nodes stack target (s ∷ ss) given =
    rw (given, place-on_target nodes stack target ss given) refl

module _ {Body : Type 0} (o : Outside Body) (stack target : String) (nodes : List String)
    (wired : o.deploy.pins ≡ some (daemon_pins nodes)) (named : (stack == "") ≡ false) where
  pub move-settled :
      (from_s3 : Bool) (s s' : MoveState)
      → s.db.reads_fail ≡ false
      → move_with_options o stack target from_s3 s ≡ (ok tt, s')
      → ((target == "") ≡ false)
        × (pin_in s'.db stack ≡ target)
        × (find stack s'.markers ≡ marker_after o.clear_fails (find stack s.markers))
  unfolding move_with_options
  move-settled from_s3 s s' reads h =
      let (u, s0, first, h0) =
        bind-ok (unless (target == "") "move: target node is empty" s) _ tt s' h in
      elim (Bool-cases (target == "")) [
        | inl blank ↦ absurd (ground (arith, blank))
        | inr given ↦
            let (rev, s1, second, h1) = bind-ok (latest o stack target s0) _ tt s' h0 in
            let (ps, s2, third, h2) = bind-ok (pins o stack target s1) _ tt s' h1 in
            let (v, s3, fourth, h3) = bind-ok (bring o stack target from_s3 ps s2) _ tt s' h2 in
            let start : s2 ≡ s = ground (arith, given) in
            let brought : Brought o stack target ps s2 (ok tt, s3) =
              subst (Brought o stack target ps s2) fourth
                (bring-Brought o stack target from_s3 ps s2) in
            let same : s3.db ≡ s.db = brought.0.0 ∙ ap (λ (x : MoveState). x.db) start in
            let (pinned, cleared) =
              settle-IsPinned o stack target nodes wired named given rev.source_yaml s3 s'
                (rw same reads) h3 in
            let old : s3.markers ≡ s.markers =
              brought.0.2 ∙ ap (λ (x : MoveState). x.markers) start in
            (
              given,
              pinned.0,
              cleared
                  ∙ ap (λ (fs : List StackFailover). marker_after o.clear_fails (find stack fs))
                      old,
            )
      ]

  -- After a move that has passed, with settings that can be read and the pins that the daemon wires,
  -- the daemon puts every service of the stack that holds a volume and names no node itself on the
  -- target from then on, whatever the manifest and the storage nodes are; and the stack has no
  -- failover marker, unless the clearing of it fails, and then it has the one from before the move.
  pub move_pinned :
      (from_s3 : Bool) (s s' : MoveState) (nodes' : List String) (ir : Ir)
      → s.db.reads_fail ≡ false
      → move_with_options o stack target from_s3 s ≡ (ok tt, s')
      → (resolve_placement (some (daemon_pins nodes')) s'.db stack ir
          ≡ ok (record ir { services = map (on_target target) ir.services }))
        × (find stack s'.markers ≡ marker_after o.clear_fails (find stack s.markers))
  unfolding resolve_placement read_pin
  move_pinned from_s3 s s' nodes' ir reads h =
      let (given, pinned, cleared) = move-settled from_s3 s s' reads h in
      (rw (pinned, place-on_target nodes' stack target ir.services given) refl, cleared)
