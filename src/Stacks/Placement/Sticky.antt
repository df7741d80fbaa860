-- ===== src/Stacks/Placement/Sticky.antt =====
-- An assignment, once made, holds.

use poor_man_cluster.Common.{
  String, ◌==◌, eq_iff, eq_refl, ◌≡◌, refl, sym, ap, ◌∙◌, ◌≢◌, ◌⊎◌, inl, inr, true, false, not,
  ◌||◌, some, List, [], ◌∷◌, map, arith, contains, if◌then◌else◌, Bool-cases, lookup, insert,
  lookup-insert,
}
use poor_man_cluster.Common.Errors.{ok}
use poor_man_cluster.Manifest.Ir.{IrService, Ir}
use poor_man_cluster.Store.Settings.{setting_default, set_setting}
use poor_man_cluster.Stacks.Placement.{
  resolve, place, holds_volume, round_robin_node, resolve_placement, resolve_placements,
}
use poor_man_cluster.Stacks.Placement.Nodes.{contains-round_robin_node}
use poor_man_cluster.Stacks.Placement.Wiring.{Db, stack_pin_key, read_pin, write_pin, daemon_pins}

-- The pin that a lookup finds: "" if no row has the key, or if the read fails.
abbrev pub pin_in : Db → String → String
pin_in db app_name = setting_default db.reads_fail db.rows (stack_pin_key app_name) ""

-- A healthy database, and storage nodes as `parse_storage_nodes` gives them.
pub record IsHealthy (db : Db) : Type 0 where
  pub reads : db.reads_fail ≡ false
  pub writes : db.writes_fail ≡ false

-- A list of services without a volume is placed as it is.
place_stateless :
    (nodes : List String) (app_name pin : String) (ss : List IrService)
    → holds_volume ss ≡ false
    → map (place nodes app_name pin) ss ≡ ss
unfolding place holds_volume
place_stateless nodes app_name pin [] h = refl
place_stateless nodes app_name pin (s ∷ ss) h =
    ground (arith, place_stateless nodes app_name pin ss)

-- A round-robin node is not the empty text, unless that is a storage node.
resolve-ne_empty :
    (nodes : List String) (app_name : String)
    → nodes ≢ []
    → contains nodes "" ≡ false
    → (resolve nodes app_name "" == "") ≡ false
unfolding resolve
resolve-ne_empty [] app_name h k = absurd (h refl)
resolve-ne_empty (m ∷ ms) app_name h k =
    let node = round_robin_node app_name (m ∷ ms) in
    elim (Bool-cases (node == "")) [
      | inl e ↦
          let in_nodes : contains (m ∷ ms) node ≡ true =
            contains-round_robin_node app_name (m ∷ ms) h in
          let same : node ≡ "" = (eq_iff node "").0 e in
          cc (k, in_nodes, ap (contains (m ∷ ms)) same)
      | inr e ↦ e
    ]

holds_volume-place :
    (nodes : List String) (app_name pin : String) (ss : List IrService)
    → holds_volume (map (place nodes app_name pin) ss) ≡ holds_volume ss
unfolding place holds_volume
holds_volume-place nodes app_name pin [] = refl
holds_volume-place nodes app_name pin (s ∷ ss) =
    ground (arith, holds_volume-place nodes app_name pin ss)

-- Two placements agree on every service if their resolved nodes do.
place_congr :
    (nodes nodes' : List String) (app_name pin pin' : String) (ss : List IrService)
    → resolve nodes app_name pin ≡ resolve nodes' app_name pin'
    → map (place nodes app_name pin) ss ≡ map (place nodes' app_name pin') ss
unfolding place
place_congr nodes nodes' app_name pin pin' [] e = refl
place_congr nodes nodes' app_name pin pin' (s ∷ ss) e =
    rw (place_congr nodes nodes' app_name pin pin' ss e, e)

resolve_by_pin :
    (nodes nodes' : List String) (app_name pin : String)
    → (pin == "") ≡ false
    → resolve nodes app_name pin ≡ resolve nodes' app_name pin
unfolding resolve
resolve_by_pin nodes nodes' app_name pin h = rw h

resolve_as_pin :
    (nodes : List String) (app_name node : String)
    → (node == "") ≡ false
    → resolve nodes app_name node ≡ node
unfolding resolve
resolve_as_pin nodes app_name node h = rw h

module _ (nodes : List String) (db : Db) (app_name : String) (ir : Ir) where
  abbrev pub placed : Ir
  placed = record ir { services = map (place nodes app_name (pin_in db app_name)) ir.services }

  -- The settings after a placement: a pin is written for a stack that holds a volume and has none.
  abbrev pub pinned : Db
  pinned =
      if not (pin_in db app_name == "") || not (holds_volume ir.services)
      then db
      else record db { rows = insert (stack_pin_key app_name) (resolve nodes app_name "") db.rows }

  resolve_placements_lem :
      db.writes_fail ≡ false
      → nodes ≢ []
      → contains nodes "" ≡ false
      → resolve_placements (some (daemon_pins nodes)) db app_name ir ≡ (ok placed, pinned)
  unfolding resolve_placements read_pin write_pin set_setting
  resolve_placements_lem writes h k = ground (
    arith,
    resolve-ne_empty nodes app_name h k,
    holds_volume-place nodes app_name (pin_in db app_name) ir.services,
  )

  pinned_kept :
      ((pin_in db app_name == "") ≡ false) ⊎ (holds_volume ir.services ≡ false) → pinned ≡ db
  pinned_kept h = ground arith

  pinned_new :
      (pin_in db app_name == "") ≡ true
      → holds_volume ir.services ≡ true
      → pinned
        ≡ record db { rows = insert (stack_pin_key app_name) (resolve nodes app_name "") db.rows }
  pinned_new h k = ground arith

pub pin_in-insert :
    (db : Db) (app_name node : String)
    → db.reads_fail ≡ false
    → pin_in (record db { rows = insert (stack_pin_key app_name) node db.rows }) app_name ≡ node
unfolding setting_default
pin_in-insert db app_name node h = simp (h, lookup-insert, eq_refl)

module _ (nodes nodes' : List String) (db : Db) (app_name : String) (ir : Ir) where
  placed_again :
      db.reads_fail ≡ false
      → nodes ≢ []
      → contains nodes "" ≡ false
      → map (place nodes' app_name (pin_in (pinned nodes db app_name ir) app_name)) ir.services
        ≡ map (place nodes app_name (pin_in db app_name)) ir.services
  placed_again reads h k = elim (Bool-cases (pin_in db app_name == "")) [
    | inr stands ↦ rw (pinned_kept nodes db app_name ir (inl stands)) (
        place_congr nodes' nodes app_name _ _ ir.services
          (resolve_by_pin nodes' nodes app_name _ stands))
    | inl absent ↦ elim (Bool-cases (holds_volume ir.services)) [
      | inr stateless ↦
          place_stateless nodes' app_name _ ir.services stateless
          ∙ sym (place_stateless nodes app_name _ ir.services stateless)
      | inl stateful ↦
          let node = resolve nodes app_name "" in
          let none_set : pin_in db app_name ≡ "" = (eq_iff _ "").0 absent in
          rw
            (
              pinned_new nodes db app_name ir absent stateful,
              pin_in-insert db app_name node reads,
              none_set,
            )
            (place_congr nodes' nodes app_name node "" ir.services
              (resolve_as_pin nodes' app_name node (resolve-ne_empty nodes app_name h k)))
    ]
  ]

  -- Once a stack has been placed by the daemon with some storage nodes, none of them the empty
  -- text, and while the database answers, a later placement of the same manifest gives the same
  -- result whatever the storage nodes are then.
  pub resolve_placements_sticky :
      {ir1 : Ir} {db1 : Db}
      → IsHealthy db
      → nodes ≢ []
      → contains nodes "" ≡ false
      → resolve_placements (some (daemon_pins nodes)) db app_name ir ≡ (ok ir1, db1)
      → resolve_placement (some (daemon_pins nodes')) db1 app_name ir ≡ ok ir1
  unfolding resolve_placement read_pin
  resolve_placements_sticky {ir1} {db1} healthy h k e =
      let e' = sym (resolve_placements_lem nodes db app_name ir healthy.writes h k) ∙ e in
      let same_db : db1 ≡ pinned nodes db app_name ir = cc in
      let same_ir : ok ir1 ≡ ok (placed nodes db app_name ir) = cc in
      rw (same_db, same_ir)
        (ap (λ (ss : List IrService). ok (record ir { services = ss }))
          (placed_again healthy.reads h k))

resolve-round_robin :
    (nodes : List String) (app_name : String)
    → nodes ≢ []
    → resolve nodes app_name "" ≡ round_robin_node app_name nodes
unfolding resolve
resolve-round_robin [] app_name h = absurd (h refl)
resolve-round_robin (n ∷ ns) app_name h = refl

-- If the database fails to read the pin and then takes a write, and there are storage nodes, none
-- of them the empty text, then the pin of a stack that holds a volume is overwritten by the
-- round-robin node, whatever the pin was.
pub unread_pin_overwritten :
    (nodes : List String) (db : Db) (app_name : String) (ir : Ir)
    → db.reads_fail ≡ true
    → db.writes_fail ≡ false
    → nodes ≢ []
    → contains nodes "" ≡ false
    → holds_volume ir.services ≡ true
    → lookup
        (stack_pin_key app_name)
        (resolve_placements (some (daemon_pins nodes)) db app_name ir).1.rows
      ≡ some (round_robin_node app_name nodes)
unfolding setting_default
unread_pin_overwritten nodes db app_name ir reads writes h k v =
    rw
      (
        resolve_placements_lem nodes db app_name ir writes h k,
        pinned_new nodes db app_name ir (rw reads) v,
        lookup-insert,
        eq_refl,
      )
      (ap some (resolve-round_robin nodes app_name h))
