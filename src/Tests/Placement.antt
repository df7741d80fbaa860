-- ===== src/Tests/Placement.antt =====
-- Storage nodes, and the pins of the stacks.
use poor_man_cluster.Common.{◌≡◌, ◌≢◌, refl, String, true, false, some, List, [], ◌∷◌, lookup}
use poor_man_cluster.Common.Errors.{ok}
use poor_man_cluster.Common.Text.{bytes}
use poor_man_cluster.Manifest.Ir.{Ir}
use poor_man_cluster.Stacks.Placement.{
  resolve, round_robin_node, resolve_placement, resolve_placements, storage_pins, holds_volume,
}
use poor_man_cluster.Stacks.Placement.Wiring.{Db, read_pin, write_pin, daemon_pins, stack_pin_key}
use poor_man_cluster.Stacks.Placement.Sticky.{
  IsHealthy, resolve_placements_sticky, unread_pin_overwritten,
}
use poor_man_cluster.Tests.{db_service, shop_ir}

abbrev one_node : List String
one_node = "s1" ∷ []

abbrev two_nodes : List String
two_nodes = "s2" ∷ "s3" ∷ []

some_nodes : one_node ≢ []
some_nodes h = cc

abbrev placed_ir : Ir
placed_ir = record shop_ir { services = record db_service { placement = "s1" } ∷ [] }

abbrev empty_db : Db
empty_db = record { rows = []; reads_fail = false; writes_fail = false }

pins_found : storage_pins (some (daemon_pins one_node)) empty_db "shop" shop_ir ≡ ok one_node
unfolding storage_pins read_pin resolve round_robin_node bytes
pins_found = refl

placed_once : resolve_placement (some (daemon_pins one_node)) empty_db "shop" shop_ir ≡ ok placed_ir
unfolding resolve_placement read_pin resolve round_robin_node bytes
placed_once = refl

abbrev pinned_db : Db
pinned_db = record empty_db { rows = (stack_pin_key "shop", "s1") ∷ [] }

healthy : IsHealthy empty_db
healthy = record { reads = refl; writes = refl }

placed_first :
    resolve_placements (some (daemon_pins one_node)) empty_db "shop" shop_ir
    ≡ (ok placed_ir, pinned_db)
unfolding resolve_placements write_pin stack_pin_key read_pin resolve round_robin_node bytes
    holds_volume
placed_first = refl

resolve_placements_sticky_example :
    resolve_placement (some (daemon_pins two_nodes)) pinned_db "shop" shop_ir ≡ ok placed_ir
resolve_placements_sticky_example =
    resolve_placements_sticky one_node two_nodes empty_db "shop" shop_ir {ir1 = placed_ir}
      {db1 = pinned_db} healthy some_nodes refl placed_first

abbrev unread_db : Db
unread_db = record {
  rows = (stack_pin_key "shop", "operator-node") ∷ [];
  reads_fail = true;
  writes_fail = false;
}

holds : holds_volume shop_ir.services ≡ true
unfolding holds_volume
holds = refl

unread_pin_overwritten_example :
    lookup
      (stack_pin_key "shop")
      (resolve_placements (some (daemon_pins one_node)) unread_db "shop" shop_ir).1.rows
    ≡ some (round_robin_node "shop" one_node)
unread_pin_overwritten_example =
    unread_pin_overwritten one_node unread_db "shop" shop_ir refl refl some_nodes refl holds
