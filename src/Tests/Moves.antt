-- ===== src/Tests/Moves.antt =====
-- A move of a stack between two nodes.
use poor_man_cluster.Common.{
  ◌≡◌, refl, ap, String, ◌==◌, if◌then◌else◌, true, false, none, some, List, [], ◌∷◌, map, lookup,
  insert,
}
use poor_man_cluster.Common.Errors.{plain, Result, ok, err}
use poor_man_cluster.Store.Stacks.{
  record_deploy, next_free_revision, free_from, find_stack, has_revision,
  set_revision_rendered_hash, record_stack_error,
}
use poor_man_cluster.Store.Settings.{setting_default, set_setting}
use poor_man_cluster.Store.Failovers.{
  StackFailover, find, set_stack_failover, ack_stack_failover, clear_stack_failover,
}
use poor_man_cluster.Store.Failovers.Lifecycle.{found_error, acked_of, markers_as_map}
use poor_man_cluster.Stacks.Placement.{
  holds_volume, storage_pins, resolve, resolve_placement, resolve_placements,
}
use poor_man_cluster.Stacks.Placement.Wiring.{Db, stack_pin_key, read_pin, daemon_pins}
use poor_man_cluster.Stacks.Deploy.{
  App, parse_step, conflict_step, validate_step, translate_step, record_step, ensure_step,
  apply_step,
}
use poor_man_cluster.Stacks.Deploy
use poor_man_cluster.Stacks.Transit.{Object, is_candidate, newest_archive_object}
use poor_man_cluster.Stacks.Move.{move_with_options}
use poor_man_cluster.Stacks.Move.Acts.{Node, MoveState, Outside, pulled}
use poor_man_cluster.Stacks.Move.Pinned.{on_target, marker_after, move_pinned}
use poor_man_cluster.Reconcile.Failover.{storage_paused, is_healthy}
use poor_man_cluster.Reconcile.Failover.Resumed.{move_resumes}
use poor_man_cluster.Tests.{tables, shop_ir}

abbrev deployer : Deploy.Outside String Db
deployer = record {
  now = 500;
  parse = λ text. ok (record { name = "shop"; version = "1"; platform = false; body = "services" });
  interpolate_validate = λ a. ok ("1", "services");
  build_ir = λ a. ok shop_ir;
  pins = some (daemon_pins ("n1" ∷ "n2" ∷ []));
  render_stamped = λ ir. ok "services: {}";
  payload_json = λ p names. "{}";
  ensure_volume_dirs = λ text. none;
  apply = λ a ir text number. none;
  config_hash = λ text. "hash";
  error_text = λ e. "failed";
}

abbrev node : String → String → Node
node id hostname = record {
  id = id;
  hostname = hostname;
  status = "ready";
  availability = "active";
  is_leader = false;
  address = "10.0.0.1";
}

abbrev old_key : String
old_key = "backup-id1-2026-01-01T00-00-00.tar.gz"

abbrev new_key : String
new_key = "backup-id1-2026-01-02T00-00-00.tar.gz"

abbrev objects : List Object
objects =
    (record { key = old_key; last_modified = 1 })
    ∷ (record { key = new_key; last_modified = 3 })
    ∷ (record { key = "backup-id2-2026-01-03T00-00-00.tar.gz"; last_modified = 5 })
    ∷ []

abbrev outside : Outside String
outside = record {
  now = 500;
  list_fails = none;
  build = λ text. ok shop_ir;
  deploy = deployer;
  local_host = "n1";
  nodes = some (ok (node "id1" "n1" ∷ node "id2" "n2" ∷ []));
  configured = true;
  create_fails = none;
  trigger = none;
  stat = λ path. none;
  entries = ok [];
  backup_dir = "/archive";
  objects = ok objects;
  rows_fail = none;
  fetch = λ key. none;
  pull = λ key target. none;
  carry = λ path target leader. none;
  unpack = λ path. none;
  clear_fails = none;
}

abbrev marker : StackFailover
marker = record { stack_name = "shop"; from_node = "n1"; to_node = "n2"; at = 7; acked = false }

abbrev before : MoveState
before = record {
  db = record { rows = ("stack_pin_shop", "n1") ∷ []; reads_fail = false; writes_fail = false };
  tables = tables;
  markers = marker ∷ [];
  backups = [];
  restored = [];
  broken = [];
}

abbrev moved : Result (Unit {0}) × MoveState
moved = move_with_options outside "shop" "n2" true before

-- The failover pulls the newer archive of the node that held the data.
restored_from : moved.1.restored ≡ pulled new_key "n2" ∷ []
unfolding move_with_options Deploy.deploy setting_default set_setting is_candidate lookup insert
    resolve read_pin stack_pin_key parse_step conflict_step validate_step translate_step
    resolve_placements record_step next_free_revision free_from record_deploy ensure_step apply_step
    set_revision_rendered_hash record_stack_error find_stack has_revision
restored_from = refl

move_passes : moved.0 ≡ ok tt
unfolding move_with_options Deploy.deploy setting_default set_setting is_candidate lookup insert
    resolve read_pin stack_pin_key parse_step conflict_step validate_step translate_step
    resolve_placements record_step next_free_revision free_from record_deploy ensure_step apply_step
    set_revision_rendered_hash record_stack_error find_stack has_revision
move_passes = refl

move_result : moved ≡ (ok tt, moved.1)
move_result = ap (λ (r : Result (Unit {0})). (r, moved.1)) move_passes

move_pinned_example :
    (resolve_placement (some (daemon_pins ("n1" ∷ []))) moved.1.db "shop" shop_ir
      ≡ ok (record shop_ir { services = map (on_target "n2") shop_ir.services }))
    × (find "shop" moved.1.markers ≡ marker_after outside.clear_fails (find "shop" before.markers))
move_pinned_example =
    move_pinned outside "shop" "n2" ("n1" ∷ "n2" ∷ []) refl refl true before moved.1 ("n1" ∷ [])
      shop_ir refl move_result

-- No object is of this node.
refused :
    newest_archive_object true (ok objects) "id3"
    ≡ err (plain "move: no archive in the object store")
unfolding newest_archive_object is_candidate
refused = refl

markers_as_map_example :
    (find "shop" (set_stack_failover marker [])
      ≡ (if "shop" == "shop" then some marker else find "shop" []))
    × (find "shop" (ack_stack_failover "shop" []).1
        ≡ (if "shop" == "shop" then acked_of (find "shop" []) else find "shop" []))
    × (find "shop" (clear_stack_failover "shop" []).1
        ≡ (if "shop" == "shop" then none else find "shop" []))
    × ((ack_stack_failover "shop" []).0 ≡ found_error (find "shop" []))
    × ((clear_stack_failover "shop" []).0 ≡ found_error (find "shop" []))
markers_as_map_example = markers_as_map marker "shop" "shop" []

shop_holds : holds_volume shop_ir.services ≡ true
unfolding holds_volume
shop_holds = refl

up : is_healthy (("n1", false) ∷ ("n2", true) ∷ []) "n2" ≡ true
unfolding lookup
up = refl

move_resumes_example :
    storage_paused true
      (("n1", false) ∷ ("n2", true) ∷ [])
      (storage_pins (some (daemon_pins ("n1" ∷ []))) moved.1.db "shop" shop_ir)
    ≡ none
move_resumes_example =
    move_resumes outside "shop" "n2" ("n1" ∷ "n2" ∷ []) ("n1" ∷ []) true before moved.1 shop_ir
      (("n1", false) ∷ ("n2", true) ∷ []) refl refl refl move_result refl (refl, tt) shop_holds up
