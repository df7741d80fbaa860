-- ===== src/Stacks/Placement/Wiring.antt =====
-- The callbacks that internal/cli/serve.go gives the resolver: pins are rows of the settings table.
use poor_man_cluster.Common.{String, Bool, Option, none, some, List, Map}
use poor_man_cluster.Common.Errors.{Error, Result, ok, err}
use poor_man_cluster.Store.Settings.{setting_default, set_setting}
use poor_man_cluster.Stacks.Placement.{PinResolver}
use Prim.Native.String

-- The settings table, and whether the database fails to answer.
pub record Db : Type 0 where
  pub rows : Map String
  pub reads_fail : Bool
  pub writes_fail : Bool

-- `StackPinKey`
unfoldable pub stack_pin_key : String → String
stack_pin_key stack_name = String.◌++◌ "stack_pin_" stack_name

-- The closure behind `StackPin`: it returns no error.
unfoldable pub read_pin : Db → String → Result String
unfolding setting_default
read_pin db stack_name = ok (setting_default db.reads_fail db.rows (stack_pin_key stack_name) "")

abbrev written : Db → Result (Map String) → Option Error × Db
written db (ok rows) = (none, record db { rows = rows })
written db (err e) = (some e, db)

-- The closure behind `SetStackPin`.
unfoldable pub write_pin : Db → String → String → Option Error × Db
unfolding set_setting
write_pin db stack_name node =
    written db (set_setting db.writes_fail db.rows (stack_pin_key stack_name) node)

-- The resolver of the daemon.
abbrev pub daemon_pins : List String → PinResolver Db
daemon_pins nodes = record {
  storage_nodes = nodes;
  stack_pin = some read_pin;
  set_stack_pin = some write_pin;
}
