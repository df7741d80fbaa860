-- ===== src/Stacks/Deploy/Pins.antt =====
-- A deploy of a stack that has a pin leaves the pins as they are.
use poor_man_cluster.Common.{String, ◌==◌, ◌≡◌, refl, false, some, List, arith, Bool}
use poor_man_cluster.Manifest.Ir.{Ir}
use poor_man_cluster.Stacks.Placement.{resolve_placements}
use poor_man_cluster.Stacks.Placement.Wiring.{Db, read_pin, daemon_pins}
use poor_man_cluster.Stacks.Placement.Sticky.{pin_in}
use poor_man_cluster.Store.Stacks.{Tables}
use poor_man_cluster.Stacks.Deploy.{Payload, Outside, deploy}
use poor_man_cluster.Stacks.Deploy.Steps.{Kept}
use poor_man_cluster.Stacks.Deploy.Keeps.{deploy-keeps}

-- A stack that has a pin is placed by it, and nothing is written.
resolve_placements-pinned :
    (nodes : List String) (db : Db) (name : String) (ir : Ir)
    → (pin_in db name == "") ≡ false
    → (resolve_placements (some (daemon_pins nodes)) db name ir).1 ≡ db
unfolding resolve_placements read_pin
resolve_placements-pinned nodes db name ir h = ground (arith)

any_tables : (N : String → Type 0) → Kept N (λ (t : Tables). Unit)
any_tables N = record {
  by_record = λ rev repo_url now t t' n e u. tt;
  by_stamp = λ name number hash t t' n e u. tt;
  by_error = λ name number message now t t' n e u. tt;
}

-- A deploy under the name of a stack that has a pin leaves the pins as they are.
pub deploy-pins :
    {Body : Type 0} (o : Outside Body Db) (p : Payload) (nodes : List String) (db : Db)
    (async : Bool) (t : Tables)
    → o.pins ≡ some (daemon_pins nodes)
    → (pin_in db p.app_name == "") ≡ false
    → (p.app_name == "") ≡ false
    → (deploy o p async t db).1.pins ≡ db
deploy-pins o p nodes db async t wired stands named =
    (deploy-keeps o p (λ (name : String). name ≡ p.app_name) (λ (x : Tables). Unit)
      (any_tables (λ (name : String). name ≡ p.app_name)) (λ a e. rw named refl)
      (λ (pins : Db). pins ≡ db)
      (λ name pins ir n e.
        rw (wired, e, n) (resolve_placements-pinned nodes db p.app_name ir stands))
      async t db tt refl).1
