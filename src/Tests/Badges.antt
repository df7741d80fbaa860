-- ===== src/Tests/Badges.antt =====
-- The badges, and a whole pass.
use poor_man_cluster.Common.{
  ◌*◌, ◌≡◌, refl, String, ◌==◌, true, false, if◌then◌else◌, none, some, List, [], ◌∷◌, lookup,
}
use poor_man_cluster.Common.Errors.{plain, Result, ok, err}
use poor_man_cluster.Store.Stacks.{Stack, find_stack, has_stack, record_stack_error}
use poor_man_cluster.Store.Stacks.Invariant.{DistinctStacks}
use poor_man_cluster.Store.StackStatus.{StackStatus, find_status, error, healthy}
use poor_man_cluster.Reconcile.Status.{ServiceSummary, stack_status}
use poor_man_cluster.Reconcile.SyncErrors.{Db, Repeat, Failure, second, handle_sync_error, changed}
use poor_man_cluster.Reconcile.Failover.{node_health, storage_paused}
use poor_man_cluster.Reconcile.Pass.{Outside, World, converge, sync_stack, run_pass}
use poor_man_cluster.Reconcile.Snapshot.Coverage.{row_after}
use poor_man_cluster.Reconcile.Pass.Badges.{
  stacks_after, statuses_before_snapshot, run_pass_badges, failed_sync_badge,
}
use poor_man_cluster.Tests.{shop, tables}

abbrev web : ServiceSummary
web = record { name = "shop_web"; replicas = 1; desired = 2; run_once = false; update_state = "" }

abbrev services : String → Result (List ServiceSummary)
services name = if name == "shop" then ok (web ∷ []) else err (plain "no such stack")

-- A row of a stack that is gone.
abbrev old_row : StackStatus
old_row = record { stack_name = "blog"; status = healthy; services = []; updated_at = 1 }

distinct : DistinctStacks (shop ∷ [])
unfolding has_stack
distinct = (refl, tt)

found_shop : find_stack "shop" (shop ∷ []) ≡ some shop
unfolding find_stack
found_shop = refl

abbrev failure : Failure
failure = record {
  stack_name = "shop";
  revision = 7;
  message = "bad manifest";
  now = 1000 * second;
}

abbrev quiet : Repeat
quiet = record { last = []; last_warn = [] }

abbrev db : Db
db = record { tables = tables; statuses = [] }

is_new : changed "shop" "bad manifest" quiet.last ≡ true
unfolding lookup
is_new = refl

failed_sync_badge_example :
    (db' : Db) × ((s' : Stack) × ((handle_sync_error failure quiet (some db)).2 ≡ some db')
      × (find_stack "shop" db'.tables.stacks ≡ some s')
      × (stack_status s' (web ∷ []) ≡ error))
failed_sync_badge_example =
    failed_sync_badge failure quiet db (web ∷ []) {s = shop} is_new refl found_shop refl

-- A pass in which the platform update fails, and the sync of the stack as well.
abbrev outside : Outside
outside = record {
  now = 1000 * second;
  text = λ e. "bad manifest";
  update = some (some (plain "render failed"));
  list_fails = none;
  relist_fails = none;
  statuses_fail = none;
  status_write_fails = λ name. false;
  status_delete_fails = λ name. false;
  nodes = none;
  pins = λ name. ok [];
  sync = λ name before. (some (plain "bad manifest"), before);
  services = services;
  failover_enabled = false;
  storage_nodes = "";
}

abbrev world : World
world = record { db = db; sync_errors = quiet; pauses = quiet; last_failover = [] }

still_distinct : DistinctStacks (stacks_after outside world)
unfolding converge sync_stack node_health storage_paused handle_sync_error lookup has_stack
    record_stack_error
still_distinct = (refl, tt)

run_pass_badges_example :
    find_status "shop" (run_pass outside world).2.db.statuses
    ≡ row_after outside.now services outside.status_write_fails outside.status_delete_fails "shop"
        (find_stack "shop" (stacks_after outside world))
        (find_status "shop" (statuses_before_snapshot outside world))
run_pass_badges_example = run_pass_badges outside world "shop" refl refl refl still_distinct
