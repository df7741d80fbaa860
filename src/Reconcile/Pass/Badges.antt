-- ===== src/Reconcile/Pass/Badges.antt =====
-- What the badges read after a pass.
use poor_man_cluster.Common.{
  ℕ, ◌/◌, String, ◌==◌, eq_refl, ◌≡◌, refl, ◌∙◌, true, false, none, some, List, [], ◌∷◌, arith,
  take,
}
use poor_man_cluster.Common.Errors.{ok}
use poor_man_cluster.Store.Stacks.{
  Stack, StackErrorEntry, history, Tables, find_stack, update_stack, parse_stack_errors,
  record_stack_error,
}
use poor_man_cluster.Store.Stacks.Invariant.{DistinctStacks}
use poor_man_cluster.Store.Stacks.ErrorHistory.{
  entry_of, find_stack-update_stack, find_stack-has_stack,
}
use poor_man_cluster.Store.StackStatus.{StackStatus, error, find_status, set_stack_status}
use poor_man_cluster.Reconcile.Status.{ServiceSummary, has_current_error, stack_status}
use poor_man_cluster.Reconcile.SyncErrors.{
  Db, Repeat, Failure, changed, second, handle_sync_error, write_failure,
}
use poor_man_cluster.Reconcile.Snapshot.Coverage.{row_after, find_status-snapshot_health}
use poor_man_cluster.Reconcile.Failover.{node_health}
use poor_man_cluster.Reconcile.Pass.{Outside, World, converge, snapshot, run_pass}

-- The stacks that a pass leaves in the store.
abbrev pub stacks_after : Outside → World → List Stack
stacks_after o w = (converge o (node_health o.nodes) w.db.tables.stacks w).1.db.tables.stacks

-- The statuses that the syncs of a pass leave.
abbrev pub statuses_before_snapshot : Outside → World → List StackStatus
statuses_before_snapshot o w = (converge o (node_health o.nodes) w.db.tables.stacks w).1.db.statuses

-- A pass whose reads of the tables do not fail, and behind which the stacks have distinct names,
-- leaves in `stack_status` a fresh row for each stack that is then in the store, unless the write of
-- this row fails, and no row for any other name, unless the delete of it fails; a name whose write
-- or delete fails has the row that the syncs have left it. So it is whatever the platform update and
-- the syncs came to.
pub run_pass_badges :
    (o : Outside) (w : World) (n : String)
    → o.list_fails ≡ none
    → o.relist_fails ≡ none
    → o.statuses_fail ≡ none
    → DistinctStacks (stacks_after o w)
    → find_status n (run_pass o w).2.db.statuses
      ≡ row_after o.now o.services o.status_write_fails o.status_delete_fails n
          (find_stack n (stacks_after o w))
          (find_status n (statuses_before_snapshot o w))
unfolding run_pass snapshot
run_pass_badges o w n h k g d =
    let after = (converge o (node_health o.nodes) w.db.tables.stacks w).1 in
    rw (h, k, g)
      (find_status-snapshot_health o.now o.services o.status_write_fails o.status_delete_fails
        after.db.tables.stacks after.db.statuses n d)

record_stack_error-found :
    (name : String) (number : ℕ) (message : String) (now : ℕ) (t : Tables) {s : Stack}
    → (message == "") ≡ false
    → find_stack name t.stacks ≡ some s
    → record_stack_error name number message now t
      ≡ ok (record t {
        stacks =
            update_stack name
              (λ (r : Stack). record r {
                last_error =
                    history
                      (take 20 (entry_of number message now ∷ parse_stack_errors s.last_error));
                updated_at = now;
              })
              t.stacks;
      })
unfolding record_stack_error
record_stack_error-found name number message now t {s} h there =
    ground (arith, find_stack-has_stack name t.stacks s)

has_current_error-history :
    (s : Stack) (number : ℕ) (message : String) (now : ℕ) (old : List StackErrorEntry)
    → (message == "") ≡ false
    → s.current_revision ≡ number
    → has_current_error s.current_revision
        (parse_stack_errors (history (take 20 (entry_of number message now ∷ old))))
      ≡ true
unfolding has_current_error parse_stack_errors
has_current_error-history s number message now old h e = ground arith

stack_status-error :
    (s : Stack) (services : List ServiceSummary)
    → has_current_error s.current_revision (parse_stack_errors s.last_error) ≡ true
    → stack_status s services ≡ error
unfolding stack_status
stack_status-error s [] h = rw h refl
stack_status-error s (svc ∷ services) h = rw h refl

-- A sync failure with a message that is new for a stack of the store, on the stack's current
-- revision, leaves the stack in a state whose badge is `error` whatever its services do.
pub failed_sync_badge :
    (f : Failure) (r : Repeat) (db : Db) (services : List ServiceSummary) {s : Stack}
    → changed f.stack_name f.message r.last ≡ true
    → (f.message == "") ≡ false
    → find_stack f.stack_name db.tables.stacks ≡ some s
    → s.current_revision ≡ f.revision
    → (db' : Db) × ((s' : Stack) × ((handle_sync_error f r (some db)).2 ≡ some db')
        × (find_stack f.stack_name db'.tables.stacks ≡ some s')
        × (stack_status s' services ≡ error))
unfolding handle_sync_error write_failure
failed_sync_badge f r db services {s} h k there e =
    let now = f.now / second in
    let entries = take 20 (entry_of f.revision f.message now ∷ parse_stack_errors s.last_error) in
    let mark = λ (r : Stack). record r { last_error = history entries; updated_at = now } in
    let t : Tables = record db.tables {
      stacks = update_stack f.stack_name mark db.tables.stacks;
    } in
    let written =
      record_stack_error-found f.stack_name f.revision f.message now db.tables k there in
    (
      record {
        tables = t;
        statuses =
            set_stack_status
              (record {
                stack_name = f.stack_name;
                status = error;
                services = [];
                updated_at = now;
              })
              db.statuses;
      },
      (
        mark s,
        rw (h, written) refl,
        find_stack-update_stack f.stack_name f.stack_name mark db.tables.stacks (λ r. refl)
            ∙ rw (there, eq_refl) refl,
        stack_status-error (mark s) services (
            has_current_error-history s f.revision f.message now (parse_stack_errors s.last_error) k
              e),
      ),
    )
