-- ===== src/Reconcile/Snapshot.antt =====
-- `snapshotHealth`: a status row for every stack of the store, and none for any other.
-- `services` is what `Services.List` answers for a stack, and `set_fails` and `delete_fails` say for
-- which stacks the write and the delete of a row fail, which is only logged; the clock stands still
-- during a pass.
pub mod Coverage
use poor_man_cluster.Common.{
  ℕ, String, ◌==◌, Bool, true, false, not, ◌&&◌, ◌||◌, List, [], ◌∷◌, if◌then◌else◌, Map, insert,
  Option,
}
use poor_man_cluster.Common.Errors.{Error, Result, ok, err}
use poor_man_cluster.Store.Stacks.{Stack, has_stack}
use poor_man_cluster.Store.StackStatus.{
  Status, unknown, StackStatus, set_stack_status, delete_stack_status,
}
use poor_man_cluster.Reconcile.Status.{ServiceSummary, service_status, stack_status}

-- The map `svcStatus`.
pub service_statuses : Map Status → List ServiceSummary → Map Status
unfolding insert
service_statuses m [] = m
service_statuses m (s ∷ ss) = service_statuses (insert s.name (service_status s) m) ss

-- The row that is written for a stack: `unknown` if its services cannot be listed.
unfoldable pub status_row : ℕ → Stack → Result (List ServiceSummary) → StackStatus
unfolding service_statuses
status_row now st (err e) = record {
  stack_name = st.name;
  status = unknown;
  services = [];
  updated_at = now;
}
status_row now st (ok svcs) = record {
  stack_name = st.name;
  status = stack_status st svcs;
  services = service_statuses [] svcs;
  updated_at = now;
}

module _ (now : ℕ) (services : String → Result (List ServiceSummary))
    (set_fails : String → Bool) where
  -- The loop over the stacks.
  unfoldable pub write_rows : List Stack → List StackStatus → List StackStatus
  unfolding set_stack_status
  write_rows [] rows = rows
  write_rows (st ∷ sts) rows = write_rows sts (
      if set_fails st.name
      then rows
      else set_stack_status (status_row now st (services st.name)) rows)

-- The loop that prunes: `listed` is what `ListStackStatuses` gave, and `stacks` are those seen.
pub prune_rows :
    (String → Bool) → List Stack → List StackStatus → List StackStatus → List StackStatus
unfolding delete_stack_status has_stack
prune_rows delete_fails stacks [] rows = rows
prune_rows delete_fails stacks (r ∷ listed) rows = prune_rows delete_fails stacks listed (
    if not (has_stack r.stack_name stacks) && not (delete_fails r.stack_name)
    then (delete_stack_status r.stack_name rows).1
    else rows)

-- `snapshotHealth`, once the stacks are listed.
unfoldable pub snapshot_health :
    ℕ
    → (String → Result (List ServiceSummary))
    → (String → Bool)
    → (String → Bool)
    → List Stack
    → List StackStatus
    → List StackStatus
unfolding write_rows prune_rows
snapshot_health now services set_fails delete_fails stacks rows =
    let written = write_rows now services set_fails stacks rows in
    prune_rows delete_fails stacks written written
