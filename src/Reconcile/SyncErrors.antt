-- ===== src/Reconcile/SyncErrors.antt =====
-- `handleSyncError` and `logStoragePaused`: a failure that repeats every pass is reported when it
-- appears or changes, and otherwise at most once an hour.
pub mod Repeats
pub mod Hourly
use poor_man_cluster.Common.{
  ℕ, ◌*◌, ◌/◌, String, ◌==◌, Bool, true, false, not, ◌||◌, Option, none, some, List, [], ◌∷◌,
  if◌then◌else◌, Map, lookup, insert,
}
use poor_man_cluster.Common.Errors.{Error, Result, ok, err}
use poor_man_cluster.Store.Stacks.{Tables, record_stack_error}
use poor_man_cluster.Store.StackStatus.{StackStatus, Status, error, set_stack_status}
use poor_man_cluster.Reconcile.RateLimit.{due}

abbrev pub second : ℕ
second = 1_000_000_000

-- `syncErrorHeartbeat`
abbrev pub sync_error_heartbeat : ℕ
sync_error_heartbeat = 3600 * second

-- `storagePauseHeartbeat`
abbrev pub storage_pause_heartbeat : ℕ
storage_pause_heartbeat = 3600 * second

-- The part of the database that the loop writes.
pub record Db : Type 0 where
  pub tables : Tables
  pub statuses : List StackStatus

-- `lastSyncErrs` and `lastSyncWarn`, or `lastPauseNode` and `lastPauseWarn`.
pub record Repeat : Type 0 where
  pub last : Map String
  pub last_warn : Map ℕ

-- What a call logs: the failure, the hourly warning that it goes on, or nothing.
pub data Action : Type 0 where
  report heartbeat silent : Action

-- One call of `handleSyncError`; `now` is in nanoseconds.
pub record Failure : Type 0 where
  pub stack_name : String
  pub revision : ℕ
  pub message : String
  pub now : ℕ

-- `prev, seen := m[key]; changed := !seen || prev != value`
abbrev pub changed : String → String → Map String → Bool
changed key value m = elim (lookup key m) [ none ↦ true | some prev ↦ not (prev == value) ]

abbrev pub or_kept : Tables → Result Tables → Tables
or_kept t (ok t') = t'
or_kept t (err e) = t

-- The two writes of a report; an error of either is only logged, and a nil store takes none.
unfoldable pub write_failure : Failure → Option Db → Option Db
write_failure f none = none
write_failure f (some db) = some (record {
  tables =
      or_kept db.tables
        (record_stack_error f.stack_name f.revision f.message (f.now / second) db.tables);
  statuses =
      set_stack_status
        (record {
          stack_name = f.stack_name;
          status = error;
          services = [];
          updated_at = f.now / second;
        })
        db.statuses;
})

-- What `handleSyncError` logs.
unfoldable pub sync_error_action : Failure → Repeat → Action
unfolding lookup
sync_error_action f r =
    if changed f.stack_name f.message r.last
    then report
    else if due sync_error_heartbeat f.stack_name f.now r.last_warn
    then heartbeat
    else silent

-- The maps that it leaves.
unfoldable pub sync_error_next : Failure → Repeat → Repeat
unfolding lookup insert
sync_error_next f r =
    if changed f.stack_name f.message r.last
    then record r { last = insert f.stack_name f.message r.last }
    else if due sync_error_heartbeat f.stack_name f.now r.last_warn
    then record r { last_warn = insert f.stack_name f.now r.last_warn }
    else r

-- `handleSyncError`
unfoldable pub handle_sync_error : Failure → Repeat → Option Db → Action × Repeat × Option Db
unfolding sync_error_action sync_error_next write_failure
handle_sync_error f r db = (
  sync_error_action f r,
  sync_error_next f r,
  if changed f.stack_name f.message r.last then write_failure f db else db,
)

-- `logStoragePaused`, for a stack and the node that is down.
unfoldable pub log_storage_paused : String → String → ℕ → Repeat → Action × Repeat
unfolding lookup insert
log_storage_paused stack_name node now r =
    if changed stack_name node r.last
    then (report, record r { last = insert stack_name node r.last })
    else if due storage_pause_heartbeat stack_name now r.last_warn
    then (heartbeat, record r { last_warn = insert stack_name now r.last_warn })
    else (silent, r)
