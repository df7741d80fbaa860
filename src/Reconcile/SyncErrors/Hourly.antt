-- ===== src/Reconcile/SyncErrors/Hourly.antt =====
-- The warnings that a failure goes on stand at least an hour apart.
use poor_man_cluster.Common.{ℕ, String, ◌≡◌, Bool, true, false, List, arith, lookup, insert}
use poor_man_cluster.Reconcile.RateLimit.{Limiter, Spaced, Spaced-times, due}
use poor_man_cluster.Reconcile.SyncErrors.{
  Action, heartbeat, Failure, Repeat, sync_error_heartbeat, storage_pause_heartbeat,
  sync_error_action, sync_error_next, log_storage_paused,
}

abbrev pub is_heartbeat : Action → Bool
is_heartbeat heartbeat = true
is_heartbeat _ = false

pub sync_idle :
    (r : Repeat) (f : Failure)
    → is_heartbeat (sync_error_action f r) ≡ false
    → (sync_error_next f r).last_warn ≡ r.last_warn
unfolding sync_error_action sync_error_next
sync_idle r f h = ground arith

pub sync_goes :
    (r : Repeat) (f : Failure)
    → is_heartbeat (sync_error_action f r) ≡ true
    → (due sync_error_heartbeat f.stack_name f.now r.last_warn ≡ true)
      × ((sync_error_next f r).last_warn ≡ insert f.stack_name f.now r.last_warn)
unfolding sync_error_action sync_error_next
sync_goes r f h = ground arith

abbrev pub sync_heartbeats : Limiter Repeat Failure
sync_heartbeats = record {
  interval = sync_error_heartbeat;
  positive = omega arith;
  go = λ r f. is_heartbeat (sync_error_action f r);
  next = λ r f. sync_error_next f r;
  times = λ r. r.last_warn;
  key = λ f. f.stack_name;
  now = λ f. f.now;
  idle = sync_idle;
  goes = sync_goes;
}

-- Over any failures of any stacks, the heartbeat warnings of one stack stand at least an hour apart.
pub sync_heartbeats_hourly :
    (name : String) (r : Repeat) (fs : List Failure)
    → Spaced sync_heartbeats name (lookup name r.last_warn) r fs
sync_heartbeats_hourly name r fs = Spaced-times sync_heartbeats name r fs

-- One call of `log_storage_paused`, as an event.
pub record Pause : Type 0 where
  pub stack_name : String
  pub node : String
  pub now : ℕ

abbrev pub paused_next : Repeat → Pause → Action × Repeat
paused_next r p = log_storage_paused p.stack_name p.node p.now r

pub pause_idle :
    (r : Repeat) (p : Pause)
    → is_heartbeat (paused_next r p).0 ≡ false
    → (paused_next r p).1.last_warn ≡ r.last_warn
unfolding log_storage_paused
pause_idle r p h = ground arith

pub pause_goes :
    (r : Repeat) (p : Pause)
    → is_heartbeat (paused_next r p).0 ≡ true
    → (due storage_pause_heartbeat p.stack_name p.now r.last_warn ≡ true)
      × ((paused_next r p).1.last_warn ≡ insert p.stack_name p.now r.last_warn)
unfolding log_storage_paused
pause_goes r p h = ground arith

abbrev pub pause_heartbeats : Limiter Repeat Pause
pause_heartbeats = record {
  interval = storage_pause_heartbeat;
  positive = omega arith;
  go = λ r p. is_heartbeat (paused_next r p).0;
  next = λ r p. (paused_next r p).1;
  times = λ r. r.last_warn;
  key = λ p. p.stack_name;
  now = λ p. p.now;
  idle = pause_idle;
  goes = pause_goes;
}

-- Over any calls for any stacks, the heartbeat warnings that the storage of one stack is still down
-- stand at least an hour apart.
pub pause_heartbeats_hourly :
    (name : String) (r : Repeat) (ps : List Pause)
    → Spaced pause_heartbeats name (lookup name r.last_warn) r ps
pause_heartbeats_hourly name r ps = Spaced-times pause_heartbeats name r ps
