-- ===== src/Reconcile/Status.antt =====
-- The status of a service, and of a stack: `ServiceStatus`, `StackStatus`, `rank`.
pub mod Worst
use poor_man_cluster.Common.{
  ℕ, String, ◌==◌, Bool, true, false, not, ◌&&◌, ◌||◌, List, [], ◌∷◌, if◌then◌else◌, ltb, eqb,
}
use poor_man_cluster.Store.StackStatus.{Status, healthy, in_progress, degraded, error, unknown}
use poor_man_cluster.Store.Stacks.{Stack, StackErrorEntry, parse_stack_errors}

-- `services.ServiceSummary`, as far as the status depends on it.
pub record ServiceSummary : Type 0 where
  pub name : String
  pub replicas : ℕ
  pub desired : ℕ
  pub run_once : Bool
  pub update_state : String

-- `completedRunOnce`
abbrev pub completed_run_once : ServiceSummary → Bool
completed_run_once s = s.run_once && (ltb 0 s.desired && eqb s.replicas 0)

-- `ServiceStatus`
unfoldable pub service_status : ServiceSummary → Status
service_status s =
    if s.update_state == "updating"
    then in_progress
    else if s.update_state == "paused" && not (completed_run_once s)
    then error
    else if completed_run_once s
    then healthy
    else if ltb 0 s.desired && ltb s.replicas s.desired
    then degraded
    else healthy

-- `rank`
unfoldable pub rank : Status → ℕ
rank error = 4
rank degraded = 3
rank in_progress = 2
rank unknown = 1
rank healthy = 0

-- The first loop of `StackStatus`: an error outcome on the current revision.
unfoldable pub has_current_error : ℕ → List StackErrorEntry → Bool
has_current_error current [] = false
has_current_error current (e ∷ es) =
    not (e.error == "") && eqb e.revision current || has_current_error current es

-- Its second loop.
unfoldable pub worst_from : Status → List ServiceSummary → Status
unfolding service_status rank
worst_from worst [] = worst
worst_from worst (s ∷ ss) =
    worst_from (if ltb (rank worst) (rank (service_status s)) then service_status s else worst) ss

-- `StackStatus`
unfoldable pub stack_status : Stack → List ServiceSummary → Status
unfolding has_current_error parse_stack_errors worst_from
stack_status st [] =
    if has_current_error st.current_revision (parse_stack_errors st.last_error)
    then error
    else unknown
stack_status st (s ∷ ss) =
    if has_current_error st.current_revision (parse_stack_errors st.last_error)
    then error
    else worst_from healthy (s ∷ ss)
