-- ===== src/Stacks/Ordered.antt =====
-- The ordered deploy of internal/stacks/deploy.go: `applyToSwarm`, `waitLevelHealthy`, `levelReady`,
-- `runOnceDone`. The Docker client, the deployer, the backup and the compose writer are parameters,
-- by what they answer; times are in nanoseconds.
pub mod Jobs
pub mod Waiting
pub mod Prune
pub mod Dependencies
use poor_man_cluster.Common.{
  ℕ, ◌+◌, ◌*◌, String, ◌==◌, Bool, true, false, not, ◌&&◌, ◌||◌, Option, none, some, List, [], ◌∷◌,
  ◌++◌, if◌then◌else◌, ltb, eqb, Map, lookup, insert,
}
use poor_man_cluster.Common.Errors.{Error, plain, wrapped, Result, ok, err, wrap, ◌>>=◌}
use Prim.Native.String.{compare, ◌++◌ as ◌+++◌}
use text.Mathlib.Text.{is_lt}

-- `runtime.ServiceTask`, as far as the deploy reads it.
pub record Task : Type 0 where
  pub task_id : String
  pub state : String
  pub started_at : ℕ

-- The states of a task that has not ended.
abbrev pub is_active : String → Bool
is_active s = s == "running" || s == "new" || s == "pending" || s == "starting"

unfoldable pub any_active : List Task → Bool
any_active [] = false
any_active (t ∷ ts) = is_active t.state || any_active ts

-- Whether a task is newer than the newest so far; a tie is broken by the task's id.
abbrev pub is_newer : Task → Task → Bool
is_newer t latest =
    ltb latest.started_at t.started_at
    || eqb t.started_at latest.started_at && is_lt (compare latest.task_id t.task_id)

unfoldable pub latest_from : Task → List Task → Task
latest_from latest [] = latest
latest_from latest (t ∷ ts) = latest_from (if is_newer t latest then t else latest) ts

-- The last `switch`: what the newest task says of the job.
abbrev pub verdict : String → String → Result Bool
verdict job s =
    if s == "complete"
    then ok true
    else if s == "failed" || s == "rejected"
    then err (plain ("run-once job " +++ job +++ " failed during ordered deploy"))
    else if s == "shutdown" || s == "removed"
    then err (plain ("run-once job " +++ job +++ " did not complete (task state " +++ s +++ ")"))
    else ok false

unfoldable pub tasks_done : String → List Task → Result Bool
unfolding any_active latest_from
tasks_done job [] = ok false
tasks_done job (t ∷ ts) =
    if any_active (t ∷ ts) then ok false else verdict job (latest_from t ts).state

-- `runOnceDone`, of what `ServiceTasks` answers.
unfoldable pub run_once_done : String → Result (List Task) → Result Bool
unfolding tasks_done
run_once_done job tasks =
    wrap ("list tasks for " +++ job +++ " (depends_on wait)") tasks >>= tasks_done job

-- `runtime.Service`, as far as the wait reads it.
pub record LiveService : Type 0 where
  pub name : String
  pub run_once : Bool
  pub desired : ℕ
  pub replicas : ℕ

-- The map `byName`: a later service of the same name overwrites.
unfoldable pub by_name : Map LiveService → List LiveService → Map LiveService
unfolding insert
by_name m [] = m
by_name m (s ∷ ss) = by_name (insert s.name s m) ss

-- The body of the loop for a service that is live.
abbrev service_ready : Result Bool → LiveService → Result Bool
service_ready job_done s =
    if s.run_once then job_done else ok (not (ltb 0 s.desired && ltb s.replicas s.desired))

abbrev and_then : Result Bool → Result Bool → Result Bool
and_then (ok true) rest = rest
and_then (ok false) rest = ok false
and_then (err e) rest = err e

module _ (stack_name : String) (tasks : String → Result (List Task)) where
  -- What the loop makes of one service of the level.
  unfoldable pub name_ready : Map LiveService → String → Result Bool
  unfolding lookup run_once_done
  name_ready m name =
      let full = stack_name +++ "_" +++ name in
      elim (lookup full m) [
        | none ↦ ok false
        | some s ↦ service_ready (run_once_done full (tasks full)) s
      ]

  unfoldable pub all_ready : Map LiveService → List String → Result Bool
  unfolding name_ready
  all_ready m [] = ok true
  all_ready m (name ∷ level) = and_then (name_ready m name) (all_ready m level)

  -- `levelReady`, of what `ServiceList` answers.
  unfoldable pub level_ready : Result (List LiveService) → List String → Result Bool
  unfolding by_name all_ready
  level_ready services level =
      wrap "list services (depends_on wait)" services >>= (λ ss. all_ready (by_name [] ss) level)

abbrev pub deploy_wait_timeout : ℕ
deploy_wait_timeout = 120 * 1_000_000_000

-- A round of the loop of `waitLevelHealthy`: what `levelReady` answers, the time at the check of the
-- deadline, and the context's error if it is done before the next tick.
pub record Poll : Type 0 where
  pub ready : Result Bool
  pub now : ℕ
  pub cancelled : Option Error

-- What ends the loop in a round, if anything does.
abbrev ends : ℕ → Poll → Option (Option Error)
ends deadline p = elim p.ready [
  | err e ↦ some (some e)
  | ok ready ↦
      if ready
      then some none
      else if ltb deadline p.now
      then some (some (plain "timed out waiting for depends_on level to become ready"))
      else elim p.cancelled [ none ↦ none | some e ↦ some (some e) ]
]

-- The loop of `waitLevelHealthy`: `none` if it still waits behind the rounds given.
unfoldable pub wait_from : ℕ → List Poll → Option (Option Error)
wait_from deadline [] = none
wait_from deadline (p ∷ ps) =
    let rest = wait_from deadline ps in
    elim (ends deadline p) [ none ↦ rest | some answer ↦ some answer ]

-- `waitLevelHealthy`: the error if any, once it returns. A nil client skips the wait.
unfoldable pub wait_level_healthy : Bool → ℕ → List Poll → Option (Option Error)
unfolding wait_from
wait_level_healthy has_docker start polls =
    if has_docker then wait_from (start + deploy_wait_timeout) polls else some none

-- The calls of the deployer.
pub data Call : Type 0 where
  deploy_stack : String → Call
  deploy_stack_no_prune : String → Call
  prune_stack : String → Call
  prune_stale_containers : Call

-- The calls made, in their order, and the error if any.
abbrev pub Applied : Type 0
Applied = List Call × Option Error

abbrev then_call : Call → Option Error → Applied → Applied
then_call c none rest = (c ∷ rest.0, rest.1)
then_call c (some e) rest = (c ∷ [], some e)

-- What `applyToSwarm` uses: `write` renders the subset of a level, `wait` is `waitLevelHealthy`.
pub record Deployer : Type 0 where
  pub answer : Call → Option Error
  pub write : List String → Result String
  pub wait : List String → Option Error

module _ (d : Deployer) where
  -- `PruneStaleContainers`, whose error is dropped.
  abbrev pub finish : Applied
  finish = (prune_stale_containers ∷ [], none)

  abbrev pruned : String → Applied
  pruned rendered = then_call (prune_stack rendered) (d.answer (prune_stack rendered)) finish

  abbrev waited : List String → Applied → Applied
  waited level rest = elim (d.wait level) [ none ↦ rest | some e ↦ ([], some e) ]

  abbrev deployed : List String → Result String → Applied → Applied
  deployed level (err e) rest = ([], some (wrapped "render depends_on level" e))
  deployed level (ok yaml) rest =
      then_call (deploy_stack_no_prune yaml)
        (elim (d.answer (deploy_stack_no_prune yaml)) [
          | none ↦ none
          | some e ↦ some (wrapped "docker stack deploy" e)
        ])
        (waited level rest)

  -- The loop over the levels, and the prune behind it.
  unfoldable pub apply_levels : String → List (List String) → Applied
  apply_levels rendered [] = pruned rendered
  apply_levels rendered (level ∷ levels) =
      deployed level (d.write level) (apply_levels rendered levels)

  -- The full deploy of a single level.
  unfoldable pub apply_single : String → Applied
  apply_single rendered =
      then_call (deploy_stack rendered)
        (elim (d.answer (deploy_stack rendered)) [
          | none ↦ none
          | some e ↦ some (wrapped "docker stack deploy" e)
        ])
        finish

-- The options of the manifest, and what the backup before the deploy answers.
pub record Backup : Type 0 where
  pub before_deploy : Bool
  pub strict : Bool
  pub failure : Option Error

-- The error with which the backup stops the deploy, if it does.
abbrev pub backup_stops : Backup → Option Error
backup_stops b =
    if b.before_deploy && b.strict
    then elim b.failure [ none ↦ none | some e ↦ some (wrapped "pre-deploy backup failed" e) ]
    else none

abbrev by_levels : Deployer → String → Option Error → List (List String) → Option Applied
by_levels d rendered prepared [] = none
by_levels d rendered prepared (level ∷ []) = some (apply_single d rendered)
by_levels d rendered prepared (level ∷ next ∷ levels) = some (elim prepared [
  | none ↦ apply_levels d rendered (level ∷ next ∷ levels)
  | some e ↦ ([], some e)
])

-- `applyToSwarm`, of the levels of `ServiceLevels`, and of the error if any with which the config
-- objects or the render for the hash fail. `none` is the panic of `levels[0]` on no level at all.
unfoldable pub apply_to_swarm :
    Deployer → Backup → Result (List (List String)) → Option Error → String → Option Applied
unfolding apply_levels apply_single
apply_to_swarm d b levels prepared rendered = elim (backup_stops b) [
  | some e ↦ some ([], some e)
  | none ↦ elim levels [ err e ↦ some ([], some e) | ok ls ↦ by_levels d rendered prepared ls ]
]
