-- ===== src/Webhooks/Retry.antt =====
-- internal/webhooks/retry.go: the bounded retry of a webhook's deploy.
-- The inner deployer, the request's context and the timer answer from outside. `Env` holds their
-- answers by the number of the attempt: one call of the deployer, and at most one wait, for each.
pub mod FirstStop
pub mod Budget
use poor_man_cluster.Common.{
  ℕ, zero, suc, ◌+◌, ◌*◌, String, ◌==◌, Bool, true, false, not, ◌||◌, Option, none, some, List, [],
  ◌∷◌, if◌then◌else◌, contains,
}
use poor_man_cluster.Common.Errors.{Error, plain, step_error, wrapped}
use poor_man_cluster.Common.Int.{
  ℤ, pos, negsuc, at_least_zero, is_zero, is_at_most_zero, wrap_int64,
}

-- What one call of the deployer returns.
pub record Attempt {ℓ} (R : Type ℓ) : Type ℓ where
  pub result : Option R
  pub error : Option Error

pub record Env {ℓ} (R : Type ℓ) : Type ℓ where
  pub deploy : ℕ → Attempt R
  pub ctx_done : ℕ → Bool
  pub timer_first : ℕ → Bool

-- What the retry loop returns: the last attempt, and how many retries it took.
pub record Retried {ℓ} (R : Type ℓ) : Type ℓ where
  pub attempt : Attempt R
  pub retries : ℕ

-- Durations are in nanoseconds.
abbrev pub second : ℕ
second = 1_000_000_000

abbrev pub default_deploy_retries : ℤ
default_deploy_retries = pos 2

abbrev pub default_deploy_retry_delay : ℤ
default_deploy_retry_delay = pos (30 * second)

abbrev pub deploy_attempt_budget : ℕ
deploy_attempt_budget = 60 * second

-- `deployPhaseBudget`: the product and the sum wrap as `int64` does.
unfoldable pub deploy_phase_budget : ℤ → ℤ → ℤ
deploy_phase_budget attempts delay =
    let n = at_least_zero attempts in
    wrap_int64 ((n + 1) * deploy_attempt_budget + n * at_least_zero delay)

abbrev pub deterministic_steps : List String
deterministic_steps =
    "Parsing manifest (DSL)" ∷ "Checking for app name conflicts"
    ∷ "Interpolating and validating manifest" ∷ "Translating to Compose (resolving configs/secrets)"
    ∷ "Recording revision" ∷ []

-- `errors.As(err, &se)`: the outermost step error of the chain.
pub as_step_error : Error → Option String
as_step_error (plain m) = none
as_step_error (step_error name e) = some name
as_step_error (wrapped m e) = as_step_error e

abbrev deterministic_step : Option String → Option String
deterministic_step none = none
deterministic_step (some name) = if contains deterministic_steps name then some name else none

unfoldable pub deterministic : Error → Option String
unfolding as_step_error
deterministic e = deterministic_step (as_step_error e)

-- `waitBeforeRetry` at the wait after attempt `k`.
unfoldable pub wait_before_retry {ℓ} : {R : Type ℓ} → Env R → ℤ → ℕ → Bool
wait_before_retry env delay k =
    if env.ctx_done k then false else if is_at_most_zero delay then true else env.timer_first k

abbrev pub is_nil : Option Error → Bool
is_nil none = true
is_nil (some e) = false

abbrev pub is_deterministic : Option Error → Bool
is_deterministic none = false
is_deterministic (some e) = elim (deterministic e) [ none ↦ false | some name ↦ true ]

module _ {ℓ} {R : Type ℓ} (env : Env R) (delay : ℤ) where
  -- The loop of `retryDeploy`, by the attempts left; `k` is its variable `retries`.
  pub retry_from : ℕ → ℕ → Retried R
  retry_from zero k = record { attempt = env.deploy k; retries = k }
  retry_from (suc left) k =
      let rest = retry_from left (suc k) in
      if is_nil (env.deploy k).error
      then record { attempt = env.deploy k; retries = k }
      else if not (wait_before_retry env delay k)
      then record { attempt = env.deploy k; retries = k }
      else rest

  -- The loop of `retryDeployAsync`: a deterministic failure is final.
  pub retry_async_from : ℕ → ℕ → Retried R
  retry_async_from zero k = record { attempt = env.deploy k; retries = k }
  retry_async_from (suc left) k =
      let rest = retry_async_from left (suc k) in
      if is_nil (env.deploy k).error
      then record { attempt = env.deploy k; retries = k }
      else if is_deterministic (env.deploy k).error
      then record { attempt = env.deploy k; retries = k }
      else if not (wait_before_retry env delay k)
      then record { attempt = env.deploy k; retries = k }
      else rest

-- `retryDeploy`
unfoldable pub retry_deploy {ℓ} : {R : Type ℓ} → Env R → ℤ → ℤ → Retried R
unfolding retry_from
retry_deploy env attempts delay = retry_from env delay (at_least_zero attempts) 0

-- `retryDeployAsync`
unfoldable pub retry_deploy_async {ℓ} : {R : Type ℓ} → Env R → ℤ → ℤ → Retried R
unfolding retry_async_from
retry_deploy_async env attempts delay = retry_async_from env delay (at_least_zero attempts) 0

-- `RetryDeployer`, less its inner deployer.
pub record RetryDeployer : Type 0 where
  pub attempts : ℤ
  pub delay : ℤ

-- `Receiver.retryer`, from the fields `MaxRetries` and `RetryDelay`.
unfoldable pub retryer : ℤ → ℤ → RetryDeployer
retryer max_retries retry_delay = record {
  attempts = if is_zero max_retries then default_deploy_retries else max_retries;
  delay = if is_zero retry_delay then default_deploy_retry_delay else retry_delay;
}

-- `RetryDeployer.DeployWithRetries`
unfoldable pub deploy_with_retries {ℓ} : {R : Type ℓ} → RetryDeployer → Env R → Retried R
unfolding retry_deploy
deploy_with_retries r env = retry_deploy env r.attempts r.delay

-- `RetryDeployer.DeployAsyncWithRetries`
unfoldable pub deploy_async_with_retries {ℓ} : {R : Type ℓ} → RetryDeployer → Env R → Retried R
unfolding retry_deploy_async
deploy_async_with_retries r env = retry_deploy_async env r.attempts r.delay

-- `RetryDeployer.Deploy`, which drops the count.
unfoldable pub deploy {ℓ} : {R : Type ℓ} → RetryDeployer → Env R → Attempt R
unfolding deploy_with_retries
deploy r env = (deploy_with_retries r env).attempt
