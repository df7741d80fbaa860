-- ===== src/Webhooks/Retry/Budget.antt =====
-- The time budget of the deploy phase covers the phase, whatever the retries.
use poor_man_cluster.Common.{ℕ, zero, suc, ◌+◌, ◌*◌, ◌≤◌, ◌<◌, ◌^◌, ◌≡◌, arith}
use poor_man_cluster.Common.Int.{ℤ, pos, at_least_zero, wrap_int64_small}
use poor_man_cluster.Webhooks.Retry.{Env, deploy_attempt_budget, deploy_phase_budget, retry_deploy}
use poor_man_cluster.Webhooks.Retry.FirstStop.{retry_deploy-Answers}

-- How long a phase with `k` retries lasts, when attempt `j` lasts `time j` and every wait `delay`.
abbrev pub phase_time : (ℕ → ℕ) → ℕ → ℕ → ℕ
phase_time time delay zero = time 0
phase_time time delay (suc k) = phase_time time delay k + delay + time (suc k)

phase_time-le :
    (time : ℕ → ℕ) (delay k : ℕ)
    → ((j : ℕ) → time j ≤ deploy_attempt_budget)
    → phase_time time delay k ≤ (k + 1) * deploy_attempt_budget + k * delay
phase_time-le time delay zero h = omega (arith, h 0)
phase_time-le time delay (suc k) h = grind (arith, h (suc k), phase_time-le time delay k h)

mono : (k n d : ℕ) → k ≤ n → k * d ≤ n * d
mono k n d h = grind arith

module _ {ℓ} {R : Type ℓ} (env : Env R) (attempts delay : ℤ) where
  -- If every attempt keeps to its own budget, and the budget of the phase does not overflow an
  -- `int64`, the attempts that `retryDeploy` made and the waits between them fit in it.
  pub retry_deploy_in_budget :
      (time : ℕ → ℕ)
      → ((j : ℕ) → time j ≤ deploy_attempt_budget)
      → (at_least_zero attempts + 1) * deploy_attempt_budget
          + at_least_zero attempts * at_least_zero delay
        < 2 ^ 63
      → (b : ℕ) × (deploy_phase_budget attempts delay ≡ pos b)
        × (phase_time time (at_least_zero delay) (retry_deploy env attempts delay).retries ≤ b)
  unfolding deploy_phase_budget
  retry_deploy_in_budget time h small =
      let k = (retry_deploy env attempts delay).retries in
      let n = at_least_zero attempts in
      let d = at_least_zero delay in
      let w : k ≤ n = (retry_deploy-Answers env delay attempts).first.within in
      (
        _,
        wrap_int64_small _ small,
        omega (arith, phase_time-le time d k h, mono k n deploy_attempt_budget w, mono k n d w),
      )
