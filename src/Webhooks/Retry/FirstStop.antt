-- ===== src/Webhooks/Retry/FirstStop.antt =====
-- The retry loops return the first attempt at which they have a reason to stop.
use poor_man_cluster.Common.{
  ℕ, zero, suc, ◌+◌, ◌≤◌, ◌<◌, ◌≡◌, refl, ◌⊎◌, inl, inr, Bool, true, false, not, ◌||◌, arith,
  Bool-cases,
}
use poor_man_cluster.Common.Int.{ℤ, at_least_zero}
use poor_man_cluster.Webhooks.Retry.{
  Env, Retried, is_nil, is_deterministic, wait_before_retry, retry_from, retry_async_from,
  retry_deploy, retry_deploy_async,
}

-- `k` is the first number from `i` on that passes the test, or `n` if none below does.
pub record FirstStop (stop : ℕ → Bool) (i n k : ℕ) : Type 0 where
  pub from : i ≤ k
  pub within : k ≤ n
  pub earlier : (j : ℕ) → i ≤ j → j < k → stop j ≡ false
  pub reason : (stop k ≡ true) ⊎ (k ≡ n)

module _ {stop : ℕ → Bool} where
  FirstStop-here : (i n : ℕ) → i ≤ n → (stop i ≡ true) ⊎ (i ≡ n) → FirstStop stop i n i
  FirstStop-here i n h r = record {
    from = omega arith;
    within = h;
    earlier = λ j p q. absurd (omega arith);
    reason = r;
  }

  FirstStop-later : (i n k : ℕ) → stop i ≡ false → FirstStop stop (suc i) n k → FirstStop stop i n k
  FirstStop-later i n k h r = record {
    from = omega (arith, r.from);
    within = r.within;
    earlier =
        λ j p q. elim (Bool-cases (stop j)) [ inl e ↦ r.earlier j (grind arith) q | inr e ↦ e ];
    reason = r.reason;
  }

module _ {ℓ} {R : Type ℓ} (env : Env R) (delay : ℤ) where
  -- Why `retryDeploy` stops at an attempt: it passed, or no wait is left to make.
  abbrev pub stops : ℕ → Bool
  stops k = is_nil (env.deploy k).error || not (wait_before_retry env delay k)

  -- `retryDeployAsync` has one more reason, a failure that no retry can change.
  abbrev pub stops_async : ℕ → Bool
  stops_async k =
      is_nil (env.deploy k).error
      || (is_deterministic (env.deploy k).error || not (wait_before_retry env delay k))

  -- The loop's answer: the attempt at which it stopped.
  pub record Answers (stop : ℕ → Bool) (i n : ℕ) (r : Retried R) : Type ℓ where
    pub first : FirstStop stop i n r.retries
    pub same : r.attempt ≡ env.deploy r.retries

  Answers-here :
      {stop : ℕ → Bool} (i n : ℕ)
      → i ≤ n
      → (stop i ≡ true) ⊎ (i ≡ n)
      → Answers stop i n (record { attempt = env.deploy i; retries = i })
  Answers-here i n h r = record { first = FirstStop-here i n h r; same = refl }

  Answers-later :
      {stop : ℕ → Bool} (i n : ℕ) {r : Retried R}
      → stop i ≡ false
      → Answers stop (suc i) n r
      → Answers stop i n r
  Answers-later i n {r} h a = record {
    first = FirstStop-later i n r.retries h a.first;
    same = a.same;
  }

  retry_from-Answers :
      (left k n : ℕ) → k + left ≡ n → Answers stops k n (retry_from env delay left k)
  unfolding retry_from
  retry_from-Answers zero k n h = Answers-here k n (omega arith) (inr (omega arith))
  retry_from-Answers (suc left) k n h = elim (Bool-cases (is_nil (env.deploy k).error)) [
    | inl e ↦ rw e (Answers-here k n (omega arith) (inl (rw e)))
    | inr e ↦ elim (Bool-cases (wait_before_retry env delay k)) [
      | inl w ↦
          rw (e, w)
            (Answers-later k n (rw (e, w)) (retry_from-Answers left (suc k) n (omega arith)))
      | inr w ↦ rw (e, w) (Answers-here k n (omega arith) (inl (rw (e, w))))
    ]
  ]

  retry_async_from-Answers :
      (left k n : ℕ) → k + left ≡ n → Answers stops_async k n (retry_async_from env delay left k)
  unfolding retry_async_from
  retry_async_from-Answers zero k n h = Answers-here k n (omega arith) (inr (omega arith))
  retry_async_from-Answers (suc left) k n h = elim (Bool-cases (is_nil (env.deploy k).error)) [
    | inl e ↦ rw e (Answers-here k n (omega arith) (inl (rw e)))
    | inr e ↦ elim (Bool-cases (is_deterministic (env.deploy k).error)) [
      | inl d ↦ rw (e, d) (Answers-here k n (omega arith) (inl (rw (e, d))))
      | inr d ↦ elim (Bool-cases (wait_before_retry env delay k)) [
        | inl w ↦
            rw (e, d, w)
              (Answers-later k n (rw (e, d, w))
                (retry_async_from-Answers left (suc k) n (omega arith)))
        | inr w ↦ rw (e, d, w) (Answers-here k n (omega arith) (inl (rw (e, d, w))))
      ]
    ]
  ]

  -- `retryDeploy` returns the first attempt, of one more than the retries allowed, that passed or
  -- after which no further wait was granted; it made every attempt before that one.
  pub retry_deploy-Answers :
      (attempts : ℤ) → Answers stops 0 (at_least_zero attempts) (retry_deploy env attempts delay)
  unfolding retry_deploy
  retry_deploy-Answers attempts = retry_from-Answers (at_least_zero attempts) 0 _ (omega arith)

  -- `retryDeployAsync` returns the first attempt, of one more than the retries allowed, that
  -- passed, that failed in a deterministic step of the pipeline, or after which no further wait was
  -- granted.
  pub retry_deploy_async-Answers :
      (attempts : ℤ)
      → Answers stops_async 0 (at_least_zero attempts) (retry_deploy_async env attempts delay)
  unfolding retry_deploy_async
  retry_deploy_async-Answers attempts =
      retry_async_from-Answers (at_least_zero attempts) 0 _ (omega arith)
