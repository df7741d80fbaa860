-- ===== src/Tests/Webhooks.antt =====
-- The retries of a webhook's deploy, and a workflow that stops.
use poor_man_cluster.Common.{
  ℕ, ◌+◌, ◌*◌, ◌≡◌, refl, String, true, false, none, some, List, [], ◌∷◌, eqb, if◌then◌else◌,
}
use poor_man_cluster.Common.Errors.{plain, step_error}
use poor_man_cluster.Common.Int.{pos}
use poor_man_cluster.Workflow.{Step, run}
use poor_man_cluster.Webhooks.Retry.{
  Env, second, retry_deploy, retry_deploy_async, wait_before_retry, deterministic,
}
use poor_man_cluster.Webhooks.Retry.FirstStop.{Answers, stops_async, retry_deploy_async-Answers}

-- A deployer that passes at its second attempt, when every wait is granted.
abbrev flaky : Env ℕ
flaky = record {
  deploy = λ k.
      if eqb k 0
      then record { result = none; error = some (plain "pull failed") }
      else record { result = some 8; error = none };
  ctx_done = λ k. false;
  timer_first = λ k. true;
}

flaky_retried :
    retry_deploy flaky (pos 2) (pos (30 * second))
    ≡ record { attempt = record { result = some 8; error = none }; retries = 1 }
unfolding retry_deploy wait_before_retry
flaky_retried = refl

-- One whose manifest does not parse.
abbrev broken : Env ℕ
broken = record {
  deploy = λ k. record {
    result = none;
    error = some (step_error "Parsing manifest (DSL)" (plain "bad yaml"));
  };
  ctx_done = λ k. false;
  timer_first = λ k. true;
}

broken_once : (retry_deploy_async broken (pos 2) (pos 5)).retries ≡ 0
unfolding retry_deploy_async deterministic
broken_once = refl

retry_deploy_async-Answers_example :
    Answers broken
      (pos 5)
      (stops_async broken (pos 5))
      0
      2
      (retry_deploy_async broken (pos 2) (pos 5))
retry_deploy_async-Answers_example = retry_deploy_async-Answers broken (pos 5) (pos 2)

-- A workflow over a counter: its second step fails.
abbrev counting : List (Step ℕ String)
counting =
    (record { name = "Parse"; run = λ s. (none, s + 1) })
    ∷ (record { name = "Render"; run = λ s. (some "no such config", s + 1) })
    ∷ (record { name = "Apply"; run = λ s. (none, s + 1) })
    ∷ []

counting_stops : (run counting 0).error ≡ some (record { step = "Render"; err = "no such config" })
unfolding run
counting_stops = refl
