-- ===== src/Tests/Deploys.antt =====
-- The drift check and the ordered deploy.
use poor_man_cluster.Common.{
  ◌+◌, ◌≡◌, refl, String, ◌==◌, true, false, Option, none, some, List, [], ◌∷◌, ◌++◌, if◌then◌else◌,
}
use poor_man_cluster.Common.Errors.{Error, plain, Result, ok}
use poor_man_cluster.Stacks.Drift.{LiveService}
use poor_man_cluster.Stacks.Ordered.{
  Task, LiveService as OrderedService, name_ready, all_ready, level_ready, Poll,
  deploy_wait_timeout, wait_level_healthy, prune_stack, prune_stale_containers, Deployer,
  apply_levels,
}
use poor_man_cluster.Stacks.Ordered.Waiting.{has_late, has_ready, wait_level_healthy_returns}
use poor_man_cluster.Stacks.Ordered.Prune.{all_healthy, deploys, apply_levels-deploys}

abbrev live : List LiveService
live =
    (record { name = "shop_db"; stack = "shop"; label = "h1" })
    ∷ (record { name = "shop_web"; stack = "shop"; label = "" })
    ∷ []

-- A job that failed, and then succeeded.
abbrev failed_task : Task
failed_task = record { task_id = "a"; state = "failed"; started_at = 10 }

abbrev complete_task : Task
complete_task = record { task_id = "b"; state = "complete"; started_at = 20 }

-- A level of one service, which has the replicas it wants.
abbrev web : OrderedService
web = record { name = "shop_web"; run_once = false; desired = 2; replicas = 2 }

abbrev tasks : String → Result (List Task)
tasks job = ok []

web_ready : level_ready "shop" tasks (ok (web ∷ [])) ("web" ∷ []) ≡ ok true
unfolding level_ready all_ready name_ready
web_ready = refl

abbrev polls : List Poll
polls =
    (record { ready = ok false; now = 2_000_000_000; cancelled = none })
    ∷ (record { ready = ok false; now = 122_000_000_000; cancelled = none })
    ∷ []

late : has_late (0 + deploy_wait_timeout) polls ≡ true
unfolding has_late
late = refl

wait_level_healthy_returns_example :
    (answer : Option Error) × (wait_level_healthy true 0 polls ≡ some answer)
    × (answer ≡ none → has_ready polls ≡ true)
wait_level_healthy_returns_example = wait_level_healthy_returns 0 polls late

-- A deployer whose second level never becomes ready.
abbrev stuck : Deployer
stuck = record {
  answer = λ c. none;
  write = λ level. ok "rendered";
  wait = λ level. elim level [
    | [] ↦ none
    | name ∷ names ↦ if name == "api" then some (plain "timed out") else none
  ];
}

api_stuck : all_healthy stuck (("db" ∷ []) ∷ ("api" ∷ []) ∷ []) ≡ false
unfolding all_healthy
api_stuck = refl

db_applied : (apply_levels stuck "all" (("db" ∷ []) ∷ ("web" ∷ []) ∷ [])).1 ≡ none
unfolding apply_levels
db_applied = refl

apply_levels-deploys_example :
    (all_healthy stuck (("db" ∷ []) ∷ ("web" ∷ []) ∷ []) ≡ true)
    × ((apply_levels stuck "all" (("db" ∷ []) ∷ ("web" ∷ []) ∷ [])).0
        ≡ deploys stuck (("db" ∷ []) ∷ ("web" ∷ []) ∷ [])
          ++ prune_stack "all" ∷ prune_stale_containers ∷ [])
apply_levels-deploys_example =
    apply_levels-deploys stuck "all" (("db" ∷ []) ∷ ("web" ∷ []) ∷ []) db_applied
