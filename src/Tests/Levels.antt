-- ===== src/Tests/Levels.antt =====
-- The levels of three services, and two that wait for each other.
use poor_man_cluster.Common.{
  ◌≤◌, ◌≡◌, refl, String, Bool, true, false, none, some, List, [], ◌∷◌, arith,
}
use poor_man_cluster.Common.Errors.{plain, err, ok}
use poor_man_cluster.Manifest.Ir.{IrService}
use poor_man_cluster.Manifest.Levels.{
  is_service, unknown, unknown_in, pending, named_for, dependents, count_of, decrement, visit,
  round, levels_from, total, first_level, any_pending, cycle_error, service_levels,
}
use poor_man_cluster.Manifest.Levels.Counting.{Distinct, occ, deps_of}
use poor_man_cluster.Manifest.Levels.Sound.{
  Ordered, all_visited, service_levels-Ordered, service_levels-cycle,
}
use poor_man_cluster.Stacks.Ordered.{Deployer, apply_levels}
use poor_man_cluster.Stacks.Ordered.Prune.{all_healthy}
use poor_man_cluster.Stacks.Ordered.Dependencies.{occ_in, dependencies_first}
use poor_man_cluster.Tests.{db_service}

abbrev service : String → List String → IrService
service name deps = record db_service { name = name; depends_on = deps }

abbrev three : List IrService
three = service "web" ("api" ∷ "db" ∷ []) ∷ service "api" ("db" ∷ []) ∷ service "db" [] ∷ []

abbrev three_levels : List (List String)
three_levels = ("db" ∷ []) ∷ ("api" ∷ []) ∷ ("web" ∷ []) ∷ []

three-Distinct : Distinct three
unfolding is_service
three-Distinct = (refl, (refl, (refl, tt)))

three_ok : service_levels three ≡ ok three_levels
unfolding service_levels is_service unknown unknown_in pending named_for dependents count_of
    decrement visit round levels_from total first_level any_pending
three_ok = refl

service_levels-Ordered_example :
    Ordered three [] three_levels
    × ((name : String)
        → is_service three name ≡ true
        → occ name (all_visited three three_levels []) ≡ 1)
service_levels-Ordered_example = service_levels-Ordered three three-Distinct three_levels three_ok

abbrev circle : List IrService
circle = service "web" ("api" ∷ []) ∷ service "api" ("web" ∷ []) ∷ service "db" [] ∷ []

circle-Distinct : Distinct circle
unfolding is_service
circle-Distinct = (refl, (refl, (refl, tt)))

circle_known : unknown circle circle ≡ none
unfolding unknown unknown_in is_service
circle_known = refl

circle_fails : service_levels circle ≡ err cycle_error
unfolding service_levels is_service unknown unknown_in pending named_for dependents count_of
    decrement visit round levels_from total first_level any_pending
circle_fails = refl

service_levels-cycle_example :
    (waiting : String → Bool) × ((x : String) × (is_service circle x ≡ true) × (waiting x ≡ true))
    × ((x : String)
        → is_service circle x ≡ true
        → waiting x ≡ true
        → (d : String) × (1 ≤ occ d (deps_of circle x))
          × (is_service circle d ≡ true)
          × (waiting d ≡ true))
service_levels-cycle_example =
    service_levels-cycle circle circle-Distinct cycle_error circle_known circle_fails

once : 1 ≤ occ "api" ("api" ∷ [])
unfolding occ
once = omega arith

db_once : 1 ≤ occ "db" (deps_of three "api")
unfolding occ deps_of
db_once = omega arith

-- A deployer whose database never becomes ready.
abbrev sick : Deployer
sick = record {
  answer = λ c. none;
  write = λ level. ok "rendered";
  wait = λ level. some (plain "timed out");
}

dependencies_first_example :
    (1 ≤ occ_in "db" (("db" ∷ []) ∷ []))
    × (all_healthy sick (("db" ∷ []) ∷ []) ≡ false
        → apply_levels sick "all" three_levels ≡ apply_levels sick "all" (("db" ∷ []) ∷ []))
dependencies_first_example =
    dependencies_first sick "all" three (("db" ∷ []) ∷ []) (("web" ∷ []) ∷ []) ("api" ∷ []) "api"
      "db" three-Distinct three_ok once db_once
