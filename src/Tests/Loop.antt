-- ===== src/Tests/Loop.antt =====
-- The converge loop: bursts, repeats, moves.
use poor_man_cluster.Common.{
  ℕ, ◌*◌, ◌≡◌, refl, true, false, none, some, List, [], ◌∷◌, arith, Map, lookup, contains,
}
use poor_man_cluster.Common.Text.{split, trim_space}
use poor_man_cluster.Stacks.Placement.{parse_storage_nodes}
use poor_man_cluster.Reconcile.SyncErrors.{Db, Repeat, Failure, second, changed}
use poor_man_cluster.Reconcile.SyncErrors.Repeats.{handle_all, repeats_unrecorded}
use poor_man_cluster.Reconcile.Failover.{
  Attempt, try_storage_failover, failover_started, failover_target, is_healthy,
}
use poor_man_cluster.Reconcile.Loop.{
  Watch, Case, event, elapsed, is_ready, select, Run, rest, takes,
}
use poor_man_cluster.Reconcile.Loop.Debounce.{debounced, Apart, earliest, debounced-Run}
use poor_man_cluster.Tests.{tables}

abbrev failure : Failure
failure = record {
  stack_name = "shop";
  revision = 7;
  message = "bad manifest";
  now = 1000 * second;
}

-- Two hours later.
abbrev repeated : Failure
repeated = record failure { now = 8200 * second }

abbrev quiet : Repeat
quiet = record { last = []; last_warn = [] }

abbrev reported : Repeat
reported = record { last = ("shop", "bad manifest") ∷ []; last_warn = [] }

abbrev db : Db
db = record { tables = tables; statuses = [] }

remembered : lookup "shop" reported.last ≡ some "bad manifest"
unfolding lookup
remembered = refl

repeats_unrecorded_example : (handle_all (failure ∷ repeated ∷ []) reported (some db)).1 ≡ some db
repeats_unrecorded_example =
    repeats_unrecorded "shop" "bad manifest" (failure ∷ repeated ∷ []) reported (some db) remembered
      ((refl, refl), ((refl, refl), tt))

is_new : changed "shop" "bad manifest" quiet.last ≡ true
unfolding lookup
is_new = refl

abbrev attempt : Attempt
attempt = record {
  stack_name = "shop";
  down_node = "s1";
  health = ("s1", false) ∷ ("s2", true) ∷ [];
  can_move = true;
  has_store = true;
  enabled = true;
  storage_nodes = "s1,s2";
  now = 5000 * second;
}

moved : (try_storage_failover attempt []).0 ≡ some "s2"
unfolding try_storage_failover failover_started failover_target parse_storage_nodes lookup split
    trim_space
moved = refl

listed : contains (parse_storage_nodes "s1,s2") "s2" ≡ true
unfolding parse_storage_nodes split trim_space
listed = refl

up : is_healthy attempt.health "s2" ≡ true
unfolding lookup
up = refl

abbrev none_moved : Map ℕ
none_moved = []

never_moved : lookup "shop" none_moved ≡ none
unfolding lookup
never_moved = refl

-- Two events a second apart, and the pass that both of them get.
abbrev idle : Watch
idle = record { events = true; armed = none }

abbrev burst : List (ℕ × Case)
burst = (10 * second, event) ∷ (11 * second, event) ∷ (12 * second, elapsed) ∷ []

burst_runs : Run 0 idle burst (some idle)
unfolding is_ready select
burst_runs =
    takes (omega arith) refl refl
      (takes (omega arith) refl refl (takes (omega arith) refl refl rest))

debounced-Run_example : Apart (earliest 0 idle) (debounced burst)
debounced-Run_example = debounced-Run burst_runs

abbrev waiting : Watch
waiting = record { events = true; armed = some (12 * second) }

abbrev later : List (ℕ × Case)
later = (11 * second, event) ∷ (12 * second, elapsed) ∷ []

later_runs : Run (10 * second) waiting later (some idle)
unfolding is_ready select
later_runs = takes (omega arith) refl refl (takes (omega arith) refl refl rest)
