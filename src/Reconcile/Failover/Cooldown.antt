-- ===== src/Reconcile/Failover/Cooldown.antt =====
-- Two automatic moves of one stack stand at least the cooldown apart.
use poor_man_cluster.Common.{
  ℕ, String, ◌≡◌, Bool, true, false, Option, none, some, List, arith, Map, lookup, insert,
}
use poor_man_cluster.Reconcile.RateLimit.{Limiter, Spaced, Spaced-times, due}
use poor_man_cluster.Reconcile.Failover.{Attempt, failover_cooldown, try_storage_failover}

abbrev pub is_started : Option String → Bool
is_started none = false
is_started (some target) = true

pub failover_idle :
    (last : Map ℕ) (a : Attempt)
    → is_started (try_storage_failover a last).0 ≡ false
    → (try_storage_failover a last).1 ≡ last
unfolding try_storage_failover
failover_idle last a h = ground arith

pub failover_goes :
    (last : Map ℕ) (a : Attempt)
    → is_started (try_storage_failover a last).0 ≡ true
    → (due failover_cooldown a.stack_name a.now last ≡ true)
      × ((try_storage_failover a last).1 ≡ insert a.stack_name a.now last)
unfolding try_storage_failover
failover_goes last a h = ground arith

abbrev pub moves : Limiter (Map ℕ) Attempt
moves = record {
  interval = failover_cooldown;
  positive = omega arith;
  go = λ last a. is_started (try_storage_failover a last).0;
  next = λ last a. (try_storage_failover a last).1;
  times = λ last. last;
  key = λ a. a.stack_name;
  now = λ a. a.now;
  idle = failover_idle;
  goes = failover_goes;
}

-- Over any attempts for any stacks, the automatic moves of one stack are started at least five
-- minutes apart.
pub moves_cooled_down :
    (name : String) (last : Map ℕ) (attempts : List Attempt)
    → Spaced moves name (lookup name last) last attempts
moves_cooled_down name last attempts = Spaced-times moves name last attempts
