-- ===== src/Reconcile/Failover.antt =====
-- The storage outage: `nodeHealth`, `storagePaused`, `tryStorageFailover`.
pub mod Target
pub mod Cooldown
pub mod Resumed
use poor_man_cluster.Common.{
  ℕ, ◌*◌, ◌/◌, String, ◌==◌, Bool, true, false, not, ◌&&◌, ◌||◌, Option, none, some, List, [], ◌∷◌,
  if◌then◌else◌, Map, lookup, insert,
}
use poor_man_cluster.Common.Errors.{Error, Result, ok, err}
use poor_man_cluster.Stacks.Placement.{parse_storage_nodes, is_empty}
use poor_man_cluster.Store.Failovers.{StackFailover, set_stack_failover}
use poor_man_cluster.Reconcile.RateLimit.{due}
use poor_man_cluster.Reconcile.SyncErrors.{second}

-- `runtime.Node`, as far as the loop reads it.
pub record Node : Type 0 where
  pub hostname : String
  pub status : String
  pub availability : String

-- `failoverCooldown`
abbrev pub failover_cooldown : ℕ
failover_cooldown = 300 * second

-- The loop of `nodeHealth`: a later node of the same name overwrites.
pub health_from : Map Bool → List Node → Map Bool
unfolding insert
health_from m [] = m
health_from m (n ∷ ns) =
    health_from (insert n.hostname (n.status == "ready" && n.availability == "active") m) ns

-- `nodeHealth`: `none` for a nil client. A nil map and an empty one are read alike.
unfoldable pub node_health : Option (Result (List Node)) → Map Bool
unfolding health_from
node_health none = []
node_health (some (err e)) = []
node_health (some (ok nodes)) = health_from [] nodes

-- `health[node]`: false for a node that the map does not hold.
abbrev pub is_healthy : Map Bool → String → Bool
is_healthy health node = elim (lookup node health) [ none ↦ false | some up ↦ up ]

-- The loop of `storagePaused`.
unfoldable pub first_down : Map Bool → List String → Option String
unfolding lookup
first_down health [] = none
first_down health (pin ∷ pins) =
    let later = first_down health pins in if not (is_healthy health pin) then some pin else later

abbrev down_of : Map Bool → Result (List String) → Option String
down_of health (err e) = none
down_of health (ok pins) = first_down health pins

-- `storagePaused`: the node that is down, if the stack is paused. `wired` says whether there is a
-- deploy service, and `pins` is what it resolves for the stack.
unfoldable pub storage_paused : Bool → Map Bool → Result (List String) → Option String
unfolding first_down
storage_paused wired health pins =
    if not wired || is_empty health then none else down_of health pins

-- The loop of `tryStorageFailover` over the candidates.
unfoldable pub failover_target : Map Bool → String → List String → Option String
unfolding lookup
failover_target health down [] = none
failover_target health down (c ∷ cs) =
    let later = failover_target health down cs in
    if c == down then later else if is_healthy health c then some c else later

-- One call of `tryStorageFailover`, with what it reads: whether a move can be made and a store is
-- there, the settings `storage_failover` and `storage_nodes`, and the time in nanoseconds.
pub record Attempt : Type 0 where
  pub stack_name : String
  pub down_node : String
  pub health : Map Bool
  pub can_move : Bool
  pub has_store : Bool
  pub enabled : Bool
  pub storage_nodes : String
  pub now : ℕ

abbrev target_of : Attempt → Option String
target_of a = failover_target a.health a.down_node (parse_storage_nodes a.storage_nodes)

-- The target of the move that is started, if one is, by `lastFailover`.
unfoldable pub failover_started : Attempt → Map ℕ → Option String
unfolding failover_target parse_storage_nodes
failover_started a last =
    if not a.can_move || not a.has_store || not a.enabled then none else elim (target_of a) [
      | none ↦ none
      | some target ↦ if due failover_cooldown a.stack_name a.now last then some target else none
    ]

-- `tryStorageFailover`: the move that its goroutine makes, and `lastFailover` as it leaves it.
unfoldable pub try_storage_failover : Attempt → Map ℕ → Option String × Map ℕ
unfolding failover_started insert
try_storage_failover a last = (
  failover_started a last,
  elim (failover_started a last) [ none ↦ last | some target ↦ insert a.stack_name a.now last ],
)

-- The end of the goroutine: a move that succeeded leaves a marker, not yet acknowledged.
unfoldable pub move_finished :
    Attempt → String → Option Error → ℕ → List StackFailover → List StackFailover
unfolding set_stack_failover
move_finished a target (some e) now markers = markers
move_finished a target none now markers =
    set_stack_failover
      (record {
        stack_name = a.stack_name;
        from_node = a.down_node;
        to_node = target;
        at = now / second;
        acked = false;
      })
      markers
