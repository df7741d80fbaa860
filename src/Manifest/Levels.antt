-- ===== src/Manifest/Levels.antt =====
-- internal/manifest/levels.go: the order in which the services of a stack are deployed.
-- A service is named, so that the arrays over indices are maps over names. The loop over the levels
-- recurses on fuel: one level more than there are dependencies is always enough, since each level
-- behind the first takes at least one of them.
pub mod Counting
pub mod Keys
pub mod Rounds
pub mod Sound
use poor_man_cluster.Common.{
  ℕ, zero, suc, ◌+◌, ◌-◌, String, ◌==◌, Bool, true, false, not, ◌&&◌, ◌||◌, Option, none, some,
  List, [], ◌∷◌, ◌++◌, if◌then◌else◌, ltb, eqb, length, contains,
}
use poor_man_cluster.Common.Errors.{Error, plain, Result, ok, err}
use poor_man_cluster.Manifest.Ir.{IrService}
use Prim.Native.String.{◌++◌ as ◌+++◌}

abbrev pub Counts : Type 0
Counts = List (String × ℕ)

unfoldable pub is_service : List IrService → String → Bool
is_service [] name = false
is_service (s ∷ ss) name = s.name == name || is_service ss name

-- The first dependency that is not a service.
unfoldable pub unknown_in : List IrService → List String → Option String
unknown_in all [] = none
unknown_in all (d ∷ deps) = if is_service all d then unknown_in all deps else some d

unfoldable pub unknown : List IrService → List IrService → Option String
unfolding unknown_in
unknown all [] = none
unknown all (s ∷ ss) = elim (unknown_in all s.depends_on) [
  | some d ↦ some d
  | none ↦ unknown all ss
]

-- `pending`
unfoldable pub pending : List IrService → Counts
pending [] = []
pending (s ∷ ss) = (s.name, length s.depends_on) ∷ pending ss

-- The name of a service once for each time that it depends on `dep`.
unfoldable pub named_for : String → String → List String → List String
named_for dep name [] = []
named_for dep name (d ∷ deps) =
    let rest = named_for dep name deps in if d == dep then name ∷ rest else rest

-- `dependents[index[dep]]`
unfoldable pub dependents : List IrService → String → List String
unfolding named_for
dependents [] dep = []
dependents (s ∷ ss) dep = named_for dep s.name s.depends_on ++ dependents ss dep

unfoldable pub count_of : String → Counts → ℕ
count_of name [] = 0
count_of name ((n, c) ∷ m) = if n == name then c else count_of name m

-- `pending[index[name]]--`
unfoldable pub decrement : String → Counts → Counts
decrement name [] = []
decrement name ((n, c) ∷ m) = if n == name then (n, c - 1) ∷ m else (n, c) ∷ decrement name m

-- The inner loop, over the dependents of one service; `next` is the level that is collected.
unfoldable pub visit : List String → Counts × List String → Counts × List String
unfolding count_of decrement
visit [] s = s
visit (d ∷ ds) (m, next) =
    let m' = decrement d m in visit ds (m', if eqb (count_of d m') 0 then next ++ d ∷ [] else next)

-- The loop over the services of the current level.
unfoldable pub round : List IrService → List String → Counts × List String → Counts × List String
unfolding visit dependents
round all [] s = s
round all (n ∷ cur) s = round all cur (visit (dependents all n) s)

abbrev pub onto :
    List String → Option (List (List String) × Counts) → Option (List (List String) × Counts)
onto level none = none
onto level (some (levels, left)) = some (level ∷ levels, left)

-- The levels from the current one on, and the counts that are left; `none` is out of fuel.
unfoldable pub levels_from :
    List IrService → ℕ → List String → Counts → Option (List (List String) × Counts)
unfolding round
levels_from all fuel [] m = some ([], m)
levels_from all zero (n ∷ cur) m = none
levels_from all (suc fuel) (n ∷ cur) m =
    let (m', next) = round all (n ∷ cur) (m, []) in onto (n ∷ cur) (levels_from all fuel next m')

-- The services that wait for nothing.
unfoldable pub first_level : Counts → List String
first_level [] = []
first_level ((n, c) ∷ m) = if eqb c 0 then n ∷ first_level m else first_level m

unfoldable pub total : Counts → ℕ
total [] = 0
total ((n, c) ∷ m) = c + total m

-- Whether a service still waits: it is on a cycle, or behind one.
unfoldable pub any_pending : Counts → Bool
any_pending [] = false
any_pending ((n, c) ∷ m) = ltb 0 c || any_pending m

abbrev pub cycle_error : Error
cycle_error = plain "depends_on cycle detected between services"

abbrev pub checked : Option (List (List String) × Counts) → Result (List (List String))
checked none = err (plain "out of fuel")
checked (some (levels, left)) = if any_pending left then err cycle_error else ok levels

-- `ServiceLevels`
unfoldable pub service_levels : List IrService → Result (List (List String))
unfolding unknown pending levels_from first_level total
service_levels all = elim (unknown all all) [
  | some d ↦ err (plain ("depends_on " +++ d +++ ": no such service in the manifest"))
  | none ↦
      checked
        (levels_from all (suc (total (pending all))) (first_level (pending all)) (pending all))
]
