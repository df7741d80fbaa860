-- ===== src/Stacks/Ordered/Dependencies.antt =====
-- The levels of the manifest, deployed: a service starts behind those that it depends on.
use poor_man_cluster.Common.{
  ℕ, ◌+◌, ◌≤◌, String, ◌≡◌, subst, false, List, [], ◌∷◌, ◌++◌, arith, All, ◌==◌, eq_iff, Bool-cases,
  inl, inr,
}
use poor_man_cluster.Common.Errors.{ok}
use poor_man_cluster.Manifest.Ir.{IrService}
use poor_man_cluster.Manifest.Levels.{service_levels}
use poor_man_cluster.Manifest.Levels.Counting.{occ, deps_of, Distinct}
use poor_man_cluster.Manifest.Levels.Rounds.{visited}
use poor_man_cluster.Manifest.Levels.Sound.{Ordered, all_visited, service_levels-Ordered}
use poor_man_cluster.Stacks.Ordered.{Deployer, apply_levels}
use poor_man_cluster.Stacks.Ordered.Prune.{all_healthy, apply_levels-append}

-- How often a name stands in some levels.
abbrev pub occ_in : String → List (List String) → ℕ
occ_in x [] = 0
occ_in x (level ∷ levels) = occ x level + occ_in x levels

occ-visited :
    (all : List IrService) (x : String) (level seen : List String)
    → occ x (visited all level seen) ≡ occ x level + occ x seen
unfolding occ
occ-visited all x [] seen = omega arith
occ-visited all x (n ∷ level) seen = ground (arith, occ-visited all x level (n ∷ seen))

occ-all_visited :
    (all : List IrService) (x : String) (levels : List (List String)) (seen : List String)
    → occ x (all_visited all levels seen) ≡ occ_in x levels + occ x seen
occ-all_visited all x [] seen = omega arith
occ-all_visited all x (level ∷ levels) seen =
    omega
      (arith, occ-all_visited all x levels (visited all level seen), occ-visited all x level seen)

All-occ : (P : String → Type 0) (x : String) (xs : List String) → All P xs → 1 ≤ occ x xs → P x
unfolding occ
All-occ P x [] all h = absurd (omega arith)
All-occ P x (y ∷ ys) (p, all) h = elim (Bool-cases (y == x)) [
  | inl same ↦ subst P ((eq_iff y x).0 same) p
  | inr differs ↦ All-occ P x ys all (ground arith)
]

Ordered-at :
    (all : List IrService) (seen : List String) (before behind : List (List String))
    (level : List String)
    → Ordered all seen (before ++ level ∷ behind)
    → All
        (λ (n : String).
          All (λ (d : String). 1 ≤ occ d (all_visited all before seen)) (deps_of all n))
        level
Ordered-at all seen [] behind level (here, later) = here
Ordered-at all seen (first ∷ before) behind level (here, later) =
    Ordered-at all (visited all first seen) before behind level later

-- Where no two services have one name, a service of a level of `ServiceLevels` that depends on
-- another has it in a level before; and unless every level before is deployed and becomes ready,
-- the deploy makes the same calls as if its own level and those behind it were not there.
pub dependencies_first :
    (d : Deployer) (rendered : String) (all : List IrService) (before behind : List (List String))
    (level : List String) (name dep : String)
    → Distinct all
    → service_levels all ≡ ok (before ++ level ∷ behind)
    → 1 ≤ occ name level
    → 1 ≤ occ dep (deps_of all name)
    → (1 ≤ occ_in dep before)
      × (all_healthy d before ≡ false
          → apply_levels d rendered (before ++ level ∷ behind)
            ≡ apply_levels d rendered (before ++ []))
unfolding occ
dependencies_first d rendered all before behind level name dep distinct h there depends =
    let (ordered, once) = service_levels-Ordered all distinct (before ++ level ∷ behind) h in
    let earlier = Ordered-at all [] before behind level ordered in
    let seen = λ (x : String). 1 ≤ occ x (all_visited all before []) in
    let before_it = All-occ (λ (n : String). All seen (deps_of all n)) name level earlier there in
    let visited_it : seen dep = All-occ seen dep (deps_of all name) before_it depends in
    (
      omega (arith, visited_it, occ-all_visited all dep before []),
      λ sick. apply_levels-append d rendered before (level ∷ behind) [] sick,
    )
