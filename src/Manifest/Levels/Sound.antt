-- ===== src/Manifest/Levels/Sound.antt =====
-- The levels respect the dependencies.
use poor_man_cluster.Common.{
  ℕ, zero, suc, ◌+◌, ◌≤◌, ◌<◌, String, eq_refl, ◌≡◌, refl, sym, ap, ◌∙◌, subst, Bool, true, Option,
  none, some, List, [], ◌∷◌, arith, ltb, length, All, Bool-cases, Option-cases, inl, inr,
}
use poor_man_cluster.Common.Errors.{Error, ok, err}
use poor_man_cluster.Manifest.Ir.{IrService}
use poor_man_cluster.Manifest.Levels.{
  Counts, is_service, pending, count_of, round, onto, levels_from, first_level, total, any_pending,
  unknown, service_levels,
}
use poor_man_cluster.Manifest.Levels.Counting.{
  occ, left_of, left_of-none, left_of-All, deps_of, Distinct, count_of-pending, occ-first_level,
  any_pending-count_of,
}
use poor_man_cluster.Manifest.Levels.Keys.{
  any_pending-key, is_key-pending, DistinctKeys-pending, left_of-some, unknown-none,
}
use poor_man_cluster.Manifest.Levels.Rounds.{Inv, visited, round-Inv}

-- Every service of a level has all its dependencies among those before the level.
abbrev pub Ordered : List IrService → List String → List (List String) → Type 0
Ordered all seen [] = Unit
Ordered all seen (level ∷ levels) =
    All (λ (n : String). All (λ (d : String). 1 ≤ occ d seen) (deps_of all n)) level
    × Ordered all (visited all level seen) levels

-- The services of some levels, behind those that were there.
abbrev pub all_visited : List IrService → List (List String) → List String → List String
all_visited all [] seen = seen
all_visited all (level ∷ levels) seen = all_visited all levels (visited all level seen)

module _ (all : List IrService) (distinct : Distinct all) where
  level-All :
      (seen cur : List String) (m : Counts)
      → Inv all seen cur [] [] m
      → (part : List String) → ((x : String) → 1 ≤ occ x part → 1 ≤ occ x cur)
      → All (λ (n : String). All (λ (d : String). 1 ≤ occ d seen) (deps_of all n)) part
  unfolding occ
  level-All seen cur m i [] within = tt
  level-All seen cur m i (n ∷ part) within =
      let here : 1 ≤ occ n cur = within n (ground (arith, eq_refl n)) in
      let free : left_of seen (deps_of all n) ≡ 0 = ground (arith, i.waits n, i.done n, here) in
      (
        left_of-All seen (deps_of all n) free,
        level-All seen cur m i part (λ x h. within x (ground (arith, h))),
      )

  -- What a run over the levels leaves.
  record Run (seen cur : List String) (m : Counts) (r : Option (List (List String) × Counts))
      : Type 0 where
    levels : List (List String)
    left : Counts
    answers : r ≡ some (levels, left)
    ordered : Ordered all seen levels
    ends : Inv all (all_visited all levels seen) [] [] [] left

  -- The collected level becomes the current one.
  Inv-shift :
      (seen next : List String) (m : Counts) → Inv all seen [] next [] m → Inv all seen next [] [] m
  unfolding occ
  Inv-shift seen next m i = record {
    once = λ x. omega (arith, i.once x);
    done = λ x h. i.done x (omega (arith, h));
    waits = i.waits;
    reached = λ x h k. omega (arith, i.reached x h k);
    keyed = i.keyed;
    keys = i.keys;
  }

  -- Fuel for every level but the first one takes a dependency.
  abbrev Enough : ℕ → Counts → List String → Type 0
  Enough fuel m [] = Unit
  Enough fuel m (n ∷ cur) = total m < fuel

  Enough-later :
      (fuel : ℕ) (m : Counts) (next : List String)
      → total m + length next ≤ fuel
      → Enough fuel m next
  Enough-later fuel m [] h = tt
  Enough-later fuel m (n ∷ next) h = omega (arith, h)

  levels_from-Run :
      (fuel : ℕ) (seen cur : List String) (m : Counts)
      → Inv all seen cur [] [] m
      → Enough fuel m cur
      → Run seen cur m (levels_from all fuel cur m)
  unfolding levels_from
  levels_from-Run fuel seen [] m i enough = record {
    levels = [];
    left = m;
    answers = refl;
    ordered = tt;
    ends = i;
  }
  levels_from-Run zero seen (n ∷ cur) m i enough = absurd (omega arith)
  levels_from-Run (suc fuel) seen (n ∷ cur) m i enough =
      let s = round all (n ∷ cur) (m, []) in
      let (j, spent) = round-Inv all seen (n ∷ cur) [] m distinct i in
      let seen' = visited all (n ∷ cur) seen in
      let r =
        levels_from-Run fuel seen' s.1 s.0 (Inv-shift seen' s.1 s.0 j)
          (Enough-later fuel s.0 s.1 (omega (arith, spent))) in
      record {
        levels = (n ∷ cur) ∷ r.levels;
        left = r.left;
        answers = ap (onto (n ∷ cur)) r.answers;
        ordered = (level-All seen (n ∷ cur) m i (n ∷ cur) (λ x h. h), r.ordered);
        ends = r.ends;
      }

  -- Before the first level nothing is seen, and the services in it are those that wait for nothing.
  Inv-first : Inv all [] (first_level (pending all)) [] [] (pending all)
  unfolding occ
  Inv-first = record {
    once = λ x. ground (arith, occ-first_level all x distinct);
    done = λ x. ground (arith, occ-first_level all x distinct, count_of-pending all x);
    waits = λ x. ground (arith, count_of-pending all x, left_of-none (deps_of all x));
    reached = λ x. ground (arith, occ-first_level all x distinct, count_of-pending all x);
    keyed = is_key-pending all;
    keys = DistinctKeys-pending all distinct;
  }

  first-Run :
      Run []
        (first_level (pending all))
        (pending all)
        (levels_from all (suc (total (pending all))) (first_level (pending all)) (pending all))
  first-Run =
      levels_from-Run (suc (total (pending all))) [] (first_level (pending all)) (pending all)
        Inv-first (enough (first_level (pending all)))
    where
      enough : (cur : List String) → Enough (suc (total (pending all))) (pending all) cur
      enough [] = tt
      enough (n ∷ cur) = omega arith

  -- Where no two services have one name, `ServiceLevels` answers levels only if every service is in
  -- them, in one place, and each one's dependencies are all in the levels before its own.
  pub service_levels-Ordered :
      (levels : List (List String))
      → service_levels all ≡ ok levels
      → Ordered all [] levels
        × ((name : String) → is_service all name ≡ true → occ name (all_visited all levels []) ≡ 1)
  unfolding service_levels occ
  service_levels-Ordered levels h = elim (Option-cases (unknown all all)) [
    | inr (d, missing) ↦ absurd (ground (arith, missing))
    | inl known ↦
        let r = first-Run in
        elim (Bool-cases (any_pending r.left)) [
          | inl cyclic ↦ absurd (ground (arith, known, r.answers, cyclic))
          | inr settled ↦
              let e : r.levels ≡ levels = ground (arith, known, r.answers, settled) in
              subst
                (λ (ls : List (List String)).
                  Ordered all [] ls
                  × ((name : String)
                      → is_service all name ≡ true
                      → occ name (all_visited all ls []) ≡ 1))
                e
                (
                  r.ordered,
                  λ name there.
                      let free = any_pending-count_of r.left name settled in
                      omega (arith, r.ends.once name, r.ends.reached name there free),
                )
        ]
  ]

  -- Where no two services have one name and every dependency is a service, `ServiceLevels` fails only
  -- if the dependencies run in a circle: some of the services, at least one, each depend on one of
  -- them. So it never fails for want of fuel.
  pub service_levels-cycle :
      (e : Error)
      → unknown all all ≡ none
      → service_levels all ≡ err e
      → (waiting : String → Bool) × ((x : String) × (is_service all x ≡ true) × (waiting x ≡ true))
        × ((x : String)
            → is_service all x ≡ true
            → waiting x ≡ true
            → (d : String) × (1 ≤ occ d (deps_of all x))
              × (is_service all d ≡ true)
              × (waiting d ≡ true))
  unfolding service_levels occ
  service_levels-cycle e known h =
      let r = first-Run in
      elim (Bool-cases (any_pending r.left)) [
        | inr settled ↦ absurd (ground (arith, known, r.answers, settled))
        | inl cyclic ↦
            let (x, key, waits) = any_pending-key r.left r.ends.keys cyclic in
            (
              λ n. ltb 0 (count_of n r.left),
              (x, sym (r.ends.keyed x) ∙ key, ground (arith, waits)),
              λ n there waiting.
                  let seen = all_visited all r.levels [] in
                  let some_left : 1 ≤ left_of seen (deps_of all n) =
                    ground (arith, r.ends.waits n, waiting) in
                  let (d, stands, unseen) = left_of-some seen (deps_of all n) some_left in
                  let service = unknown-none all all n d known stands in
                  (d, stands, service, ground (arith, r.ends.reached d, service, unseen)),
            )
      ]
