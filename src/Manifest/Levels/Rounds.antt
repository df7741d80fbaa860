-- ===== src/Manifest/Levels/Rounds.antt =====
-- What the counts say while the levels are collected.
use poor_man_cluster.Common.{
  suc, ◌+◌, ◌≤◌, String, ◌==◌, eq_iff, eq_refl, ◌≡◌, ◌∙◌, true, List, [], ◌∷◌, ◌++◌, arith,
  if◌then◌else◌, eqb, length, length-append, Bool-cases, inl, inr,
}
use poor_man_cluster.Manifest.Ir.{IrService}
use poor_man_cluster.Manifest.Levels.{
  Counts, is_service, dependents, count_of, decrement, visit, round, total,
}
use poor_man_cluster.Manifest.Levels.Counting.{
  occ, occ-append, left_of, left_of-cons, deps_of, Distinct, occ-dependents, count_of-decrement,
  total-decrement,
}
use poor_man_cluster.Manifest.Levels.Keys.{
  is_key, DistinctKeys, is_key-decrement, DistinctKeys-decrement,
}

-- Between two steps: `seen` has been visited, `rest` is what is left of the current level, `next` is
-- the level behind it, and `ds` are the visits that the last of `seen` still owes.
pub record Inv (all : List IrService) (seen rest next ds : List String) (m : Counts) : Type 0 where
  pub once : (x : String) → occ x seen + occ x rest + occ x next ≤ 1
  pub done : (x : String) → 1 ≤ occ x seen + occ x rest + occ x next → count_of x m ≡ 0
  pub waits : (x : String) → left_of seen (deps_of all x) + occ x ds ≡ count_of x m
  pub reached :
      (x : String)
      → is_service all x ≡ true
      → count_of x m ≡ 0
      → 1 ≤ occ x seen + occ x rest + occ x next
  pub keyed : (x : String) → is_key x m ≡ is_service all x
  pub keys : DistinctKeys m

-- What a step takes from the counts.
abbrev pub Spends : Counts × List String → Counts × List String → Type 0
Spends (m, next) (m', next') = total m' + length next' ≤ total m + length next

module _ (all : List IrService) where
  abbrev collected : String → List String → Counts → List String
  collected d next m = if eqb (count_of d m) 0 then next ++ d ∷ [] else next

  occ-collected :
      (d x : String) (next : List String) (m : Counts)
      → occ x (collected d next m) ≡ (
          if eqb (count_of d m) 0
          then (if d == x then suc (occ x next) else occ x next)
          else occ x next)
  unfolding occ
  occ-collected d x next m = ground (arith, occ-append x next (d ∷ []))

  Inv-visit_one :
      (seen rest next ds : List String) (d : String) (m : Counts)
      → Inv all seen rest next (d ∷ ds) m
      → Inv all seen rest (collected d next (decrement d m)) ds (decrement d m)
  unfolding occ
  Inv-visit_one seen rest next ds d m i =
      let m' = decrement d m in
      record {
        once = λ x. elim (Bool-cases (d == x)) [
          | inl same ↦
              let e = (eq_iff d x).0 same in
              ground (
                arith,
                i.once x,
                i.done x,
                i.waits x,
                same,
                e,
                eq_refl d,
                occ-collected d x next m',
                count_of-decrement d x m,
                count_of-decrement d d m,
              )
          | inr differs ↦ ground (arith, i.once x, differs, occ-collected d x next m')
        ];
        done = λ x. elim (Bool-cases (d == x)) [
          | inl same ↦
              let e = (eq_iff d x).0 same in
              ground (
                arith,
                i.once x,
                i.done x,
                i.waits x,
                same,
                e,
                eq_refl d,
                occ-collected d x next m',
                count_of-decrement d x m,
                count_of-decrement d d m,
              )
          | inr differs ↦
              ground (arith, i.done x, differs, occ-collected d x next m', count_of-decrement d x m)
        ];
        waits = λ x. ground (arith, i.waits x, count_of-decrement d x m);
        reached = λ x. elim (Bool-cases (d == x)) [
          | inl same ↦
              let e = (eq_iff d x).0 same in
              ground (
                arith,
                i.reached x,
                same,
                e,
                eq_refl d,
                occ-collected d x next m',
                count_of-decrement d x m,
                count_of-decrement d d m,
              )
          | inr differs ↦
              ground
                (arith, i.reached x, differs, occ-collected d x next m', count_of-decrement d x m)
        ];
        keyed = λ x. is_key-decrement d x m ∙ i.keyed x;
        keys = DistinctKeys-decrement d m i.keys;
      }

  Spends-visit_one :
      (seen rest next ds : List String) (d : String) (m : Counts)
      → Inv all seen rest next (d ∷ ds) m
      → Spends (m, next) (decrement d m, collected d next (decrement d m))
  unfolding occ
  Spends-visit_one seen rest next ds d m i =
      let waiting : 1 ≤ count_of d m = ground (arith, i.waits d, eq_refl d) in
      ground (arith, total-decrement d m waiting, length-append next (d ∷ []))

  pub visit-Inv :
      (seen rest next ds : List String) (m : Counts)
      → Inv all seen rest next ds m
      → Inv all seen rest (visit ds (m, next)).1 [] (visit ds (m, next)).0
        × Spends (m, next) (visit ds (m, next))
  unfolding visit
  visit-Inv seen rest next [] m i = (i, omega arith)
  visit-Inv seen rest next (d ∷ ds) m i =
      let j = Inv-visit_one seen rest next ds d m i in
      let spent = Spends-visit_one seen rest next ds d m i in
      let (k, more) = visit-Inv seen rest (collected d next (decrement d m)) ds (decrement d m) j in
      (k, omega (arith, spent, more))

  -- The next service of the level is visited: it owes a visit to each of its dependents.
  Inv-enter :
      (seen cur next : List String) (n : String) (m : Counts)
      → Distinct all
      → Inv all seen (n ∷ cur) next [] m
      → Inv all (n ∷ seen) cur next (dependents all n) m
  unfolding occ
  Inv-enter seen cur next n m distinct i =
      let fresh : occ n seen ≡ 0 = ground (arith, i.once n, eq_refl n) in
      record {
        once = λ x. ground (arith, i.once x);
        done = λ x. ground (arith, i.done x);
        waits = λ x. ground (
          arith,
          i.waits x,
          left_of-cons n seen (deps_of all x) fresh,
          occ-dependents all n x distinct,
        );
        reached = λ x. ground (arith, i.reached x);
        keyed = i.keyed;
        keys = i.keys;
      }

  -- The services visited when a level is done.
  abbrev pub visited : List String → List String → List String
  visited [] seen = seen
  visited (n ∷ cur) seen = visited cur (n ∷ seen)

  pub round-Inv :
      (seen cur next : List String) (m : Counts)
      → Distinct all
      → Inv all seen cur next [] m
      → Inv all (visited cur seen) [] (round all cur (m, next)).1 [] (round all cur (m, next)).0
        × Spends (m, next) (round all cur (m, next))
  unfolding round
  round-Inv seen [] next m distinct i = (i, omega arith)
  round-Inv seen (n ∷ cur) next m distinct i =
      let s = visit (dependents all n) (m, next) in
      let (j, spent) =
        visit-Inv (n ∷ seen) cur next (dependents all n) m
          (Inv-enter seen cur next n m distinct i) in
      let (k, more) = round-Inv (n ∷ seen) cur s.1 s.0 distinct j in (k, omega (arith, spent, more))
