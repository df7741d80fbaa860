-- ===== src/Manifest/Levels/Counting.antt =====
-- Occurrences: how often a text stands in a list, and what is left of a list behind some texts.
use poor_man_cluster.Common.{
  ℕ, suc, ◌+◌, ◌-◌, ◌≤◌, String, ◌==◌, eq_iff, eq_refl, ◌≡◌, refl, false, List, [], ◌∷◌, ◌++◌,
  arith, if◌then◌else◌, eqb, length, All, Bool-cases, inl, inr,
}
use poor_man_cluster.Manifest.Ir.{IrService}
use poor_man_cluster.Manifest.Levels.{
  Counts, is_service, pending, named_for, dependents, count_of, decrement, first_level, total,
  any_pending,
}

unfoldable pub occ : String → List String → ℕ
occ x [] = 0
occ x (y ∷ ys) = if y == x then suc (occ x ys) else occ x ys

pub occ-append : (x : String) (ys zs : List String) → occ x (ys ++ zs) ≡ occ x ys + occ x zs
unfolding occ
occ-append x [] zs = omega arith
occ-append x (y ∷ ys) zs = ground (arith, occ-append x ys zs)

-- How many of some dependencies are not among `seen`.
unfoldable pub left_of : List String → List String → ℕ
left_of seen [] = 0
left_of seen (d ∷ deps) = if eqb (occ d seen) 0 then suc (left_of seen deps) else left_of seen deps

pub left_of-cons :
    (n : String) (seen deps : List String)
    → occ n seen ≡ 0
    → left_of (n ∷ seen) deps + occ n deps ≡ left_of seen deps
unfolding left_of occ
left_of-cons n seen [] h = refl
left_of-cons n seen (d ∷ deps) h = elim (Bool-cases (d == n)) [
  | inl same ↦ ground (arith, (eq_iff d n).0 same, eq_refl n, h, left_of-cons n seen deps h)
  | inr differs ↦ ground (arith, eq_iff d n, eq_iff n d, h, left_of-cons n seen deps h)
]

pub left_of-none : (deps : List String) → left_of [] deps ≡ length deps
unfolding left_of occ
left_of-none [] = refl
left_of-none (d ∷ deps) = ground (arith, left_of-none deps)

pub left_of-All :
    (seen deps : List String) → left_of seen deps ≡ 0 → All (λ (d : String). 1 ≤ occ d seen) deps
unfolding left_of
left_of-All seen [] h = tt
left_of-All seen (d ∷ deps) h = ground (arith, left_of-All seen deps)

-- The dependencies of the service of a name.
unfoldable pub deps_of : List IrService → String → List String
deps_of [] x = []
deps_of (s ∷ ss) x = if s.name == x then s.depends_on else deps_of ss x

-- Every service has its own name.
abbrev pub Distinct : List IrService → Type 0
Distinct [] = Unit
Distinct (s ∷ ss) = (is_service ss s.name ≡ false) × Distinct ss

occ-named_for :
    (dep x name : String) (deps : List String)
    → occ x (named_for dep name deps) ≡ (if name == x then occ dep deps else 0)
unfolding occ named_for
occ-named_for dep x name [] = ground arith
occ-named_for dep x name (d ∷ deps) = ground (arith, occ-named_for dep x name deps)

occ-dependents_none :
    (ss : List IrService) (dep x : String) → is_service ss x ≡ false → occ x (dependents ss dep) ≡ 0
unfolding is_service dependents occ
occ-dependents_none [] dep x h = refl
occ-dependents_none (s ∷ ss) dep x h = ground (
  arith,
  occ-append x (named_for dep s.name s.depends_on) (dependents ss dep),
  occ-named_for dep x s.name s.depends_on,
  occ-dependents_none ss dep x,
)

-- A service is a dependent of another as often as it names it.
pub occ-dependents :
    (ss : List IrService) (dep x : String)
    → Distinct ss
    → occ x (dependents ss dep) ≡ occ dep (deps_of ss x)
unfolding dependents deps_of occ is_service
occ-dependents [] dep x h = refl
occ-dependents (s ∷ ss) dep x (new, h) = ground (
  arith,
  eq_iff s.name x,
  occ-append x (named_for dep s.name s.depends_on) (dependents ss dep),
  occ-named_for dep x s.name s.depends_on,
  occ-dependents_none ss dep x,
  occ-dependents ss dep x h,
)

pub count_of-decrement :
    (d x : String) (m : Counts)
    → count_of x (decrement d m) ≡ (if d == x then count_of x m - 1 else count_of x m)
unfolding count_of decrement
count_of-decrement d x [] = ground arith
count_of-decrement d x ((n, c) ∷ m) =
    ground (arith, eq_iff n d, eq_iff n x, eq_iff d x, count_of-decrement d x m)

pub total-decrement :
    (d : String) (m : Counts) → 1 ≤ count_of d m → suc (total (decrement d m)) ≡ total m
unfolding count_of decrement total
total-decrement d [] h = absurd (omega arith)
total-decrement d ((n, c) ∷ m) h = ground (arith, total-decrement d m)

pub count_of-pending :
    (ss : List IrService) (x : String) → count_of x (pending ss) ≡ length (deps_of ss x)
unfolding count_of pending deps_of
count_of-pending [] x = refl
count_of-pending (s ∷ ss) x = ground (arith, count_of-pending ss x)

occ-first_level_none :
    (ss : List IrService) (x : String)
    → is_service ss x ≡ false
    → occ x (first_level (pending ss)) ≡ 0
unfolding is_service pending first_level occ
occ-first_level_none [] x h = refl
occ-first_level_none (s ∷ ss) x h = ground (arith, occ-first_level_none ss x)

-- The first level has each service without dependencies once, and nothing else.
pub occ-first_level :
    (ss : List IrService) (x : String)
    → Distinct ss
    → occ x (first_level (pending ss))
      ≡ (if is_service ss x then (if eqb (length (deps_of ss x)) 0 then 1 else 0) else 0)
unfolding is_service pending first_level deps_of occ
occ-first_level [] x h = refl
occ-first_level (s ∷ ss) x (new, h) = elim (Bool-cases (s.name == x)) [
  | inl same ↦
      let e = (eq_iff s.name x).0 same in
      let none_there = occ-first_level_none ss s.name new in ground (arith, same, e, none_there)
  | inr differs ↦ ground (arith, differs, occ-first_level ss x h)
]

pub any_pending-count_of : (m : Counts) (x : String) → any_pending m ≡ false → count_of x m ≡ 0
unfolding any_pending count_of
any_pending-count_of [] x h = refl
any_pending-count_of ((n, c) ∷ m) x h = ground (arith, any_pending-count_of m x)
