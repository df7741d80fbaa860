-- ===== src/Manifest/Levels/Keys.antt =====
-- The keys of the counts, and the dependencies that are services.
use poor_man_cluster.Common.{
  ◌≤◌, String, ◌==◌, eq_iff, eq_refl, ◌≡◌, refl, Bool, true, false, ◌||◌, List, [], ◌∷◌, arith, eqb,
  Bool-cases, Option-cases, ltb, ◌∙◌, none, inl, inr,
}
use poor_man_cluster.Manifest.Ir.{IrService}
use poor_man_cluster.Manifest.Levels.{
  Counts, is_service, pending, count_of, decrement, any_pending, unknown_in, unknown,
}
use poor_man_cluster.Manifest.Levels.Counting.{occ, left_of, deps_of, Distinct}

unfoldable pub is_key : String → Counts → Bool
is_key x [] = false
is_key x ((n, c) ∷ m) = n == x || is_key x m

abbrev pub DistinctKeys : Counts → Type 0
DistinctKeys [] = Unit
DistinctKeys ((n, c) ∷ m) = (is_key n m ≡ false) × DistinctKeys m

pub is_key-decrement : (d x : String) (m : Counts) → is_key x (decrement d m) ≡ is_key x m
unfolding is_key decrement
is_key-decrement d x [] = refl
is_key-decrement d x ((n, c) ∷ m) = ground (arith, is_key-decrement d x m)

pub DistinctKeys-decrement :
    (d : String) (m : Counts) → DistinctKeys m → DistinctKeys (decrement d m)
unfolding decrement
DistinctKeys-decrement d [] h = tt
DistinctKeys-decrement d ((n, c) ∷ m) (new, h) =
    ground (arith, is_key-decrement d n m, DistinctKeys-decrement d m h)

pub is_key-pending : (ss : List IrService) (x : String) → is_key x (pending ss) ≡ is_service ss x
unfolding is_key pending is_service
is_key-pending [] x = refl
is_key-pending (s ∷ ss) x = ground (arith, is_key-pending ss x)

pub DistinctKeys-pending : (ss : List IrService) → Distinct ss → DistinctKeys (pending ss)
unfolding pending
DistinctKeys-pending [] h = tt
DistinctKeys-pending (s ∷ ss) (new, h) = (is_key-pending ss s.name ∙ new, DistinctKeys-pending ss h)

is_key-differs :
    (n x : String) (m : Counts) → is_key n m ≡ false → is_key x m ≡ true → (n == x) ≡ false
is_key-differs n x m h k = elim (Bool-cases (n == x)) [
  | inl same ↦ let e = (eq_iff n x).0 same in absurd (ground (arith, e, h, k))
  | inr differs ↦ differs
]

-- If something is pending, some key is.
pub any_pending-key :
    (m : Counts)
    → DistinctKeys m
    → any_pending m ≡ true
    → (x : String) × (is_key x m ≡ true) × (1 ≤ count_of x m)
unfolding any_pending is_key count_of
any_pending-key [] h p = absurd (ground arith)
any_pending-key ((n, c) ∷ m) (new, h) p = elim (Bool-cases (ltb 0 c)) [
  | inl waits ↦ (n, rw (eq_refl n) refl, rw (eq_refl n) (ground arith))
  | inr free ↦
      let (x, key, waits) = any_pending-key m h (ground arith) in
      let differs = is_key-differs n x m new key in (x, ground (arith, key), rw differs waits)
]

-- A dependency is left.
pub left_of-some :
    (seen deps : List String)
    → 1 ≤ left_of seen deps
    → (d : String) × (1 ≤ occ d deps) × (occ d seen ≡ 0)
unfolding left_of occ
left_of-some seen [] h = absurd (omega arith)
left_of-some seen (d ∷ deps) h = elim (Bool-cases (eqb (occ d seen) 0)) [
  | inl missing ↦ (d, ground (arith, eq_refl d), ground arith)
  | inr there ↦
      let (x, stands, unseen) = left_of-some seen deps (ground arith) in
      (x, ground (arith, stands), unseen)
]

unknown_in-none :
    (all : List IrService) (deps : List String) (d : String)
    → unknown_in all deps ≡ none
    → 1 ≤ occ d deps
    → is_service all d ≡ true
unfolding unknown_in occ
unknown_in-none all [] d h k = absurd (omega arith)
unknown_in-none all (x ∷ deps) d h k = elim (Bool-cases (is_service all x)) [
  | inr missing ↦ absurd (ground (arith, missing))
  | inl there ↦ elim (Bool-cases (x == d)) [
    | inl same ↦ let e = (eq_iff x d).0 same in ground (arith, e, there)
    | inr differs ↦ unknown_in-none all deps d (ground (arith, there)) (ground (arith, differs))
  ]
]

-- If no dependency is unknown, those of a service are services.
pub unknown-none :
    (all ss : List IrService) (x d : String)
    → unknown all ss ≡ none
    → 1 ≤ occ d (deps_of ss x)
    → is_service all d ≡ true
unfolding unknown deps_of
unknown-none all [] x d h k = absurd (unfold occ in omega arith)
unknown-none all (s ∷ ss) x d h k = elim (Option-cases (unknown_in all s.depends_on)) [
  | inr (e, missing) ↦ absurd (ground (arith, missing))
  | inl known ↦ elim (Bool-cases (s.name == x)) [
    | inl here ↦ unknown_in-none all s.depends_on d known (ground (arith, here))
    | inr later ↦ unknown-none all ss x d (ground (arith, known)) (ground (arith, later))
  ]
]
