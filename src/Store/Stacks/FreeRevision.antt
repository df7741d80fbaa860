-- ===== src/Store/Stacks/FreeRevision.antt =====
-- The search for a free revision number.
use poor_man_cluster.Common.{
  ℕ, zero, suc, ◌+◌, ◌≤◌, ◌<◌, String, ◌≡◌, refl, true, false, List, [], ◌∷◌, arith, if◌then◌else◌,
  Bool-cases, length, inl, inr, eqb, eqb→eq, subst, ◌∙◌,
}
use poor_man_cluster.Common.Errors.{Result, ok, err}
use poor_man_cluster.Store.Stacks.{
  StackRevision, Tables, is_revision, has_revision, free_from, next_free_revision,
}

-- The numbers from `c` on, `n` of them, are all taken.
abbrev pub AllTaken : String → List StackRevision → ℕ → ℕ → Type 0
AllTaken name rs c n = (j : ℕ) → c ≤ j → j < c + n → has_revision name j rs ≡ true

-- What the search says when it returns a number, and when it gives up.
abbrev pub Found : String → List StackRevision → ℕ → ℕ → Result ℕ → Type 0
Found name rs c n (ok r) =
    (c ≤ r)
    × (r < c + n)
    × (has_revision name r rs ≡ false)
    × ((j : ℕ) → c ≤ j → j < r → has_revision name j rs ≡ true)
Found name rs c n (err e) = AllTaken name rs c n

-- One more taken number in front of those that are.
taken_from :
    (name : String) (rs : List StackRevision) (c e : ℕ)
    → has_revision name c rs ≡ true
    → ((j : ℕ) → c + 1 ≤ j → j < e → has_revision name j rs ≡ true)
    → (j : ℕ) → c ≤ j
    → j < e
    → has_revision name j rs ≡ true
taken_from name rs c e h f j p q = elim (Bool-cases (eqb c j)) [
  | inl same ↦ subst (λ x. has_revision name x rs ≡ true) (eqb→eq c j same) h
  | inr later ↦ f j (ground arith) q
]

Found-skip :
    (name : String) (rs : List StackRevision) (c n : ℕ) (r : Result ℕ)
    → has_revision name c rs ≡ true
    → Found name rs (c + 1) n r
    → Found name rs c (suc n) r
Found-skip name rs c n (ok r) h (a, b, d, e) =
    (omega arith, omega arith, d, taken_from name rs c r h e)
Found-skip name rs c n (err e) h f = λ j p q. taken_from name rs c (c + 1 + n) h f j p (omega arith)

free_from-Found :
    (n : ℕ) (name : String) (c : ℕ) (rs : List StackRevision)
    → Found name rs c n (free_from n name c rs)
unfolding free_from
free_from-Found zero name c rs = λ j p q. absurd (omega arith)
free_from-Found (suc n) name c rs = elim (Bool-cases (has_revision name c rs)) [
  | inl taken ↦ rw taken (Found-skip name rs c n _ taken (free_from-Found n name (c + 1) rs))
  | inr free ↦ rw free (omega arith, omega arith, free, λ j p q. absurd (omega arith))
]

drop_revision : String → ℕ → List StackRevision → List StackRevision
drop_revision name c [] = []
drop_revision name c (r ∷ rs) =
    let rest = drop_revision name c rs in if is_revision name c r then rest else r ∷ rest

length-drop_revision-le :
    (name : String) (c : ℕ) (rs : List StackRevision) → length (drop_revision name c rs) ≤ length rs
unfolding drop_revision
length-drop_revision-le name c [] = omega arith
length-drop_revision-le name c (r ∷ rs) = ground (arith, length-drop_revision-le name c rs)

length-drop_revision :
    (name : String) (c : ℕ) (rs : List StackRevision)
    → has_revision name c rs ≡ true
    → length (drop_revision name c rs) < length rs
unfolding drop_revision has_revision
length-drop_revision name c [] h = cc
length-drop_revision name c (r ∷ rs) h =
    ground (arith, length-drop_revision name c rs, length-drop_revision-le name c rs)

has_revision-drop_revision :
    (name : String) (c j : ℕ) (rs : List StackRevision)
    → c < j
    → has_revision name j (drop_revision name c rs) ≡ has_revision name j rs
unfolding drop_revision has_revision
has_revision-drop_revision name c j [] h = refl
has_revision-drop_revision name c j (r ∷ rs) h =
    ground (arith, has_revision-drop_revision name c j rs)

-- As many taken numbers need as many rows.
AllTaken-length :
    (n : ℕ) (name : String) (rs : List StackRevision) (c : ℕ) → AllTaken name rs c n → n ≤ length rs
AllTaken-length zero name rs c h = omega arith
AllTaken-length (suc n) name rs c h =
    let rest = drop_revision name c rs in
    let fewer = length-drop_revision name c rs (h c (omega arith) (omega arith)) in
    let later : AllTaken name rest (c + 1) n = λ j p q.
      has_revision-drop_revision name c j rs (omega arith) ∙ h j (omega arith) (omega arith) in
    omega (arith, AllTaken-length n name rest (c + 1) later)

-- While fewer than ten thousand revisions are stored, the search returns the smallest number from
-- the candidate on that is not a revision of the stack.
pub next_free_revision_total :
    (name : String) (candidate : ℕ) (t : Tables)
    → length t.revisions < 10000
    → (r : ℕ) × (next_free_revision name candidate t ≡ ok r)
      × (candidate ≤ r)
      × (has_revision name r t.revisions ≡ false)
      × ((j : ℕ) → candidate ≤ j → j < r → has_revision name j t.revisions ≡ true)
unfolding next_free_revision
next_free_revision_total name candidate t h =
    go (free_from 10000 name candidate t.revisions) refl
      (free_from-Found 10000 name candidate t.revisions)
  where
    go :
        (r : Result ℕ)
        → free_from 10000 name candidate t.revisions ≡ r
        → Found name t.revisions candidate 10000 r
        → (k : ℕ) × (free_from 10000 name candidate t.revisions ≡ ok k)
          × (candidate ≤ k)
          × (has_revision name k t.revisions ≡ false)
          × ((j : ℕ) → candidate ≤ j → j < k → has_revision name j t.revisions ≡ true)
    go (ok k) e (a, b, c, d) = (k, e, a, c, d)
    go (err x) e f = absurd (omega (arith, AllTaken-length 10000 name t.revisions candidate f))
