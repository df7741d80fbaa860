-- ===== src/Backups/Retention/Floor.antt =====
-- The newest artifacts of a group, which no plan deletes.
use poor_man_cluster.Common.{
  ℕ, zero, suc, ◌+◌, ◌≤◌, ◌≡◌, refl, true, not, List, [], ◌∷◌, arith, sym, subst, ltb, All, length,
  take, Bool-cases, inl, inr,
}
use poor_man_cluster.Backups.Retention.{
  Retention, Artifact, floor_of, day_of, should_delete, newest_per_day, is_named, judge,
}

abbrev pub drop : ℕ → List Artifact → List Artifact
drop zero arts = arts
drop (suc n) [] = []
drop (suc n) (a ∷ arts) = drop n arts

module _ (policy : Retention) (now : ℕ) (arts : List Artifact) where
  -- The rule for an artifact behind the floor.
  abbrev pub Goes : Artifact → Type 0
  Goes a = should_delete a.at policy now (is_named (newest_per_day (day_of a) arts) a) ≡ true

  pub judge-floor :
      (n i : ℕ) (rest : List Artifact)
      → n + i ≤ floor_of policy
      → (judge policy now arts i rest).del ≡ (judge policy now arts (n + i) (drop n rest)).del
  unfolding judge
  judge-floor zero i rest h = let e : 0 + i ≡ i = omega arith in rw e refl
  judge-floor (suc n) i [] h = refl
  judge-floor (suc n) i (a ∷ rest) h =
      let below : ltb i (floor_of policy) ≡ true = ground arith in
      let e : suc n + i ≡ n + suc i = omega arith in
      rw (below, e) (judge-floor n (suc i) rest (omega arith))

  pub judge-Goes : (i : ℕ) (rest : List Artifact) → All Goes (judge policy now arts i rest).del
  unfolding judge
  judge-Goes i [] = tt
  judge-Goes i (a ∷ rest) = ground (arith, judge-Goes (suc i) rest)

  pub judge-partition :
      (i : ℕ) (rest : List Artifact)
      → length (judge policy now arts i rest).del + (judge policy now arts i rest).kept
        ≡ length rest
  unfolding judge
  judge-partition i [] = refl
  judge-partition i (a ∷ rest) = ground (arith, judge-partition (suc i) rest)

  -- What holds of every artifact that is judged holds of those that are deleted.
  pub judge-All :
      (P : Artifact → Type 0) (i : ℕ) (rest : List Artifact)
      → All P rest
      → All P (judge policy now arts i rest).del
  unfolding judge
  judge-All P i [] all = tt
  judge-All P i (a ∷ rest) (p, all) = ground (arith, judge-All P (suc i) rest all)

-- Some of the artifacts of a list, each at most once and in the list's order.
pub data Subsequence : List Artifact → List Artifact → Type 0 where
  none_of : Subsequence [] []
  left_out :
      {a : Artifact} {ds arts : List Artifact} → Subsequence ds arts → Subsequence ds (a ∷ arts)
  taken :
      {a : Artifact} {ds arts : List Artifact}
      → Subsequence ds arts
      → Subsequence (a ∷ ds) (a ∷ arts)

judge-Subsequence :
    (policy : Retention) (now : ℕ) (arts : List Artifact) (i : ℕ) (rest : List Artifact)
    → Subsequence (judge policy now arts i rest).del rest
unfolding judge
judge-Subsequence policy now arts i [] = none_of
judge-Subsequence policy now arts i (a ∷ rest) =
    let later = judge-Subsequence policy now arts (suc i) rest in
    elim (Bool-cases (ltb i (floor_of policy))) [
      | inl below ↦ rw below (left_out later)
      | inr behind ↦
          elim (Bool-cases
            (not (should_delete a.at policy now (is_named (newest_per_day (day_of a) arts) a)))) [
              | inl stays ↦ rw (behind, stays) (left_out later)
              | inr goes ↦ rw (behind, goes) (taken later)
            ]
    ]

-- From the newest to the oldest.
abbrev pub Descending : List Artifact → Type 0
Descending [] = Unit
Descending (a ∷ arts) = All (λ (b : Artifact). b.at ≤ a.at) arts × Descending arts

-- An artifact that is not newer than any of some others.
abbrev pub NotNewer : List Artifact → Artifact → Type 0
NotNewer kept d = All (λ (k : Artifact). d.at ≤ k.at) kept

NotNewer-cons :
    (a : Artifact) (kept ds : List Artifact)
    → All (λ (d : Artifact). d.at ≤ a.at) ds
    → All (NotNewer kept) ds
    → All (NotNewer (a ∷ kept)) ds
NotNewer-cons a kept [] all more = tt
NotNewer-cons a kept (d ∷ ds) (p, all) (q, more) = ((p, q), NotNewer-cons a kept ds all more)

All-drop : (P : Artifact → Type 0) (n : ℕ) (arts : List Artifact) → All P arts → All P (drop n arts)
All-drop P zero arts all = all
All-drop P (suc n) [] all = tt
All-drop P (suc n) (a ∷ arts) (p, all) = All-drop P n arts all

Unit-All : (ds : List Artifact) → All (NotNewer []) ds
Unit-All [] = tt
Unit-All (d ∷ ds) = (tt, Unit-All ds)

drop-NotNewer :
    (n : ℕ) (arts : List Artifact) → Descending arts → All (NotNewer (take n arts)) (drop n arts)
drop-NotNewer zero arts h = Unit-All arts
drop-NotNewer (suc n) [] h = tt
drop-NotNewer (suc n) (a ∷ arts) (below, h) =
    NotNewer-cons a (take n arts) (drop n arts)
      (All-drop (λ (d : Artifact). d.at ≤ a.at) n arts below) (drop-NotNewer n arts h)

-- In a group sorted from the newest on, what is deleted is a subsequence of what stands behind the
-- newest ones, at least one and as many as `KeepLast` says, so none of these is deleted; and no
-- artifact that is deleted is newer than any of these.
pub newest_kept :
    (policy : Retention) (now : ℕ) (arts : List Artifact)
    → Descending arts
    → (1 ≤ floor_of policy)
      × Subsequence (judge policy now arts 0 arts).del (drop (floor_of policy) arts)
      × All (NotNewer (take (floor_of policy) arts)) (judge policy now arts 0 arts).del
newest_kept policy now arts h =
    let n = floor_of policy in
    let behind : (judge policy now arts 0 arts).del
        ≡ (judge policy now arts (n + 0) (drop n arts)).del =
      judge-floor policy now arts n 0 arts (omega arith) in
    (
      ground arith,
      subst (λ (ds : List Artifact). Subsequence ds (drop n arts)) (sym behind)
          (judge-Subsequence policy now arts (n + 0) (drop n arts)),
      subst (All (NotNewer (take n arts))) (sym behind) (
          judge-All policy now arts (NotNewer (take n arts)) (n + 0) (drop n arts)
            (drop-NotNewer n arts h)),
    )
