-- ===== src/Backups/Retention/Windows.antt =====
-- The two windows: everything is kept in the dense one, and one artifact a day in the sparse one.
use poor_man_cluster.Common.{
  ℕ, suc, ◌+◌, ◌*◌, ◌≤◌, ◌<◌, ◌≡◌, ◌≢◌, refl, sym, subst, ap, ◌∙◌, eq_refl, Bool, true, false, some,
  List, [], ◌∷◌, arith, ltb, eqb, eqb→eq, All, Bool-cases, ◌⊎◌, inl, inr,
}
use poor_man_cluster.Backups.Retention.{
  Retention, Artifact, hour, day, floor_of, day_of, should_delete, newest_per_day, is_named, judge,
}
use poor_man_cluster.Backups.Retention.Floor.{Goes, drop, judge-Goes, judge-floor, Descending}

module _ (policy : Retention) (now : ℕ) (arts : List Artifact) where
  -- Not younger than the dense window.
  abbrev pub IsOld : Artifact → Type 0
  IsOld a = a.at + policy.keep_hours * hour ≤ now

  -- Out of both windows.
  abbrev pub IsExpired : Artifact → Type 0
  IsExpired a = IsOld a × (a.at + policy.keep_days * day < now)

  Goes-IsOld : (a : Artifact) → Goes policy now arts a → IsOld a
  unfolding should_delete
  Goes-IsOld a h = ground arith

  IsOld-All : (ds : List Artifact) → All (Goes policy now arts) ds → All IsOld ds
  IsOld-All [] all = tt
  IsOld-All (d ∷ ds) (p, all) = (Goes-IsOld d p, IsOld-All ds all)

  -- Nothing younger than `KeepHours` is deleted.
  pub dense_kept : All IsOld (judge policy now arts 0 arts).del
  dense_kept = IsOld-All (judge policy now arts 0 arts).del (judge-Goes policy now arts 0 arts)

  -- The newest of its day goes only out of both windows.
  Goes-newest :
      (a : Artifact)
      → Goes policy now arts a
      → newest_per_day (day_of a) arts ≡ some a
      → IsExpired a
  unfolding should_delete
  Goes-newest a h newest =
      let named : is_named (newest_per_day (day_of a) arts) a ≡ true = rw newest (eq_refl a.name) in
      ground (arith, h, named)

  kept_unless_expired :
      (b : Artifact)
      → newest_per_day (day_of b) arts ≡ some b
      → now ≤ b.at + policy.keep_days * day
      → (ds : List Artifact) → All (Goes policy now arts) ds
      → All (λ (d : Artifact). d ≢ b) ds
  kept_unless_expired b newest young [] all = tt
  kept_unless_expired b newest young (d ∷ ds) (p, all) = (
    λ e.
        let (old, expired) = Goes-newest b (subst (Goes policy now arts) e p) newest in
        absurd (omega arith),
    kept_unless_expired b newest young ds all,
  )

abbrev pub IsIn : Artifact → List Artifact → Type 0
IsIn a [] = ⊥
IsIn a (x ∷ arts) = (a ≡ x) ⊎ IsIn a arts

All-IsIn :
    (P : Artifact → Type 0) (arts : List Artifact) (a : Artifact) → All P arts → IsIn a arts → P a
All-IsIn P [] a all m = absurd m
All-IsIn P (x ∷ arts) a (p, all) (inl e) = subst P (sym e) p
All-IsIn P (x ∷ arts) a (p, all) (inr m) = All-IsIn P arts a all m

-- An artifact of a sorted list has the newest of its day in it, with no earlier time.
newest_per_day-some :
    (arts : List Artifact) (a : Artifact)
    → Descending arts
    → IsIn a arts
    → (b : Artifact) × (newest_per_day (day_of a) arts ≡ some b)
      × (day_of b ≡ day_of a)
      × (a.at ≤ b.at)
unfolding newest_per_day
newest_per_day-some [] a h m = absurd m
newest_per_day-some (x ∷ arts) a (below, h) m = elim (Bool-cases (eqb (day_of x) (day_of a))) [
  | inl here ↦ (x, rw here refl, eqb→eq (day_of x) (day_of a) here, at_most m)
  | inr later ↦
      let (b, e, same, le) = newest_per_day-some arts a h (elsewhere m later) in
      (b, rw later e, same, le)
]
  where
    at_most : (a ≡ x) ⊎ IsIn a arts → a.at ≤ x.at
    at_most (inl e) = rw e (omega arith)
    at_most (inr m) = All-IsIn (λ (b : Artifact). b.at ≤ x.at) arts a below m

    elsewhere : (a ≡ x) ⊎ IsIn a arts → eqb (day_of x) (day_of a) ≡ false → IsIn a arts
    elsewhere (inl e) ne = absurd (ground (arith, ap day_of e))
    elsewhere (inr m) ne = m

-- In a group sorted from the newest on, every artifact that is no older than `KeepDays` has a day
-- whose newest artifact is of the group, is at least as new, and is not deleted.
pub day_covered :
    (policy : Retention) (now : ℕ) (arts : List Artifact) (a : Artifact)
    → Descending arts
    → IsIn a arts
    → now ≤ a.at + policy.keep_days * day
    → (b : Artifact) × (newest_per_day (day_of a) arts ≡ some b)
      × (day_of b ≡ day_of a)
      × (a.at ≤ b.at)
      × All (λ (d : Artifact). d ≢ b) (judge policy now arts 0 arts).del
day_covered policy now arts a h m young =
    let (b, newest, same, le) = newest_per_day-some arts a h m in
    let own : newest_per_day (day_of b) arts ≡ some b = rw same newest in
    (
      b,
      newest,
      same,
      le,
      kept_unless_expired policy now arts b own (omega arith) (judge policy now arts 0 arts).del
          (judge-Goes policy now arts 0 arts),
    )

should_delete-expired :
    (policy : Retention) (now : ℕ) (arts : List Artifact) (a : Artifact) (newest : Bool)
    → IsExpired policy now arts a
    → should_delete a.at policy now newest ≡ true
unfolding should_delete
should_delete-expired policy now arts a newest (old, expired) = ground arith

judge-expired :
    (policy : Retention) (now : ℕ) (arts : List Artifact) (i : ℕ) (rest : List Artifact)
    → floor_of policy ≤ i
    → All (IsExpired policy now arts) rest
    → (judge policy now arts i rest).del ≡ rest
unfolding judge
judge-expired policy now arts i [] h all = refl
judge-expired policy now arts i (a ∷ rest) h (old, all) =
    let later = judge-expired policy now arts (suc i) rest (omega arith) all in
    let expired =
      should_delete-expired policy now arts a (is_named (newest_per_day (day_of a) arts) a) old in
    let behind : ltb i (floor_of policy) ≡ false = ground arith in rw (behind, expired, later) refl

-- A group whose artifacts behind the newest ones are all out of both windows keeps these alone: the
-- others are deleted, every one of them.
pub expired_deleted :
    (policy : Retention) (now : ℕ) (arts : List Artifact)
    → All (IsExpired policy now arts) (drop (floor_of policy) arts)
    → (judge policy now arts 0 arts).del ≡ drop (floor_of policy) arts
expired_deleted policy now arts all =
    let n = floor_of policy in
    judge-floor policy now arts n 0 arts (omega arith)
    ∙ judge-expired policy now arts (n + 0) (drop n arts) (omega arith) all
