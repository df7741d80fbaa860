-- ===== src/Stacks/Drift/InSync.antt =====
-- When a stack is found in sync.
use poor_man_cluster.Common.{
  String, ◌==◌, eq_iff, ◌≡◌, refl, Bool, true, false, ◌&&◌, ◌||◌, Option, none, some, List, [], ◌∷◌,
  arith, Bool-cases, Option-cases, inl, inr, Map, lookup,
}
use poor_man_cluster.Stacks.Drift.{
  LiveService, Reason, live_labels, is_none_live, compared, compare_live,
}

-- Every wanted service is live.
pub all_live : Map String → List String → Bool
unfolding lookup
all_live live [] = true
all_live live (name ∷ want) =
    let rest = all_live live want in elim (lookup name live) [ none ↦ false | some got ↦ rest ]

-- Every wanted service is live, with the label.
pub all_labelled : Map String → String → List String → Bool
unfolding lookup
all_labelled live hash [] = true
all_labelled live hash (name ∷ want) =
    let rest = all_labelled live hash want in
    elim (lookup name live) [ none ↦ false | some got ↦ got == hash && rest ]

abbrev pub is_in_sync : Option Reason → Bool
is_in_sync none = true
is_in_sync (some r) = false

blank-hash : (got hash : String) → (hash == "") ≡ false → (got == "") ≡ true → (got == hash) ≡ false
blank-hash got hash h k = ground (arith, eq_iff got "", eq_iff got hash)

module _ (live : Map String) where
  all_labelled-all_live :
      (hash : String) (want : List String)
      → all_labelled live hash want ≡ true
      → all_live live want ≡ true
  unfolding all_live all_labelled
  all_labelled-all_live hash [] h = refl
  all_labelled-all_live hash (name ∷ want) h = ground (arith, all_labelled-all_live hash want)

  compared-no_hash :
      (want : List String) (a b : Bool) (hash : String)
      → (hash == "") ≡ true
      → (a && b) ≡ false
      → is_in_sync (compared live hash want a b) ≡ all_live live want
  unfolding compared all_live
  compared-no_hash [] a b hash h k = ground arith
  compared-no_hash (name ∷ want) a b hash h k = ground (arith, compared-no_hash want a b hash)

  -- Once a service was seen without the label, no end is in sync.
  compared-unlabelled :
      (want : List String) (a : Bool) (hash : String)
      → (hash == "") ≡ false
      → is_in_sync (compared live hash want a true) ≡ false
  unfolding compared
  compared-unlabelled [] a hash h = ground arith
  compared-unlabelled (name ∷ want) a hash h =
      ground (arith, compared-unlabelled want a hash, compared-unlabelled want true hash)

  compared-labelled :
      (want : List String) (hash : String)
      → (hash == "") ≡ false
      → is_in_sync (compared live hash want true false) ≡ all_labelled live hash want
  unfolding compared all_labelled
  compared-labelled [] hash h = ground arith
  compared-labelled (name ∷ want) hash h = elim (Option-cases (lookup name live)) [
    | inl gone ↦ ground arith
    | inr (got, here) ↦ ground (
      arith,
      blank-hash got hash h,
      compared-labelled want hash,
      compared-unlabelled want true hash,
    )
  ]

  -- Before any service was seen with the label or without it.
  compared-start :
      (name : String) (want : List String) (hash : String)
      → is_in_sync (compared live hash (name ∷ want) false false)
        ≡ (all_live live (name ∷ want) && (hash == "" || all_labelled live hash (name ∷ want)))
  unfolding compared all_live all_labelled
  compared-start name want hash = elim (Option-cases (lookup name live)) [
    | inl gone ↦ ground arith
    | inr (got, here) ↦ ground (
      arith,
      blank-hash got hash,
      compared-no_hash want false false hash,
      compared-labelled want hash,
      compared-unlabelled want false hash,
      all_labelled-all_live hash want,
    )
  ]

none_live-all_live :
    (live : Map String) (name : String) (want : List String)
    → is_none_live live ≡ true
    → all_live live (name ∷ want) ≡ false
unfolding all_live lookup
none_live-all_live [] name want h = refl
none_live-all_live (e ∷ live) name want h = absurd (ground arith)

-- A stack whose compose file names a service is found in sync exactly if every service of
-- the file is live and, where the file carries a hash, has the label of that hash.
pub compare_live-in_sync :
    (stack hash name : String) (want : List String) (services : List LiveService)
    → is_in_sync (compare_live stack (name ∷ want) hash services) ≡ (
        all_live (live_labels stack [] services) (name ∷ want)
        && (hash == "" || all_labelled (live_labels stack [] services) hash (name ∷ want)))
unfolding compare_live
compare_live-in_sync stack hash name want services =
    elim (Bool-cases (is_none_live (live_labels stack [] services))) [
      | inl none_live ↦
          rw (none_live, none_live-all_live (live_labels stack [] services) name want none_live)
            refl
      | inr some_live ↦ rw some_live (compared-start (live_labels stack [] services) name want hash)
    ]
