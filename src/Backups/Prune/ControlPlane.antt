-- ===== src/Backups/Prune/ControlPlane.antt =====
-- The control-plane archives that stay.
use poor_man_cluster.Common.{
  ℕ, zero, suc, ◌+◌, ◌-◌, ◌≤◌, String, ◌≡◌, refl, ap, ◌∙◌, Bool, true, false, Option, none, some,
  List, [], ◌∷◌, arith, leb, length, take, All, Bool-cases, inl, inr,
}
use poor_man_cluster.Common.Errors.{Error, ok}
use poor_man_cluster.Backups.Prune.{Counts, stopped, delete_archives, prune_control_plane}

-- Two stores answer alike to the deletion of a key.
abbrev pub Alike : (String → Option Error) → (String → Option Error) → String → Type 0
Alike f g key = f key ≡ g key

delete_archives_congr :
    (f g : String → Option Error) (dry : Bool) (total deleted : ℕ) (keys : List String)
    → All (Alike f g) keys
    → delete_archives f dry total deleted keys ≡ delete_archives g dry total deleted keys
unfolding delete_archives
delete_archives_congr f g dry total deleted [] all = refl
delete_archives_congr f g true total deleted (key ∷ keys) (e, all) =
    delete_archives_congr f g true total (suc deleted) keys all
delete_archives_congr f g false total deleted (key ∷ keys) (e, all) =
    rw (e, delete_archives_congr f g false total (suc deleted) keys all) refl

delete_archives_done :
    (f : String → Option Error) (dry : Bool) (total deleted : ℕ) (keys : List String)
    → All (λ (key : String). f key ≡ none) keys
    → delete_archives f dry total deleted keys ≡ record {
      deleted = deleted + length keys;
      kept = total - (deleted + length keys);
      error = none;
    }
unfolding delete_archives
delete_archives_done f dry total deleted [] all =
    let e : deleted + 0 ≡ deleted = omega arith in rw e refl
delete_archives_done f true total deleted (key ∷ keys) (h, all) =
    let e : deleted + suc (length keys) ≡ suc deleted + length keys = omega arith in
    rw e (delete_archives_done f true total (suc deleted) keys all)
delete_archives_done f false total deleted (key ∷ keys) (h, all) =
    let e : deleted + suc (length keys) ≡ suc deleted + length keys = omega arith in
    rw (e, h) (delete_archives_done f false total (suc deleted) keys all)

stopped-sum :
    (total deleted : ℕ) (rest : Counts) (answer : Option Error)
    → deleted ≤ total
    → rest.deleted + rest.kept ≡ total
    → (stopped total deleted rest answer).deleted + (stopped total deleted rest answer).kept ≡ total
stopped-sum total deleted rest (some e) h k = omega arith
stopped-sum total deleted rest none h k = k

delete_archives-sum :
    (f : String → Option Error) (dry : Bool) (total deleted : ℕ) (keys : List String)
    → deleted + length keys ≤ total
    → (delete_archives f dry total deleted keys).deleted
        + (delete_archives f dry total deleted keys).kept
      ≡ total
unfolding delete_archives
delete_archives-sum f dry total deleted [] h = omega arith
delete_archives-sum f true total deleted (key ∷ keys) h =
    delete_archives-sum f true total (suc deleted) keys (omega arith)
delete_archives-sum f false total deleted (key ∷ keys) h =
    stopped-sum total deleted (delete_archives f false total (suc deleted) keys) (f key)
      (omega arith) (delete_archives-sum f false total (suc deleted) keys (omega arith))

take-length : (n : ℕ) (xs : List String) → n ≤ length xs → length (take n xs) ≡ n
take-length zero xs h = refl
take-length (suc n) [] h = absurd (omega arith)
take-length (suc n) (x ∷ xs) h = omega (arith, take-length n xs (omega arith))

module _ (sort : List String → List String) (names : List String) where
  -- The archives that may be deleted: all but the last two of the sorted names.
  abbrev pub older : List String
  older = take (length (sort names) - 2) (sort names)

  -- The counts of a prune of the control-plane archives always account for every archive; how a
  -- store would answer to the deletion of the last two names makes no difference to the result;
  -- and if it deletes each of the others, two are kept, or all if there are fewer.
  pub last_two_kept :
      (f g : String → Option Error) (dry : Bool)
      → All (Alike f g) older
      → ((prune_control_plane sort (ok names) f dry).deleted
            + (prune_control_plane sort (ok names) f dry).kept
          ≡ length (sort names))
        × (prune_control_plane sort (ok names) f dry ≡ prune_control_plane sort (ok names) g dry)
        × (All (λ (key : String). f key ≡ none) older
            → 2 ≤ length (sort names)
            → (prune_control_plane sort (ok names) f dry).kept ≡ 2)
  unfolding prune_control_plane
  last_two_kept f g dry alike =
      let n = length (sort names) in
      elim (Bool-cases (leb n 2)) [
        | inl few ↦ rw few (omega arith, refl, λ all many. ground (arith, few, many))
        | inr more ↦
            let less : n - 2 ≤ n = omega arith in
            let many : 3 ≤ n = ground (arith, more) in
            let len = take-length (n - 2) (sort names) less in
            rw more (
              delete_archives-sum f dry n 0 older (omega (arith, len)),
              delete_archives_congr f g dry n 0 older alike,
              λ all two.
                  ap (λ (c : Counts). c.kept) (delete_archives_done f dry n 0 older all)
                  ∙ omega (arith, len, many),
            )
      ]
