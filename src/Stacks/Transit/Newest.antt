-- ===== src/Stacks/Transit/Newest.antt =====
-- Which archive of the object store a move restores.
use poor_man_cluster.Common.{
  ◌≤◌, String, ◌==◌, ◌≡◌, refl, ◌∙◌, eq_iff, true, false, ◌⊎◌, inl, inr, Option, none, some, List,
  [], ◌∷◌, arith, All, Bool-cases, ltb,
}
use poor_man_cluster.Common.Errors.{Result, ok, err}
use poor_man_cluster.Common.Text.{has_suffix}
use text.Mathlib.Text.{starts_with}
use poor_man_cluster.Stacks.Transit.{
  Object, is_candidate, newer_of, newest_from, key_of, newest_archive_object, archive_node_id,
}

-- Where an object stands in a listing.
pub data In (o : Object) : List Object → Type 0 where
  here : {os : List Object} → In o (o ∷ os)
  there : {x : Object} {os : List Object} → In o os → In o (x ∷ os)

-- An object that the candidates of a listing are not newer than.
abbrev pub NoNewer : String → Object → List Object → Type 0
NoNewer source o os =
    All (λ (x : Object). is_candidate source x ≡ true → x.last_modified ≤ o.last_modified) os

newer_of-le :
    (f o : Object)
    → (f.last_modified ≤ (newer_of (some f) o).last_modified)
      × (o.last_modified ≤ (newer_of (some f) o).last_modified)
newer_of-le f o = ground arith

newer_of-either : (f o : Object) → (newer_of (some f) o ≡ f) ⊎ (newer_of (some f) o ≡ o)
newer_of-either f o = elim (Bool-cases (ltb f.last_modified o.last_modified)) [
  | inl newer ↦ inr (rw newer refl)
  | inr older ↦ inl (rw older refl)
]

-- An object that replaces `f` in a search over a listing.
abbrev FoundFrom : String → Object → List Object → Object → Type 0
FoundFrom source f os o =
    ((o ≡ f) ⊎ ((is_candidate source o ≡ true) × In o os))
    × (f.last_modified ≤ o.last_modified)
    × NoNewer source o os

FoundFrom-step :
    (source : String) (f x o : Object) (os : List Object)
    → is_candidate source x ≡ true
    → FoundFrom source (newer_of (some f) x) os o
    → FoundFrom source f (x ∷ os) o
FoundFrom-step source f x o os c (inr (d, i), le, all) =
    (inr (d, there i), omega (arith, newer_of-le f x), (λ _. omega (arith, newer_of-le f x), all))
FoundFrom-step source f x o os c (inl e, le, all) = (
  elim (newer_of-either f x) [
    | inl old ↦ inl (e ∙ old)
    | inr new ↦ inr (rw (e, new) c, rw (e, new) here)
  ],
  omega (arith, newer_of-le f x),
  (λ _. omega (arith, newer_of-le f x), all),
)

newest_from-some :
    (source : String) (f : Object) (os : List Object)
    → (o : Object) × (newest_from source (some f) os ≡ some o) × FoundFrom source f os o
unfolding newest_from
newest_from-some source f [] = (f, refl, (inl refl, omega arith, tt))
newest_from-some source f (x ∷ os) = elim (Bool-cases (is_candidate source x)) [
  | inl c ↦
      let (o, e, found) = newest_from-some source (newer_of (some f) x) os in
      (o, rw c e, FoundFrom-step source f x o os c found)
  | inr c ↦
      let (o, e, (which, le, all)) = newest_from-some source f os in
      (
        o,
        rw c e,
        (
          elim which [ inl same ↦ inl same | inr (d, i) ↦ inr (d, there i) ],
          le,
          (λ d. absurd (ground (arith, c)), all),
        ),
      )
]

-- What a search with nothing at hand finds.
abbrev pub NewestOf : String → List Object → Option Object → Type 0
NewestOf source os none = All (λ (x : Object). is_candidate source x ≡ false) os
NewestOf source os (some o) = (is_candidate source o ≡ true) × In o os × NoNewer source o os

NewestOf-skip :
    (source : String) (x : Object) (os : List Object) (found : Option Object)
    → is_candidate source x ≡ false
    → NewestOf source os found
    → NewestOf source (x ∷ os) found
NewestOf-skip source x os none c h = (c, h)
NewestOf-skip source x os (some o) c (d, i, all) =
    (d, there i, (λ e. absurd (ground (arith, c)), all))

newest_from-NewestOf :
    (source : String) (os : List Object) → NewestOf source os (newest_from source none os)
unfolding newest_from
newest_from-NewestOf source [] = tt
newest_from-NewestOf source (x ∷ os) = elim (Bool-cases (is_candidate source x)) [
  | inr c ↦ rw c (NewestOf-skip source x os _ c (newest_from-NewestOf source os))
  | inl c ↦
      let (o, e, (which, le, all)) = newest_from-some source x os in
      rw (c, e)
        (elim which [
          | inl same ↦ (rw same c, rw same here, (λ _. le, all))
          | inr (d, i) ↦ (d, there i, (λ _. le, all))
        ])
]

-- A key from "backup-" to ".tar.gz", with the id of the node in it if one is given; the artifacts
-- of a single stack have such keys as well.
abbrev pub IsArchiveOf : String → String → Type 0
IsArchiveOf source key =
    (starts_with key "backup-" ≡ true)
    × (has_suffix key ".tar.gz" ≡ true)
    × ((source == "") ≡ false → archive_node_id key ≡ source)

IsArchiveOf-is_candidate :
    (source : String) (x : Object) → is_candidate source x ≡ true → IsArchiveOf source x.key
unfolding is_candidate
IsArchiveOf-is_candidate source x h =
    (ground arith, ground arith, λ named. (eq_iff _ source).0 (ground arith))

is_candidate-IsArchiveOf :
    (source : String) (x : Object) → IsArchiveOf source x.key → is_candidate source x ≡ true
unfolding is_candidate
is_candidate-IsArchiveOf source x (prefixed, suffixed, of_node) = elim (Bool-cases (source == "")) [
  | inl any ↦ ground (arith, any)
  | inr named ↦ ground (arith, eq_iff (archive_node_id x.key) source, of_node named)
]

abbrev pub NoLater : String → Object → List Object → Type 0
NoLater source o os =
    All (λ (x : Object). IsArchiveOf source x.key → x.last_modified ≤ o.last_modified) os

NoLater-NoNewer :
    (source : String) (o : Object) (os : List Object) → NoNewer source o os → NoLater source o os
NoLater-NoNewer source o [] h = tt
NoLater-NoNewer source o (x ∷ os) (first, rest) =
    (λ a. first (is_candidate-IsArchiveOf source x a), NoLater-NoNewer source o os rest)

none-IsArchiveOf :
    (source : String) (os : List Object)
    → All (λ (x : Object). is_candidate source x ≡ false) os
    → All (λ (x : Object). ¬ IsArchiveOf source x.key) os
none-IsArchiveOf source [] h = tt
none-IsArchiveOf source (x ∷ os) (first, rest) = (
  λ a. absurd (ground (arith, first, is_candidate-IsArchiveOf source x a)),
  none-IsArchiveOf source os rest,
)

-- An answer of the search for an archive, by what it is.
abbrev pub Answers : String → List Object → Result String → Type 0
Answers source os (ok key) =
    (o : Object) × (o.key ≡ key) × IsArchiveOf source o.key × In o os × NoLater source o os
Answers source os (err e) = All (λ (x : Object). ¬ IsArchiveOf source x.key) os

Answers-key_of :
    (source : String) (os : List Object) (found : Option Object)
    → NewestOf source os found
    → Answers source os (key_of found)
Answers-key_of source os none h = none-IsArchiveOf source os h
Answers-key_of source os (some o) (c, i, all) =
    (o, refl, IsArchiveOf-is_candidate source o c, i, NoLater-NoNewer source o os all)

pub newest_archive_object-Answers :
    (os : List Object) (source : String)
    → Answers source os (newest_archive_object true (ok os) source)
unfolding newest_archive_object
newest_archive_object-Answers os source =
    Answers-key_of source os (newest_from source none os) (newest_from-NewestOf source os)
