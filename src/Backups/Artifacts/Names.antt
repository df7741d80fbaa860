-- ===== src/Backups/Artifacts/Names.antt =====
-- What a sanitised segment is made of.
use poor_man_cluster.Common.{
  ℕ, zero, suc, String, ◌==◌, ◌≡◌, refl, ap, Bool, true, false, ◌&&◌, Option, none, some, arith,
  eqb, Bool-cases, inl, inr,
}
use poor_man_cluster.Backups.Artifacts.Rendering.{keep_before, or_unknown}
use poor_man_cluster.Backups.Artifacts.Rendering.{
  is_alnum, is_name_char, map_chars, strip, without_marker, trim_left_dashes, trim_right_dashes,
  sanitise_segment, before,
}
use Prim.Native.Char.{Char, code}

unfoldable pub all_chars : (Char → Bool) → String → Bool
all_chars p String.[] = true
all_chars p (String.◌∷◌ c s) = p c && all_chars p s

abbrev pub is_named_well : String → Bool
is_named_well s = all_chars is_name_char s

named-map_chars : (s : String) → is_named_well (map_chars s) ≡ true
unfolding all_chars map_chars
named-map_chars String.[] = refl
named-map_chars (String.◌∷◌ c s) = elim (Bool-cases (is_name_char c)) [
  | inl kept ↦ rw (kept, kept) (named-map_chars s)
  | inr other ↦ rw other (named-map_chars s)
]

named-without_marker :
    (skip : ℕ) (s : String) → is_named_well s ≡ true → is_named_well (without_marker skip s) ≡ true
unfolding all_chars without_marker
named-without_marker skip String.[] h = refl
named-without_marker (suc skip) (String.◌∷◌ c s) h = named-without_marker skip s (ground arith)
named-without_marker zero (String.◌∷◌ c s) h =
    go (strip "-stack-" (before c s)) (named-without_marker 0 s (ground arith))
      (named-without_marker 6 s (ground arith))
  where
    go :
        (o : Option String)
        → is_named_well (without_marker 0 s) ≡ true
        → is_named_well (without_marker 6 s) ≡ true
        → is_named_well (elim o [
          | none ↦ before c (without_marker 0 s)
          | some rest ↦ before "-" (without_marker 6 s)
        ])
          ≡ true
    go none a b = ground arith
    go (some rest) a b = ground arith

named-trim_left : (s : String) → is_named_well s ≡ true → is_named_well (trim_left_dashes s) ≡ true
unfolding all_chars trim_left_dashes
named-trim_left String.[] h = refl
named-trim_left (String.◌∷◌ c s) h = ground (arith, named-trim_left s)

named-keep_before :
    (c : Char) (s : String)
    → is_name_char c ≡ true
    → is_named_well s ≡ true
    → is_named_well (keep_before c s) ≡ true
unfolding all_chars
named-keep_before c String.[] h k = elim (Bool-cases (eqb (code c) b'-')) [
  | inl dash ↦ rw dash refl
  | inr other ↦ rw other (ground (arith, h))
]
named-keep_before c (String.◌∷◌ d s) h k = ground arith

named-trim_right :
    (s : String) → is_named_well s ≡ true → is_named_well (trim_right_dashes s) ≡ true
unfolding all_chars trim_right_dashes
named-trim_right String.[] h = refl
named-trim_right (String.◌∷◌ c s) h =
    named-keep_before c (trim_right_dashes s) (ground arith) (named-trim_right s (ground arith))

named-or_unknown :
    (s : String)
    → is_named_well s ≡ true
    → (is_named_well (or_unknown s) ≡ true) × ((or_unknown s == "") ≡ false)
unfolding all_chars
named-or_unknown s h = elim (Bool-cases (s == "")) [
  | inl blank ↦ rw blank (refl, refl)
  | inr given ↦ rw given (h, given)
]

pub named-sanitise_segment :
    (s : String)
    → (is_named_well (sanitise_segment s) ≡ true) × ((sanitise_segment s == "") ≡ false)
unfolding sanitise_segment
named-sanitise_segment s =
    named-or_unknown _
      (named-trim_right _ (named-trim_left _ (named-without_marker 0 _ (named-map_chars s))))

-- A segment of letters and digits, like the node ids of a swarm.
abbrev pub IsAlnum : String → Type 0
IsAlnum s = (all_chars is_alnum s ≡ true) × ((s == "") ≡ false)

alnum-map_chars : (s : String) → all_chars is_alnum s ≡ true → map_chars s ≡ s
unfolding all_chars map_chars
alnum-map_chars String.[] h = refl
alnum-map_chars (String.◌∷◌ c s) h =
    let plain : is_name_char c ≡ true = ground arith in
    rw (plain, alnum-map_chars s (ground arith)) refl

pub alnum-strip : (c : Char) (s : String) → is_alnum c ≡ true → strip "-stack-" (before c s) ≡ none
unfolding strip
alnum-strip c s h = ground arith

alnum-without_marker : (s : String) → all_chars is_alnum s ≡ true → without_marker 0 s ≡ s
unfolding all_chars without_marker
alnum-without_marker String.[] h = refl
alnum-without_marker (String.◌∷◌ c s) h =
    rw (alnum-strip c s (ground arith), without_marker)
      (ap (before c) (alnum-without_marker s (ground arith)))

alnum-trim_left : (s : String) → all_chars is_alnum s ≡ true → trim_left_dashes s ≡ s
unfolding all_chars trim_left_dashes
alnum-trim_left String.[] h = refl
alnum-trim_left (String.◌∷◌ c s) h = ground arith

alnum-keep_before : (c : Char) (s : String) → is_alnum c ≡ true → keep_before c s ≡ before c s
alnum-keep_before c String.[] h = ground arith
alnum-keep_before c (String.◌∷◌ d s) h = refl

alnum-trim_right : (s : String) → all_chars is_alnum s ≡ true → trim_right_dashes s ≡ s
unfolding all_chars trim_right_dashes
alnum-trim_right String.[] h = refl
alnum-trim_right (String.◌∷◌ c s) h =
    rw (alnum-trim_right s (ground arith)) (alnum-keep_before c s (ground arith))

pub alnum-sanitise_segment : (s : String) → IsAlnum s → sanitise_segment s ≡ s
unfolding sanitise_segment
alnum-sanitise_segment s (h, given) =
    rw
      (
        alnum-map_chars s h,
        alnum-without_marker s h,
        alnum-trim_left s h,
        alnum-trim_right s h,
        given,
      )
      refl
