-- ===== src/Backups/Artifacts/Plain.antt =====
-- A name holds no slash, so that it is its own last element.
use poor_man_cluster.Common.{
  ℕ, ◌/◌, ◌%◌, ◌<◌, String, ◌==◌, ◌≡◌, refl, ◌∙◌, false, ◌||◌, [], ◌∷◌, arith,
}
use poor_man_cluster.Common.Text.{split}
use poor_man_cluster.Common.Paths.{base, last_element}
use poor_man_cluster.Refs.{has_char}
use poor_man_cluster.Backups.Artifacts.Rendering.{Timestamp, before, ◌++◌, two, format_time}
use poor_man_cluster.Backups.Artifacts.Digits.{code-digit, Fits}
use text.Mathlib.TextLemmas.{nil-append, cons-append}

pub has_char-append : (k : ℕ) (s t : String) → has_char k (s ++ t) ≡ (has_char k s || has_char k t)
unfolding has_char
has_char-append k String.[] t = rw (nil-append t) refl
has_char-append k (String.◌∷◌ c s) t =
    rw (cons-append c s t) (ground (arith, has_char-append k s t))

has_char-two : (n : ℕ) (s : String) → n < 100 → has_char 47 (two n s) ≡ has_char 47 s
unfolding has_char two
has_char-two n s h =
    ground (arith, code-digit (n / 10) (omega arith), code-digit (n % 10) (omega arith))

pub has_char-dash : (s : String) → has_char 47 (before "-" s) ≡ has_char 47 s
unfolding has_char
has_char-dash s = refl

has_char-hour : (s : String) → has_char 47 (before "T" s) ≡ has_char 47 s
unfolding has_char
has_char-hour s = refl

pub has_char-format_time :
    (t : Timestamp) (s : String) → Fits t → has_char 47 (format_time t s) ≡ has_char 47 s
unfolding format_time
has_char-format_time t s h =
    has_char-two (t.year / 100) _ (omega arith)
    ∙ has_char-two (t.year % 100) _ (omega arith)
    ∙ has_char-dash _
    ∙ has_char-two t.month _ h.month
    ∙ has_char-dash _
    ∙ has_char-two t.day _ h.day
    ∙ has_char-hour _
    ∙ has_char-two t.hour _ h.hour
    ∙ has_char-dash _
    ∙ has_char-two t.minute _ h.minute
    ∙ has_char-dash _
    ∙ has_char-two t.second s h.second

split_single : (k : ℕ) (s : String) → has_char k s ≡ false → split k s ≡ s ∷ []
unfolding split has_char
split_single k String.[] h = refl
split_single k (String.◌∷◌ c s) h = ground (arith, split_single k s)

pub base_single : (s : String) → has_char 47 s ≡ false → (s == "") ≡ false → base s ≡ s
unfolding base last_element
base_single s h given = rw (split_single 47 s h, given, given) refl
