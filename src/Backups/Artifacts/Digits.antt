-- ===== src/Backups/Artifacts/Digits.antt =====
-- Digits and times, read back from their texts.
use poor_man_cluster.Common.{ℕ, zero, suc, ◌+◌, ◌/◌, ◌%◌, ◌<◌, String, ◌≡◌, refl, ap, some, arith}
use poor_man_cluster.Backups.Artifacts.{read_digit, read_two, read_behind, read_time}
use poor_man_cluster.Backups.Artifacts.Rendering.{
  Timestamp, digit, two, format_time, strip, before, ◌++◌,
}
use Prim.Native.Char.{Char, code}
use text.Mathlib.TextLemmas.{nil-append, cons-append}

pub strip-append : (p s : String) → strip p (p ++ s) ≡ some s
unfolding strip
strip-append String.[] s = ap some (nil-append s)
strip-append (String.◌∷◌ c p) s = rw (cons-append c p s) (ground (arith, strip-append p s))

pub code-digit : (d : ℕ) → d < 10 → code (digit d) ≡ 48 + d
unfolding digit
code-digit zero h = refl
code-digit (suc zero) h = refl
code-digit (suc (suc zero)) h = refl
code-digit (suc (suc (suc zero))) h = refl
code-digit (suc (suc (suc (suc zero)))) h = refl
code-digit (suc (suc (suc (suc (suc zero))))) h = refl
code-digit (suc (suc (suc (suc (suc (suc zero)))))) h = refl
code-digit (suc (suc (suc (suc (suc (suc (suc zero))))))) h = refl
code-digit (suc (suc (suc (suc (suc (suc (suc (suc zero)))))))) h = refl
code-digit (suc (suc (suc (suc (suc (suc (suc (suc (suc n))))))))) h =
    let last : n ≡ 0 = omega arith in rw last refl

read-digit : (d : ℕ) (s : String) → d < 10 → read_digit (before (digit d) s) ≡ some (d, s)
unfolding read_digit
read-digit d s h = ground (arith, code-digit d h)

pub read_two-two : (n : ℕ) (s : String) → n < 100 → read_two (two n s) ≡ some (n, s)
unfolding read_two two
read_two-two n s h =
    rw (read-digit (n / 10) (before (digit (n % 10)) s) (omega arith))
      (rw (read-digit (n % 10) s (omega arith)) (ap (λ (k : ℕ). some (k, s)) (omega arith)))

read_behind-before :
    (c : Char) (n : ℕ) (s : String) → n < 100 → read_behind c (before c (two n s)) ≡ some (n, s)
unfolding read_behind
read_behind-before c n s h = ground (arith, read_two-two n s h)

-- The fields that fit the layout.
pub record Fits (t : Timestamp) : Type 0 where
  pub year : t.year < 10_000
  pub month : t.month < 100
  pub day : t.day < 100
  pub hour : t.hour < 100
  pub minute : t.minute < 100
  pub second : t.second < 100

pub read_time-format_time :
    (t : Timestamp) (s : String) → Fits t → read_time (format_time t s) ≡ some (t, s)
unfolding read_time format_time
read_time-format_time t s h =
    rw
      (
        read_two-two (t.year / 100) _ (omega arith),
        read_two-two (t.year % 100) _ (omega arith),
        read_behind-before "-" t.month _ h.month,
        read_behind-before "-" t.day _ h.day,
        read_behind-before "T" t.hour _ h.hour,
        read_behind-before "-" t.minute _ h.minute,
        read_behind-before "-" t.second s h.second,
      )
      (ap (λ (y : ℕ). some (record t { year = y }, s)) (omega arith))
