-- ===== src/Backups/Artifacts/Rendering.antt =====
-- `ArtifactName` and `sanitiseSegment` of internal/backups/artifact.go.
use poor_man_cluster.Common.{
  ℕ, zero, suc, ◌/◌, ◌%◌, String, ◌==◌, Bool, ◌&&◌, ◌||◌, Option, none, some, if◌then◌else◌, leb,
  eqb,
}
use Prim.Native.Char.{Char, code}
use Prim.Native.String

infixr 65 ◌++◌
abbrev pub ◌++◌ : String → String → String
s ++ t = String.◌++◌ s t

-- `time.Time`, by its fields in UTC.
pub record Timestamp : Type 0 where
  pub year : ℕ
  pub month : ℕ
  pub day : ℕ
  pub hour : ℕ
  pub minute : ℕ
  pub second : ℕ

unfoldable pub digit : ℕ → Char
digit zero = "0"
digit (suc zero) = "1"
digit (suc (suc zero)) = "2"
digit (suc (suc (suc zero))) = "3"
digit (suc (suc (suc (suc zero)))) = "4"
digit (suc (suc (suc (suc (suc zero))))) = "5"
digit (suc (suc (suc (suc (suc (suc zero)))))) = "6"
digit (suc (suc (suc (suc (suc (suc (suc zero))))))) = "7"
digit (suc (suc (suc (suc (suc (suc (suc (suc zero)))))))) = "8"
digit (suc (suc (suc (suc (suc (suc (suc (suc (suc n))))))))) = "9"

-- A number of two digits, in front of a text.
unfoldable pub two : ℕ → String → String
two n s = String.◌∷◌ (digit (n / 10)) (String.◌∷◌ (digit (n % 10)) s)

abbrev pub before : Char → String → String
before c s = String.◌∷◌ c s

-- `at.UTC().Format(ArtifactTimeLayout)`, in front of a text.
unfoldable pub format_time : Timestamp → String → String
format_time t s = two (t.year / 100) (
    two (t.year % 100) (
      before "-" (
        two t.month (
          before "-" (
            two t.day (
              before "T"
                (two t.hour (before "-" (two t.minute (before "-" (two t.second s)))))))))))

abbrev pub is_digit : Char → Bool
is_digit c = leb 48 (code c) && leb (code c) 57

abbrev pub is_alnum : Char → Bool
is_alnum c =
    is_digit c
    || (leb b'a' (code c) && leb (code c) b'z')
    || (leb b'A' (code c) && leb (code c) b'Z')

-- The runes that `sanitiseSegment` keeps, and those of a node behind its first.
abbrev pub is_name_char : Char → Bool
is_name_char c = is_alnum c || eqb (code c) b'.' || eqb (code c) b'_' || eqb (code c) b'-'

unfoldable pub map_chars : String → String
map_chars String.[] = ""
map_chars (String.◌∷◌ c s) = before (if is_name_char c then c else "-") (map_chars s)

-- What stands behind a text, if it stands in front.
unfoldable pub strip : String → String → Option String
strip String.[] s = some s
strip (String.◌∷◌ p ps) String.[] = none
strip (String.◌∷◌ p ps) (String.◌∷◌ c s) =
    let rest = strip ps s in if eqb (code p) (code c) then rest else none

-- `strings.ReplaceAll(s, stackMarker, "-")`: behind a match, its other six characters are skipped.
unfoldable pub without_marker : ℕ → String → String
unfolding strip
without_marker skip String.[] = ""
without_marker (suc skip) (String.◌∷◌ c s) = without_marker skip s
without_marker zero (String.◌∷◌ c s) = elim (strip "-stack-" (before c s)) [
  | none ↦ before c (without_marker 0 s)
  | some rest ↦ before "-" (without_marker 6 s)
]

-- `strings.Trim(s, "-")`
unfoldable pub trim_left_dashes : String → String
trim_left_dashes String.[] = ""
trim_left_dashes (String.◌∷◌ c s) =
    let rest = trim_left_dashes s in if eqb (code c) b'-' then rest else before c s

abbrev pub keep_before : Char → String → String
keep_before c String.[] = if eqb (code c) b'-' then "" else before c ""
keep_before c (String.◌∷◌ d s) = before c (before d s)

unfoldable pub trim_right_dashes : String → String
trim_right_dashes String.[] = ""
trim_right_dashes (String.◌∷◌ c s) = keep_before c (trim_right_dashes s)

abbrev pub or_unknown : String → String
or_unknown s = if s == "" then "unknown" else s

-- `sanitiseSegment`
unfoldable pub sanitise_segment : String → String
unfolding map_chars without_marker trim_left_dashes trim_right_dashes
sanitise_segment s =
    or_unknown (trim_right_dashes (trim_left_dashes (without_marker 0 (map_chars s))))

-- `ArtifactName`
unfoldable pub artifact_name : String → String → Timestamp → String
unfolding format_time sanitise_segment
artifact_name stack node at =
    "backup-"
    ++ sanitise_segment node
    ++ before "-" (format_time at ("-stack-" ++ sanitise_segment stack ++ ".tar.gz"))
