-- ===== src/Backups/Artifacts.antt =====
-- internal/backups/artifact.go: the names of volume archives. A time is what UTC reads to the second,
-- and the regular expression is written out: the node is the shortest text that the rest fits.
pub mod Plain
pub mod Rendering
pub mod Digits
pub mod Names
pub mod Parsing
use poor_man_cluster.Backups.Artifacts.Rendering.{
  Timestamp, artifact_name, before, digit, format_time, is_alnum, is_digit, is_name_char, map_chars,
  sanitise_segment, strip, trim_left_dashes, trim_right_dashes, two, without_marker, ◌++◌,
}
use poor_man_cluster.Common.{
  ℕ, zero, suc, ◌+◌, ◌-◌, ◌*◌, ◌/◌, ◌%◌, String, ◌==◌, Bool, true, false, not, ◌&&◌, ◌||◌, Option,
  none, some, if◌then◌else◌, ltb, leb, eqb,
}
use poor_man_cluster.Common.Paths.{base}
use poor_man_cluster.Refs.{has_char}
use Prim.Native.Char.{Char, code}
use Prim.Native.String

-- `Artifact`
pub record Artifact : Type 0 where
  pub stack : String
  pub node : String
  pub at : Timestamp
  pub name : String

-- A digit in front of a text, and the text behind it.
abbrev pub Read : Type 0
Read = Option (ℕ × String)

unfoldable pub read_digit : String → Read
read_digit String.[] = none
read_digit (String.◌∷◌ c s) = if is_digit c then some (code c - 48, s) else none

abbrev pub then_digit : ℕ → Read → Read
then_digit tens none = none
then_digit tens (some (n, s)) = some (10 * tens + n, s)

abbrev pub and_digit : Read → Read
and_digit none = none
and_digit (some (n, s)) = then_digit n (read_digit s)

-- `\d{2}`
unfoldable pub read_two : String → Read
unfolding read_digit
read_two s = and_digit (read_digit s)

-- A separator and two digits.
unfoldable pub read_behind : Char → String → Read
unfolding read_two
read_behind c String.[] = none
read_behind c (String.◌∷◌ d s) = if eqb (code d) (code c) then read_two s else none

abbrev and_then {ℓ} : {A : Type ℓ} → Read → (ℕ → String → Option A) → Option A
and_then none f = none
and_then (some (n, s)) f = f n s

-- `\d{4}-\d{2}-\d{2}T\d{2}-\d{2}-\d{2}`
unfoldable pub read_time : String → Option (Timestamp × String)
unfolding read_two read_behind
read_time s = and_then (read_two s) λ century s1. and_then (read_two s1) λ year s2.
    and_then (read_behind "-" s2) λ month s3. and_then (read_behind "-" s3) λ day s4.
      and_then (read_behind "T" s4) λ hour s5. and_then (read_behind "-" s5) λ minute s6.
        and_then (read_behind "-" s6) λ second s7. some (
          (record {
            year = 100 * century + year;
            month = month;
            day = day;
            hour = hour;
            minute = minute;
            second = second;
          }),
          s7,
        )

-- The text in front of a last `.tar.gz`.
unfoldable pub before_suffix : String → Option String
before_suffix String.[] = none
before_suffix (String.◌∷◌ c s) =
    let rest = before_suffix s in
    if before c s == ".tar.gz"
    then some ""
    else elim rest [ none ↦ none | some t ↦ some (before c t) ]

-- `.+`, which matches no line break.
abbrev stack_in : Option String → Option String
stack_in none = none
stack_in (some t) = if t == "" || has_char 10 t then none else some t

abbrev or_bare : Bool → Option String → Option String
or_bare bare (some t) = some t
or_bare bare none = if bare then some "" else none

abbrev after_marker : Option String → Option String
after_marker none = none
after_marker (some s) = stack_in (before_suffix s)

-- What stands behind the time: the stack, or "" for a whole-node archive.
unfoldable pub read_stack : String → Option String
unfolding strip before_suffix has_char
read_stack s = or_bare (s == ".tar.gz") (after_marker (strip "-stack-" s))

abbrev with_stack : Option (Timestamp × String) → Option (Timestamp × String)
with_stack none = none
with_stack (some (t, s)) = elim (read_stack s) [ none ↦ none | some stack ↦ some (t, stack) ]

abbrev timed : Option String → Option (Timestamp × String)
timed none = none
timed (some s) = with_stack (read_time s)

-- The part behind the node.
unfoldable pub tail_at : String → Option (Timestamp × String)
unfolding strip read_time read_stack
tail_at s = timed (strip "-" s)

abbrev pub Match : Type 0
Match = Option (String × Timestamp × String)

abbrev pub extend : Char → Match → Match
extend c none = none
extend c (some (node, at, stack)) = some (before c node, at, stack)

abbrev pub or_extended : Option (Timestamp × String) → Match → Match
or_extended none longer = longer
or_extended (some (t, stack)) longer = some ("", t, stack)

-- The rest of a node, by its shortest match.
unfoldable pub node_rest : String → Match
unfolding tail_at
node_rest String.[] = none
node_rest (String.◌∷◌ c s) =
    or_extended (tail_at (before c s))
      (let longer = extend c (node_rest s) in if is_name_char c then longer else none)

abbrev first_char : Option String → Match
first_char none = none
first_char (some String.[]) = none
first_char (some (String.◌∷◌ c s)) = if is_alnum c then extend c (node_rest s) else none

-- `artifactRe`
unfoldable pub match_artifact : String → Match
unfolding node_rest
match_artifact name = first_char (strip "backup-" name)

abbrev is_leap : ℕ → Bool
is_leap y = eqb (y % 4) 0 && (not (eqb (y % 100) 0) || eqb (y % 400) 0)

abbrev days_in : ℕ → ℕ → ℕ
days_in y m =
    if eqb m 2
    then (if is_leap y then 29 else 28)
    else if eqb m 4 || eqb m 6 || eqb m 9 || eqb m 11
    then 30
    else 31

-- The ranges that `time.Parse` checks.
unfoldable pub is_time : Timestamp → Bool
is_time t =
    leb 1 t.month
    && leb t.month 12
    && leb 1 t.day
    && leb t.day (days_in t.year t.month)
    && ltb t.hour 24
    && ltb t.minute 60
    && ltb t.second 60

abbrev parsed_as : String → Match → Option Artifact
parsed_as name none = none
parsed_as name (some (node, at, stack)) =
    if is_time at then some (record { stack = stack; node = node; at = at; name = name }) else none

-- `ParseArtifact`
unfoldable pub parse_artifact : String → Option Artifact
unfolding match_artifact is_time base
parse_artifact name = parsed_as (base name) (match_artifact (base name))
