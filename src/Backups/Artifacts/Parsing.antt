-- ===== src/Backups/Artifacts/Parsing.antt =====
-- The name of an artifact, read back.
use poor_man_cluster.Backups.Artifacts.Plain.{
  has_char-append, has_char-dash, has_char-format_time, base_single,
}
use poor_man_cluster.Common.{
  ℕ, suc, ◌+◌, String, ◌==◌, eq_iff, ◌≡◌, refl, ◌∙◌, ap, true, false, Option, none, some, arith,
  eqb, Bool-cases, inl, inr,
}
use poor_man_cluster.Common.Text.{trim_prefix}
use poor_man_cluster.Common.Paths.{base}
use poor_man_cluster.Refs.{has_char}
use poor_man_cluster.Stacks.Transit.{until_dash, archive_node_id}
use poor_man_cluster.Backups.Artifacts.{
  before_suffix, read_stack, tail_at, node_rest, match_artifact, parse_artifact, with_stack,
  is_time,
}
use poor_man_cluster.Backups.Artifacts.Rendering.{
  Timestamp, is_alnum, is_name_char, strip, before, ◌++◌, format_time, artifact_name,
  sanitise_segment,
}
use poor_man_cluster.Backups.Artifacts.Digits.{strip-append, Fits, read_time-format_time}
use poor_man_cluster.Backups.Artifacts.Names.{
  all_chars, is_named_well, named-sanitise_segment, IsAlnum, alnum-sanitise_segment,
}
use Prim.Native.Char.{Char, code}
use Prim.Native.String.{len, slice}
use text.Mathlib.TextLemmas.{nil-append, cons-append}
use text.Mathlib.TextPositions.{len-append, starts_with-append, slice-append_right}

abbrev chars : String → ℕ
chars String.[] = 0
chars (String.◌∷◌ c s) = suc (chars s)

chars-append : (s t : String) → chars (s ++ t) ≡ chars s + chars t
chars-append String.[] t = rw (nil-append t) (omega arith)
chars-append (String.◌∷◌ c s) t = rw (cons-append c s t) (omega (arith, chars-append s t))

-- A text with something in front of the suffix is not the suffix.
ne_suffix : (c : Char) (s : String) → (before c (s ++ ".tar.gz") == ".tar.gz") ≡ false
ne_suffix c s = elim (Bool-cases (before c (s ++ ".tar.gz") == ".tar.gz")) [
  | inr other ↦ other
  | inl same ↦
      let lengths = ap chars ((eq_iff (before c (s ++ ".tar.gz")) ".tar.gz").0 same) in
      absurd (omega (arith, lengths, chars-append s ".tar.gz"))
]

before_suffix-append : (s : String) → before_suffix (s ++ ".tar.gz") ≡ some s
unfolding before_suffix
before_suffix-append String.[] = refl
before_suffix-append (String.◌∷◌ c s) =
    rw (cons-append c s ".tar.gz") (ground (arith, ne_suffix c s, before_suffix-append s))

no_break :
    (k : ℕ) (s : String)
    → ((c : Char) → is_name_char c ≡ true → eqb (code c) k ≡ false)
    → is_named_well s ≡ true
    → has_char k s ≡ false
unfolding has_char all_chars
no_break k String.[] f h = refl
no_break k (String.◌∷◌ c s) f h = ground (arith, f c, no_break k s f)

read_stack-append :
    (s : String)
    → is_named_well s ≡ true
    → (s == "") ≡ false
    → read_stack ("-stack-" ++ (s ++ ".tar.gz")) ≡ some s
unfolding read_stack
read_stack-append s h given =
    let plain : has_char 10 s ≡ false = no_break 10 s (λ c k. ground arith) h in
    rw (strip-append "-stack-" (s ++ ".tar.gz"), before_suffix-append s, given, plain) refl

tail_at-name :
    (stack : String) (t : Timestamp)
    → Fits t
    → is_named_well stack ≡ true
    → (stack == "") ≡ false
    → tail_at (before "-" (format_time t ("-stack-" ++ (stack ++ ".tar.gz")))) ≡ some (t, stack)
unfolding tail_at strip
tail_at-name stack t fits h given =
    rw (read_time-format_time t ("-stack-" ++ (stack ++ ".tar.gz")) fits)
      (rw (read_stack-append stack h given, with_stack) refl)

tail_at-alnum : (c : Char) (s : String) → is_alnum c ≡ true → tail_at (before c s) ≡ none
unfolding tail_at strip
tail_at-alnum c s h = let other : eqb 45 (code c) ≡ false = ground arith in rw (other, strip) refl

-- The node ends at the first dash behind which a time and an end fit.
node_rest-append :
    (node rest : String) (t : Timestamp) (stack : String)
    → tail_at (before "-" rest) ≡ some (t, stack)
    → all_chars is_alnum node ≡ true
    → node_rest (node ++ before "-" rest) ≡ some (node, t, stack)
unfolding node_rest all_chars
node_rest-append String.[] rest t stack e h =
    rw (nil-append (before "-" rest)) (rw (e, node_rest) refl)
node_rest-append (String.◌∷◌ c node) rest t stack e h =
    let plain : is_name_char c ≡ true = ground arith in
    rw (cons-append c node (before "-" rest)) (
      rw
        (
          tail_at-alnum c (node ++ before "-" rest) (ground arith),
          plain,
          node_rest-append node rest t stack e (ground arith),
        )
        refl)

match_artifact-append :
    (node rest : String) (t : Timestamp) (stack : String)
    → tail_at (before "-" rest) ≡ some (t, stack)
    → IsAlnum node
    → match_artifact ("backup-" ++ (node ++ before "-" rest)) ≡ some (node, t, stack)
unfolding match_artifact all_chars
match_artifact-append String.[] rest t stack e (h, given) = absurd (ground arith)
match_artifact-append (String.◌∷◌ c node) rest t stack e (h, given) =
    let first : is_alnum c ≡ true = ground arith in
    rw (strip-append "backup-" (before c node ++ before "-" rest)) (
      rw (cons-append c node (before "-" rest))
        (rw (first, node_rest-append node rest t stack e (ground arith)) refl))

until_dash-append :
    (node rest : String)
    → all_chars is_alnum node ≡ true
    → until_dash (node ++ before "-" rest) ≡ some node
unfolding until_dash all_chars
until_dash-append String.[] rest h = rw (nil-append (before "-" rest)) refl
until_dash-append (String.◌∷◌ c node) rest h =
    rw (cons-append c node (before "-" rest)) (ground (arith, until_dash-append node rest))

trim_prefix-append : (p s : String) → trim_prefix (p ++ s) p ≡ s
trim_prefix-append p s =
    rw (starts_with-append p s)
      (ap (slice (p ++ s) (len p)) (len-append p s) ∙ slice-append_right p s)

archive_node_id-append :
    (node rest : String)
    → all_chars is_alnum node ≡ true
    → archive_node_id ("backup-" ++ (node ++ before "-" rest)) ≡ node
unfolding archive_node_id
archive_node_id-append node rest h =
    ap (λ (t : Option String). elim t [ none ↦ "" | some n ↦ n ])
      (ap until_dash (trim_prefix-append "backup-" (node ++ before "-" rest))
        ∙ until_dash-append node rest h)

ne_empty : (s : String) → (("backup-" ++ s) == "") ≡ false
ne_empty s = elim (Bool-cases (("backup-" ++ s) == "")) [
  | inr other ↦ other
  | inl same ↦
      let lengths = ap chars ((eq_iff ("backup-" ++ s) "").0 same) in
      absurd (omega (arith, lengths, chars-append "backup-" s))
]

alnum_plain : (s : String) → all_chars is_alnum s ≡ true → has_char 47 s ≡ false
unfolding has_char all_chars
alnum_plain String.[] h = refl
alnum_plain (String.◌∷◌ c s) h = ground (arith, alnum_plain s)

has_char-literal : (s : String) → has_char 47 ("backup-" ++ s) ≡ has_char 47 s
unfolding has_char
has_char-literal s = has_char-append 47 "backup-" s

has_char-end : (s : String) → has_char 47 ("-stack-" ++ (s ++ ".tar.gz")) ≡ has_char 47 s
unfolding has_char
has_char-end s =
    has_char-append 47 "-stack-" (s ++ ".tar.gz") ∙ has_char-append 47 s ".tar.gz" ∙ ground arith

has_char-name :
    (node : String) (t : Timestamp) (stack : String)
    → all_chars is_alnum node ≡ true
    → Fits t
    → is_named_well stack ≡ true
    → has_char 47
        ("backup-" ++ (node ++ before "-" (format_time t ("-stack-" ++ (stack ++ ".tar.gz")))))
      ≡ false
has_char-name node t stack a fits h =
    let end = "-stack-" ++ (stack ++ ".tar.gz") in
    has_char-literal (node ++ before "-" (format_time t end))
    ∙ has_char-append 47 node (before "-" (format_time t end))
    ∙ rw (alnum_plain node a) (
        has_char-dash (format_time t end)
        ∙ has_char-format_time t end fits
        ∙ has_char-end stack
        ∙ no_break 47 stack (λ c k. ground arith) h)

-- A time whose fields fit the layout, and that is a time of the calendar.
pub record IsTime (t : Timestamp) : Type 0 where
  pub fits : Fits t
  pub valid : is_time t ≡ true

-- The name of a stack's artifact from a node with an id of letters and digits, at a time before the
-- year 10000, is parsed as an artifact of the sanitised stack, of that node and at that time; and
-- the search for a node's archives, which reads the older names, finds the same node in it.
pub parse_artifact-artifact_name :
    (stack node : String) (t : Timestamp)
    → IsTime t
    → IsAlnum node
    → (parse_artifact (artifact_name stack node t)
        ≡ some (record {
          stack = sanitise_segment stack;
          node = node;
          at = t;
          name = artifact_name stack node t;
        }))
      × (archive_node_id (artifact_name stack node t) ≡ node)
unfolding parse_artifact artifact_name
parse_artifact-artifact_name stack node t time alnum =
    let st = sanitise_segment stack in
    let (h, given) = named-sanitise_segment stack in
    let rest = format_time t ("-stack-" ++ (st ++ ".tar.gz")) in
    let name = "backup-" ++ (node ++ before "-" rest) in
    let no_slash : has_char 47 name ≡ false = has_char-name node t st alnum.0 time.fits h in
    let whole : base name ≡ name = base_single name no_slash (ne_empty (node ++ before "-" rest)) in
    rw (alnum-sanitise_segment node alnum) (
      rw
          (
            whole,
            match_artifact-append node rest t st (tail_at-name st t time.fits h given) alnum,
            time.valid,
          )
          refl,
      archive_node_id-append node rest alnum.0,
    )
