-- ===== src/Stacks/Resolver/Pattern.antt =====
-- `configRefRe` of internal/stacks/resolver.go, written out as a scan of a text.
use poor_man_cluster.Common.{
  or_else, ℕ, zero, suc, ◌+◌, String, ◌==◌, Bool, true, false, ◌&&◌, ◌||◌, Option, none, some, List,
  [], ◌∷◌, if◌then◌else◌, leb, eqb,
}
use Prim.Native.Char.{Char, code}
use Prim.Native.String.{len, slice}
use text.Mathlib.Text.{starts_with}

-- The kinds of references that `configRefRe` finds.
pub data Kind : Type 0 where
  config_path config secret_path secret : Kind

pub data Piece : Type 0 where
  literal : Char → Piece
  reference : Kind → String → Piece

abbrev token : Kind → String
token config_path = "config_path("
token config = "config("
token secret_path = "secret_path("
token secret = "secret("

-- The text in front of the first closing parenthesis.
unfoldable pub until_close : String → Option String
until_close String.[] = none
until_close (String.◌∷◌ c s) =
    let rest = until_close s in
    if eqb (code c) b')'
    then some ""
    else elim rest [ none ↦ none | some body ↦ some (String.◌∷◌ c body) ]

-- `([^)]+)\)` matches one character at least.
abbrev non_empty : Kind → Option String → Option (Kind × String)
non_empty k none = none
non_empty k (some body) = if body == "" then none else some (k, body)

abbrev reference_of : Kind → String → Option (Kind × String)
reference_of k s =
    if starts_with s (token k)
    then non_empty k (until_close (slice s (len (token k)) (len s)))
    else none

-- The match at the head of a text.
unfoldable pub match_at : String → Option (Kind × String)
unfolding until_close
match_at s =
    or_else (reference_of config_path s) (
      or_else (reference_of config s)
        (or_else (reference_of secret_path s) (reference_of secret s)))

-- A character of a word, for `\b`.
abbrev is_word : Char → Bool
is_word c =
    (leb b'a' (code c) && leb (code c) b'z')
    || (leb b'A' (code c) && leb (code c) b'Z')
    || (leb b'0' (code c) && leb (code c) b'9')
    || eqb (code c) b'_'

-- A match is taken only behind no word.
abbrev match_behind : Bool → String → Option (Kind × String)
match_behind true s = none
match_behind false s = match_at s

abbrev chars : String → ℕ
chars String.[] = 0
chars (String.◌∷◌ c s) = suc (chars s)

-- `configRefRe` over a text, from left to right: `after_word` says what stands before, and `skip` how
-- many characters still belong to the last match.
unfoldable pub scan : Bool → ℕ → String → List Piece
unfolding match_at
scan after_word skip String.[] = []
scan after_word (suc skip) (String.◌∷◌ c s) = scan false skip s
scan after_word zero (String.◌∷◌ c s) = elim (match_behind after_word (String.◌∷◌ c s)) [
  | none ↦ literal c ∷ scan (is_word c) 0 s
  | some (k, body) ↦ reference k body ∷ scan false (chars (token k) + chars body) s
]
