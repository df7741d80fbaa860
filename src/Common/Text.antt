-- ===== src/Common/Text.antt =====
-- What the program uses of the package `strings`, and the UTF-8 bytes of a text.
use Prim.Native.Nat.{ℕ, ◌+◌, ◌-◌, ◌%◌, ◌/◌}
use Prim.Native.Char.{Char, code}
use Prim.Native.String.{String, len, slice}
use text.Mathlib.Text.{starts_with, ◌==◌}
use mathlib.Core.Bool.{Bool, ◌&&◌, ◌||◌}
use mathlib.Core.List.{List, [], ◌∷◌, ◌++◌}
use poor_man_cluster.Common.Tests.{ltb, leb, eqb, if◌then◌else◌}

-- `unicode.IsSpace`
pub is_space : ℕ → Bool
is_space c =
    (leb 9 c && leb c 13)
    || eqb c 32
    || eqb c 0x85
    || eqb c 0xa0
    || eqb c 0x1680
    || (leb 0x2000 c && leb c 0x200a)
    || eqb c 0x2028
    || eqb c 0x2029
    || eqb c 0x202f
    || eqb c 0x205f
    || eqb c 0x3000

pub trim_left : String → String
trim_left String.[] = String.[]
trim_left (String.◌∷◌ c s) =
    let rest = trim_left s in if is_space (code c) then rest else String.◌∷◌ c s

-- A space is kept if something that is not a space stands behind it.
abbrev pub keep : Char → String → String
keep c String.[] = if is_space (code c) then String.[] else String.◌∷◌ c String.[]
keep c (String.◌∷◌ d s) = String.◌∷◌ c (String.◌∷◌ d s)

pub trim_right : String → String
trim_right String.[] = String.[]
trim_right (String.◌∷◌ c s) = keep c (trim_right s)

-- `strings.TrimSpace`
unfoldable pub trim_space : String → String
unfolding trim_left trim_right is_space
trim_space s = trim_right (trim_left s)

abbrev onto_first : Char → List String → List String
onto_first c [] = []
onto_first c (x ∷ xs) = String.◌∷◌ c x ∷ xs

-- `strings.Split` by one character.
unfoldable pub split : ℕ → String → List String
split sep String.[] = String.[] ∷ []
split sep (String.◌∷◌ c s) =
    let rest = split sep s in if eqb (code c) sep then String.[] ∷ rest else onto_first c rest

-- The UTF-8 encoding of a code point.
abbrev utf8 : ℕ → List ℕ
utf8 c =
    if ltb c 0x80
    then c ∷ []
    else if ltb c 0x800
    then (0xc0 + c / 64) ∷ (0x80 + c % 64) ∷ []
    else if ltb c 0x10000
    then (0xe0 + c / 4096) ∷ (0x80 + c / 64 % 64) ∷ (0x80 + c % 64) ∷ []
    else (0xf0 + c / 262144) ∷ (0x80 + c / 4096 % 64) ∷ (0x80 + c / 64 % 64) ∷ (0x80 + c % 64) ∷ []

-- `[]byte(s)`
unfoldable pub bytes : String → List ℕ
bytes String.[] = []
bytes (String.◌∷◌ c s) = utf8 (code c) ++ bytes s

-- `strings.TrimPrefix`
abbrev pub trim_prefix : String → String → String
trim_prefix s prefix = if starts_with s prefix then slice s (len prefix) (len s) else s

-- `strings.HasSuffix`
abbrev pub has_suffix : String → String → Bool
has_suffix s suffix = leb (len suffix) (len s) && slice s (len s - len suffix) (len s) == suffix

-- `strings.TrimSuffix`
abbrev pub trim_suffix : String → String → String
trim_suffix s suffix = if has_suffix s suffix then slice s 0 (len s - len suffix) else s
