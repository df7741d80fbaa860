-- ===== src/Common/Paths.antt =====
-- What the program uses of the package `path/filepath`, where the separator is a slash.
use Prim.Native.String.{String}
use Prim.Native.String
use text.Mathlib.Text.{starts_with, ◌==◌}
use mathlib.Core.Bool.{Bool, ◌&&◌, ◌||◌}
use mathlib.Core.List.{List, [], ◌∷◌}
use poor_man_cluster.Common.Tests.{if◌then◌else◌}
use poor_man_cluster.Common.Text.{split}

-- One element of a path, onto those before it, the last one first.
abbrev pop_or_keep : Bool → List String → List String
pop_or_keep rooted [] = if rooted then [] else ".." ∷ []
pop_or_keep rooted (x ∷ xs) = if x == ".." then ".." ∷ x ∷ xs else xs

abbrev put : Bool → List String → String → List String
put rooted before x =
    if x == "" || x == "."
    then before
    else if x == ".."
    then pop_or_keep rooted before
    else x ∷ before

unfoldable pub put_all : Bool → List String → List String → List String
put_all rooted before [] = before
put_all rooted before (x ∷ xs) = put_all rooted (put rooted before x) xs

-- The elements, the last one first, as a text.
unfoldable pub join_back : String → List String → String
join_back behind [] = behind
join_back behind (x ∷ xs) =
    join_back (if behind == "" then x else String.◌++◌ x (String.◌++◌ "/" behind)) xs

abbrev or_dot : String → String
or_dot s = if s == "" then "." else s

-- `filepath.Clean`
unfoldable pub clean : String → String
unfolding put_all join_back split
clean s =
    let rooted = starts_with s "/" in
    let inner = join_back "" (put_all rooted [] (split b'/' s)) in
    if rooted then String.◌++◌ "/" inner else or_dot inner

unfoldable pub last_element : String → List String → String
last_element found [] = found
last_element found (x ∷ xs) = last_element (if x == "" then found else x) xs

-- `filepath.Base`: the last element that is not empty.
unfoldable pub base : String → String
unfolding last_element split
base s =
    if s == ""
    then "."
    else let found = last_element "" (split b'/' s) in if found == "" then "/" else found

-- `filepath.Join` of two parts.
unfoldable pub join : String → String → String
unfolding clean
join a b =
    if a == "" && b == ""
    then ""
    else if a == ""
    then clean b
    else clean (String.◌++◌ a (String.◌++◌ "/" b))
