-- ===== src/Refs.antt =====
-- internal/refs/envref.go: where a config or a secret is mounted in a container.
use poor_man_cluster.Common.{ℕ, String, ◌==◌, Bool, true, false, ◌||◌, if◌then◌else◌, eqb}
use poor_man_cluster.Common.Text.{trim_space, trim_prefix, trim_suffix}
use Prim.Native.Char.{code}
use text.Mathlib.Text.{starts_with}
use Prim.Native.String

infixr 67 ◌++◌
abbrev ◌++◌ : String → String → String
s ++ t = String.◌++◌ s t

-- Whether a text has a character.
unfoldable pub has_char : ℕ → String → Bool
has_char k String.[] = false
has_char k (String.◌∷◌ c s) = eqb (code c) k || has_char k s

-- `path.Ext(name) != ""`: there is a dot behind the last slash.
unfoldable pub has_extension : String → Bool
unfolding has_char
has_extension String.[] = false
has_extension (String.◌∷◌ c s) =
    let rest = has_extension s in
    if has_char b'/' s then rest else if eqb (code c) b'.' then true else rest

-- `SecretMountPath`
abbrev pub secret_mount_path : String → String
secret_mount_path name = "/run/secrets/" ++ name

abbrev pub default_config_mount_root : String
default_config_mount_root = "/etc/config"

abbrev or_default_root : String → String
or_default_root root = if root == "" then default_config_mount_root else root

abbrev rooted : String → String
rooted root = if starts_with root "/" then root else "/" ++ root

abbrev with_extension : String → String
with_extension name = if has_extension name then name else name ++ ".yaml"

-- The two ends of `ConfigMountPath`, once the root and the name are trimmed.
abbrev joined : String → String → String
joined root name =
    if name == ""
    then trim_suffix root "/"
    else trim_suffix root "/" ++ ("/" ++ with_extension name)

-- `ConfigMountPath`
unfoldable pub config_mount_path : String → String → String
unfolding has_extension trim_space
config_mount_path root name =
    joined (rooted (or_default_root (trim_space root))) (trim_prefix (trim_space name) "/")
