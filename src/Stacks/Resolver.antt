-- ===== src/Stacks/Resolver.antt =====
-- internal/stacks/resolver.go: the references in the content of a config file are replaced by what
-- they stand for, as seen by one stack. The regular expression is written out as a scan of the text;
-- decryption is a parameter.
pub mod Visible
pub mod Stored
pub mod Pattern
pub mod Scoped
pub mod Cycles
use poor_man_cluster.Stacks.Resolver.Stored.{
  ConfigRow, Rows, SecretRow, Swarm, config_for_stack, content_of, find_secret,
}
use poor_man_cluster.Stacks.Resolver.Pattern.{
  Kind, Piece, match_at, scan, until_close, config_path, config, secret_path, secret, literal,
  reference,
}
use poor_man_cluster.Common.{
  or_else, ℕ, zero, suc, ◌+◌, String, ◌==◌, Bool, true, false, not, ◌&&◌, ◌||◌, Option, none, some,
  List, [], ◌∷◌, if◌then◌else◌, ltb, leb, eqb, Map, lookup, insert,
}
use poor_man_cluster.Common.Errors.{Error, plain, wrapped, Result, ok, err}
use poor_man_cluster.Common.Text.{trim_space}
use poor_man_cluster.Store.Settings.{setting_default}
use poor_man_cluster.Refs.{
  has_char, secret_mount_path, config_mount_path, default_config_mount_root,
}
use Prim.Native.Char.{Char, code}
use Prim.Native.String.{len, slice}
use Prim.Native.String
use text.Mathlib.Text.{starts_with}

-- `StoreConfigResolver`: the store and the cipher may be nil, and `docker` says whether the client is
-- there.
pub record StoreConfigResolver : Type 0 where
  pub store : Option Rows
  pub docker : Bool
  pub decrypt : Option (String → Result String)

-- A result, and the swarm that is left.
abbrev pub Answer : Type 0
Answer = Result String × Swarm

abbrev pub onto : String → Answer → Answer
onto t (err e, sw) = (err e, sw)
onto t (ok u, sw) = (ok (String.◌++◌ t u), sw)

abbrev pub and_then : Answer → (Swarm → Answer) → Answer
and_then (err e, sw) k = (err e, sw)
and_then (ok t, sw) k = onto t (k sw)

abbrev pub within : Answer → Answer
within (err e, sw) = (err (wrapped "in config content" e), sw)
within (ok t, sw) = (ok t, sw)

module _ (r : StoreConfigResolver) (stack : String) where
  abbrev config_root : Option Rows → String
  config_root none = ""
  config_root (some rows) =
      setting_default rows.reads_fail rows.settings "config_mount_root" default_config_mount_root

  -- `ResolveConfigPath`
  unfoldable pub resolve_config_path : String → String
  unfolding setting_default config_mount_path
  resolve_config_path name = config_mount_path (config_root r.store) name

  abbrev decrypted : (String → Result String) → Option SecretRow → Result String
  decrypted decrypt none = err (plain "secret not found")
  decrypted decrypt (some s) =
      if not (s.stack == "") && not (s.stack == stack)
      then err (plain "secret belongs to another stack")
      else elim (decrypt s.payload) [ ok t ↦ ok t | err e ↦ err (wrapped "decrypt secret" e) ]

  abbrev secret_in : Option (String → Result String) → Option Rows → String → Result String
  secret_in decrypt none name = err (plain "secret-value resolution unavailable (no store)")
  secret_in none (some rows) name =
      err (plain "secret-value resolution unavailable (no encryption key)")
  secret_in (some decrypt) (some rows) name =
      if rows.reads_fail
      then err (plain "get secret")
      else decrypted decrypt (find_secret name rows.secrets)

  -- `ResolveSecretValue`
  unfoldable pub resolve_secret_value : String → Result String
  unfolding find_secret
  resolve_secret_value name = secret_in r.decrypt r.store name

  abbrev pub by_kind : (String → Swarm → Answer) → Kind → String → Swarm → Answer
  by_kind nested config_path name sw = (ok (resolve_config_path name), sw)
  by_kind nested config name sw = nested name sw
  by_kind nested secret_path name sw = (ok (secret_mount_path name), sw)
  by_kind nested secret name sw = (resolve_secret_value name, sw)

  abbrev pub named : (String → Swarm → Answer) → Kind → String → Swarm → Answer
  named nested k name sw =
      if name == ""
      then (err (plain "reference with an empty name in config content"), sw)
      else within (by_kind nested k name sw)

  -- What stands for one piece.
  abbrev pub replaced : (String → Swarm → Answer) → Piece → Swarm → Answer
  replaced nested (literal c) sw = (ok (String.◌∷◌ c ""), sw)
  replaced nested (reference k raw) sw = named nested k (trim_space raw) sw

  -- `ReplaceAllStringFunc`, which resolves nothing more behind the first error.
  unfoldable pub replace_all : (String → Swarm → Answer) → List Piece → Swarm → Answer
  replace_all nested [] sw = (ok "", sw)
  replace_all nested (p ∷ ps) sw = and_then (replaced nested p sw) (replace_all nested ps)

  abbrev pub of_content : (String → Swarm → Answer) → String × Swarm → Answer
  of_content expand (content, sw) = expand content sw

  abbrev pub of_row : (String → Swarm → Answer) → Option ConfigRow → Swarm → Answer
  of_row expand none sw = (err (plain "config not found for stack"), sw)
  of_row expand (some c) sw = of_content expand (content_of r.docker c sw)

  abbrev pub in_store : (String → Swarm → Answer) → Option Rows → String → Swarm → Answer
  in_store expand none name sw = (err (plain "config resolution unavailable (no store)"), sw)
  in_store expand (some rows) name sw =
      if rows.reads_fail
      then (err (wrapped "get config" (plain "query config for stack")), sw)
      else of_row expand (config_for_stack stack name rows.configs) sw

  -- `resolveConfig`, by the expansion of its depth.
  unfoldable pub resolve_with : (String → Swarm → Answer) → String → Swarm → Answer
  unfolding config_for_stack content_of
  resolve_with expand name sw = in_store expand r.store name sw

  -- `expandConfigRefs`, by the levels left.
  unfoldable pub expand : ℕ → String → Swarm → Answer
  unfolding replace_all resolve_with scan has_char
  expand zero content sw = (err (plain "config reference chain too deep"), sw)
  expand (suc n) content sw =
      if not (has_char b'(' content)
      then (ok content, sw)
      else replace_all (resolve_with (expand n)) (scan false 0 content) sw

  -- Depths 0 to `configExpandDepth` are expanded.
  abbrev pub levels : ℕ
  levels = 9

  -- `ExpandConfigRefs`
  unfoldable pub expand_config_refs : String → Swarm → Answer
  unfolding expand
  expand_config_refs content sw = expand levels content sw

  -- `ResolveConfig`
  unfoldable pub resolve_config : String → Swarm → Answer
  unfolding expand resolve_with
  resolve_config name sw = resolve_with (expand levels) name sw
