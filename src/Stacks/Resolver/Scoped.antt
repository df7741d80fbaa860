-- ===== src/Stacks/Resolver/Scoped.antt =====
-- What one stack resolves does not depend on the rows of another.
use poor_man_cluster.Stacks.Resolver.Visible.{
  Agrees, Agrees-and_then, Agrees-within, DistinctSecrets, SameResult, SameResult-join,
  config_for_stack-visible, decrypted-visible, visible_configs, visible_secrets,
}
use poor_man_cluster.Common.{
  ℕ, zero, suc, String, ◌==◌, ◌≡◌, refl, sym, ap, ◌∙◌, Bool, false, Option, none, some, List, [],
  ◌∷◌, Bool-cases, inl, inr,
}
use poor_man_cluster.Common.Errors.{Result}
use poor_man_cluster.Common.Text.{trim_space}
use poor_man_cluster.Refs.{has_char}
use poor_man_cluster.Stacks.Resolver.{
  StoreConfigResolver, Answer, named, by_kind, replaced, replace_all, of_row, resolve_with,
  resolve_config_path, resolve_secret_value, secret_in, expand, resolve_config,
}
use poor_man_cluster.Stacks.Resolver.Stored.{ConfigRow, Rows, Swarm, config_for_stack, content_of}
use poor_man_cluster.Stacks.Resolver.Pattern.{
  Kind, config, config_path, secret, secret_path, Piece, literal, reference, scan,
}

-- Two stores that differ at most in rows which the stack may not use.
pub record SameFor (stack : String) (a b : Rows) : Type 0 where
  pub same_configs : visible_configs stack a.configs ≡ visible_configs stack b.configs
  pub same_secrets : visible_secrets stack a.secrets ≡ visible_secrets stack b.secrets
  pub same_settings : a.settings ≡ b.settings
  pub same_reads : a.reads_fail ≡ b.reads_fail
  pub distinct : DistinctSecrets a.secrets
  pub distinct' : DistinctSecrets b.secrets

-- The resolver over a store.
abbrev pub over : Bool → Option (String → Result String) → Rows → StoreConfigResolver
over docker decrypt rows = record { store = some rows; docker = docker; decrypt = decrypt }

module _ (docker : Bool) (cipher : Option (String → Result String)) (stack : String) (a b : Rows)
    (same : SameFor stack a b) where
  same_config :
      (name : String)
      → config_for_stack stack name a.configs ≡ config_for_stack stack name b.configs
  same_config name =
      sym (config_for_stack-visible stack name a.configs)
      ∙ ap (config_for_stack stack name) same.same_configs
      ∙ config_for_stack-visible stack name b.configs

  same_path :
      (name : String)
      → resolve_config_path (over docker cipher a) stack name
        ≡ resolve_config_path (over docker cipher b) stack name
  unfolding resolve_config_path
  same_path name = rw (same.same_settings, same.same_reads) refl

  SameResult-secret_in :
      (c : Option (String → Result String)) (name : String)
      → SameResult
          (secret_in (over docker cipher a) stack c (some a) name)
          (secret_in (over docker cipher b) stack c (some b) name)
  SameResult-secret_in none name = tt
  SameResult-secret_in (some f) name = elim (Bool-cases b.reads_fail) [
    | inl failed ↦ rw (same.same_reads, failed) tt
    | inr answers ↦
        rw (same.same_reads, answers)
          (SameResult-join _ _ _
            (decrypted-visible (over docker cipher a) stack f name a.secrets same.distinct)
            (rw same.same_secrets
              (decrypted-visible (over docker cipher b) stack f name b.secrets same.distinct')))
  ]

  SameResult-secret :
      (name : String)
      → SameResult
          (resolve_secret_value (over docker cipher a) stack name)
          (resolve_secret_value (over docker cipher b) stack name)
  unfolding resolve_secret_value
  SameResult-secret name = SameResult-secret_in cipher name

  module _ (f g : String → Swarm → Answer)
      (nested : (name : String) (sw : Swarm) → Agrees (f name sw) (g name sw)) where
    Agrees-by_kind :
        (k : Kind) (name : String) (sw : Swarm)
        → Agrees
            (by_kind (over docker cipher a) stack f k name sw)
            (by_kind (over docker cipher b) stack g k name sw)
    Agrees-by_kind config_path name sw = (same_path name, refl)
    Agrees-by_kind config name sw = nested name sw
    Agrees-by_kind secret_path name sw = (refl, refl)
    Agrees-by_kind secret name sw = (SameResult-secret name, refl)

    Agrees-named :
        (k : Kind) (name : String) (sw : Swarm)
        → Agrees
            (named (over docker cipher a) stack f k name sw)
            (named (over docker cipher b) stack g k name sw)
    Agrees-named k name sw = elim (Bool-cases (name == "")) [
      | inl blank ↦ rw blank (tt, refl)
      | inr given ↦ rw given (Agrees-within _ _ (Agrees-by_kind k name sw))
    ]

    Agrees-replaced :
        (p : Piece) (sw : Swarm)
        → Agrees
            (replaced (over docker cipher a) stack f p sw)
            (replaced (over docker cipher b) stack g p sw)
    Agrees-replaced (literal c) sw = (refl, refl)
    Agrees-replaced (reference k raw) sw = Agrees-named k (trim_space raw) sw

    Agrees-replace_all :
        (ps : List Piece) (sw : Swarm)
        → Agrees
            (replace_all (over docker cipher a) stack f ps sw)
            (replace_all (over docker cipher b) stack g ps sw)
    unfolding replace_all
    Agrees-replace_all [] sw = (refl, refl)
    Agrees-replace_all (p ∷ ps) sw =
        Agrees-and_then (replaced (over docker cipher a) stack f p sw)
          (replaced (over docker cipher b) stack g p sw) _ _ (Agrees-replace_all ps)
          (Agrees-replaced p sw)

    Agrees-of_row :
        (c : Option ConfigRow) (sw : Swarm)
        → Agrees
            (of_row (over docker cipher a) stack f c sw)
            (of_row (over docker cipher b) stack g c sw)
    Agrees-of_row none sw = (tt, refl)
    Agrees-of_row (some c) sw = let (content, sw') = content_of docker c sw in nested content sw'

    Agrees-resolve_with :
        (name : String) (sw : Swarm)
        → Agrees
            (resolve_with (over docker cipher a) stack f name sw)
            (resolve_with (over docker cipher b) stack g name sw)
    unfolding resolve_with
    Agrees-resolve_with name sw = elim (Bool-cases b.reads_fail) [
      | inl failed ↦ rw (same.same_reads, failed) (tt, refl)
      | inr answers ↦
          rw (same.same_reads, answers, same_config name)
            (Agrees-of_row (config_for_stack stack name b.configs) sw)
    ]

  Agrees-expand :
      (n : ℕ) (content : String) (sw : Swarm)
      → Agrees
          (expand (over docker cipher a) stack n content sw)
          (expand (over docker cipher b) stack n content sw)
  unfolding expand
  Agrees-expand zero content sw = (tt, refl)
  Agrees-expand (suc n) content sw = elim (Bool-cases (has_char b'(' content)) [
    | inr plain_text ↦ rw plain_text (refl, refl)
    | inl may_refer ↦ rw may_refer (
        Agrees-replace_all
          (resolve_with (over docker cipher a) stack (expand (over docker cipher a) stack n))
          (resolve_with (over docker cipher b) stack (expand (over docker cipher b) stack n))
          (Agrees-resolve_with (expand (over docker cipher a) stack n)
            (expand (over docker cipher b) stack n) (Agrees-expand n))
          (scan false 0 content) sw)
  ]

  -- What a config resolves to for a stack depends on no other stack: over two stores that differ
  -- only in configs and secrets which another stack owns, and whose secrets have distinct names,
  -- both resolutions answer the same text or both fail, and they leave the swarm the same.
  pub resolve_config_scoped :
      (name : String) (sw : Swarm)
      → Agrees
          (resolve_config (over docker cipher a) stack name sw)
          (resolve_config (over docker cipher b) stack name sw)
  unfolding resolve_config
  resolve_config_scoped name sw =
      Agrees-resolve_with (expand (over docker cipher a) stack 9)
        (expand (over docker cipher b) stack 9) (Agrees-expand 9) name sw
