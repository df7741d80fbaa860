-- ===== src/Stacks/Resolver/Cycles.antt =====
-- A chain of references that never leaves a set of configs fails.
use poor_man_cluster.Common.{
  ℕ, zero, suc, String, ◌==◌, ◌≡◌, refl, Bool, true, false, ◌||◌, some, List, [], ◌∷◌, arith,
  Bool-cases, inl, inr,
}
use poor_man_cluster.Common.Errors.{Error, plain, wrapped, ok, err}
use poor_man_cluster.Common.Text.{trim_space}
use poor_man_cluster.Refs.{has_char}
use poor_man_cluster.Stacks.Resolver.{
  StoreConfigResolver, Answer, onto, and_then, within, named, replaced, replace_all, resolve_with,
  expand, resolve_config,
}
use poor_man_cluster.Stacks.Resolver.Stored.{ConfigRow, Rows, Swarm, config_for_stack, content_of}
use poor_man_cluster.Stacks.Resolver.Pattern.{
  config, config_path, secret, secret_path, Piece, literal, reference, scan,
}

abbrev pub IsErr : Answer → Type 0
IsErr a = (e : Error) × (a.0 ≡ err e)

-- Whether a piece is a `config()` reference to a name of the set.
abbrev refers_to : (String → Bool) → Piece → Bool
refers_to inside (literal c) = false
refers_to inside (reference config raw) = inside (trim_space raw)
refers_to inside (reference config_path raw) = false
refers_to inside (reference secret_path raw) = false
refers_to inside (reference secret raw) = false

unfoldable pub any_refers : (String → Bool) → List Piece → Bool
any_refers inside [] = false
any_refers inside (p ∷ ps) = refers_to inside p || any_refers inside ps

-- A content with a `config()` reference to a name of the set.
pub record RefersTo (inside : String → Bool) (content : String) : Type 0 where
  pub has_paren : has_char b'(' content ≡ true
  pub has_reference : any_refers inside (scan false 0 content) ≡ true

IsErr-onto : (t : String) (a : Answer) → IsErr a → IsErr (onto t a)
IsErr-onto t (ok u, sw) (e, h) = absurd (ground arith)
IsErr-onto t (err f, sw) (e, h) = (f, refl)

IsErr-within : (a : Answer) → IsErr a → IsErr (within a)
IsErr-within (ok u, sw) (e, h) = absurd (ground arith)
IsErr-within (err f, sw) (e, h) = (wrapped "in config content" f, refl)

IsErr-and_then_here : (a : Answer) (k : Swarm → Answer) → IsErr a → IsErr (and_then a k)
IsErr-and_then_here (ok u, sw) k (e, h) = absurd (ground arith)
IsErr-and_then_here (err f, sw) k (e, h) = (f, refl)

IsErr-and_then :
    (a : Answer) (k : Swarm → Answer) → ((sw : Swarm) → IsErr (k sw)) → IsErr (and_then a k)
IsErr-and_then (ok u, sw) k h = IsErr-onto u (k sw) (h sw)
IsErr-and_then (err f, sw) k h = (f, refl)

module _ (r : StoreConfigResolver) (stack : String) (inside : String → Bool) where
  module _ (nested : String → Swarm → Answer)
      (fails : (name : String) (sw : Swarm) → inside name ≡ true → IsErr (nested name sw)) where
    IsErr-named :
        (name : String) (sw : Swarm)
        → inside name ≡ true
        → IsErr (named r stack nested config name sw)
    IsErr-named name sw h = elim (Bool-cases (name == "")) [
      | inl blank ↦ rw blank (plain "reference with an empty name in config content", refl)
      | inr given ↦ rw given (IsErr-within (nested name sw) (fails name sw h))
    ]

    IsErr-replaced :
        (p : Piece) (sw : Swarm) → refers_to inside p ≡ true → IsErr (replaced r stack nested p sw)
    IsErr-replaced (literal c) sw h = absurd (ground arith)
    IsErr-replaced (reference config raw) sw h = IsErr-named (trim_space raw) sw h
    IsErr-replaced (reference config_path raw) sw h = absurd (ground arith)
    IsErr-replaced (reference secret_path raw) sw h = absurd (ground arith)
    IsErr-replaced (reference secret raw) sw h = absurd (ground arith)

    IsErr-replace_all :
        (ps : List Piece) (sw : Swarm)
        → any_refers inside ps ≡ true
        → IsErr (replace_all r stack nested ps sw)
    unfolding any_refers replace_all
    IsErr-replace_all [] sw h = absurd (ground arith)
    IsErr-replace_all (p ∷ ps) sw h = elim (Bool-cases (refers_to inside p)) [
      | inl here ↦
          IsErr-and_then_here (replaced r stack nested p sw) (replace_all r stack nested ps)
            (IsErr-replaced p sw here)
      | inr there ↦
          IsErr-and_then (replaced r stack nested p sw) (replace_all r stack nested ps)
            (λ sw'. IsErr-replace_all ps sw' (ground arith))
    ]

  module _ (rows : Rows) (stored : r.store ≡ some rows) (local : r.docker ≡ false)
      (refers : (name : String)
        → inside name ≡ true
        → (c : ConfigRow) × (config_for_stack stack name rows.configs ≡ some c)
          × RefersTo inside c.content) where
    IsErr-in_store :
        (f : String → Swarm → Answer)
        → ((content : String) (sw : Swarm) → RefersTo inside content → IsErr (f content sw))
        → (name : String) (sw : Swarm) → inside name ≡ true
        → IsErr (resolve_with r stack f name sw)
    unfolding resolve_with content_of
    IsErr-in_store f h name sw i =
        let (c, found, refers_on) = refers name i in
        elim (Bool-cases rows.reads_fail) [
          | inl failed ↦
              rw (stored, failed) (wrapped "get config" (plain "query config for stack"), refl)
          | inr answers ↦ rw (stored, answers, found, local) (h c.content sw refers_on)
        ]

    IsErr-expand :
        (n : ℕ) (content : String) (sw : Swarm)
        → RefersTo inside content
        → IsErr (expand r stack n content sw)
    unfolding expand
    IsErr-expand zero content sw h = (plain "config reference chain too deep", refl)
    IsErr-expand (suc n) content sw h = rw h.has_paren (
        IsErr-replace_all (resolve_with r stack (expand r stack n))
          (IsErr-in_store (expand r stack n) (IsErr-expand n)) (scan false 0 content) sw
          h.has_reference)

    -- Without a Docker client: if every config of a set refers by `config()` to one of the set, as
    -- in a cycle, then resolving any of them for the stack ends with an error.
    pub cycle_refused :
        (name : String) (sw : Swarm)
        → inside name ≡ true
        → (e : Error) × ((resolve_config r stack name sw).0 ≡ err e)
    unfolding resolve_config
    cycle_refused name sw h = IsErr-in_store (expand r stack 9) (IsErr-expand 9) name sw h
