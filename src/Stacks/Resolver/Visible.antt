-- ===== src/Stacks/Resolver/Visible.antt =====
-- A search for a row finds the same among those that the stack may use.
use poor_man_cluster.Common.{
  String, ◌==◌, eq_iff, ◌≡◌, refl, sym, ◌∙◌, Bool, true, false, ◌||◌, none, List, [], ◌∷◌, arith,
  if◌then◌else◌, Bool-cases, inl, inr,
}
use poor_man_cluster.Common.Errors.{Result, ok, err}
use poor_man_cluster.Stacks.Resolver.{
  StoreConfigResolver, Answer, onto, and_then, within, decrypted,
}
use poor_man_cluster.Stacks.Resolver.Stored.{
  ConfigRow, SecretRow, Swarm, is_visible, least_id, config_for_stack, find_secret,
}

-- The rows that a stack may use.
unfoldable pub visible_configs : String → List ConfigRow → List ConfigRow
visible_configs stack [] = []
visible_configs stack (c ∷ cs) =
    let rest = visible_configs stack cs in if is_visible stack c.stack then c ∷ rest else rest

unfoldable pub visible_secrets : String → List SecretRow → List SecretRow
visible_secrets stack [] = []
visible_secrets stack (s ∷ ss) =
    let rest = visible_secrets stack ss in if is_visible stack s.stack then s ∷ rest else rest

unfoldable pub has_secret : String → List SecretRow → Bool
has_secret name [] = false
has_secret name (s ∷ ss) = s.name == name || has_secret name ss

-- The names of the secrets are unique, as the table demands.
abbrev pub DistinctSecrets : List SecretRow → Type 0
DistinctSecrets [] = Unit
DistinctSecrets (s ∷ ss) = (has_secret s.name ss ≡ false) × DistinctSecrets ss

least_id-visible :
    (stack owner name : String) (cs : List ConfigRow)
    → is_visible stack owner ≡ true
    → least_id owner name (visible_configs stack cs) ≡ least_id owner name cs
unfolding least_id visible_configs
least_id-visible stack owner name [] h = refl
least_id-visible stack owner name (c ∷ cs) h =
    ground (arith, least_id-visible stack owner name cs h, eq_iff c.stack owner)

pub config_for_stack-visible :
    (stack name : String) (cs : List ConfigRow)
    → config_for_stack stack name (visible_configs stack cs) ≡ config_for_stack stack name cs
unfolding config_for_stack
config_for_stack-visible stack name cs =
    rw
      (
        least_id-visible stack stack name cs (ground (arith, eq_iff stack stack)),
        least_id-visible stack "" name cs (ground (arith, eq_iff stack "")),
      )
      refl

-- Both end with the same text, or both with an error.
abbrev pub SameResult : Result String → Result String → Type 0
SameResult (ok a) (ok b) = a ≡ b
SameResult (err e) (err f) = Unit
SameResult (ok a) (err f) = ⊥
SameResult (err e) (ok b) = ⊥

-- And the swarm is left the same.
abbrev pub Agrees : Answer → Answer → Type 0
Agrees a b = SameResult a.0 b.0 × (a.1 ≡ b.1)

SameResult-refl : (a : Result String) → SameResult a a
SameResult-refl (ok a) = refl
SameResult-refl (err e) = tt

pub SameResult-join : (a m b : Result String) → SameResult a m → SameResult b m → SameResult a b
SameResult-join (ok a) (ok m) (ok b) h k = h ∙ sym k
SameResult-join (err a) (err m) (err b) h k = tt
SameResult-join (ok a) (err m) b h k = absurd h
SameResult-join (err a) (ok m) b h k = absurd h
SameResult-join (ok a) (ok m) (err b) h k = absurd k
SameResult-join (err a) (err m) (ok b) h k = absurd k

Agrees-onto : (t u : String) (a b : Answer) → t ≡ u → Agrees a b → Agrees (onto t a) (onto u b)
Agrees-onto t u (ok a, sw) (ok b, sw') e (h, k) = (cc, k)
Agrees-onto t u (err a, sw) (err b, sw') e (h, k) = (tt, k)
Agrees-onto t u (ok a, sw) (err b, sw') e (h, k) = absurd h
Agrees-onto t u (err a, sw) (ok b, sw') e (h, k) = absurd h

pub Agrees-and_then :
    (a b : Answer) (k k' : Swarm → Answer)
    → ((sw : Swarm) → Agrees (k sw) (k' sw))
    → Agrees a b
    → Agrees (and_then a k) (and_then b k')
Agrees-and_then (ok t, sw) (ok u, sw') k k' f (h, e) =
    rw (sym e) (Agrees-onto t u (k sw) (k' sw) h (f sw))
Agrees-and_then (err t, sw) (err u, sw') k k' f (h, e) = (tt, e)
Agrees-and_then (ok t, sw) (err u, sw') k k' f (h, e) = absurd h
Agrees-and_then (err t, sw) (ok u, sw') k k' f (h, e) = absurd h

pub Agrees-within : (a b : Answer) → Agrees a b → Agrees (within a) (within b)
Agrees-within (ok t, sw) (ok u, sw') h = h
Agrees-within (err t, sw) (err u, sw') h = h
Agrees-within (ok t, sw) (err u, sw') (h, e) = absurd h
Agrees-within (err t, sw) (ok u, sw') (h, e) = absurd h

has_secret-visible :
    (stack name : String) (ss : List SecretRow)
    → has_secret name ss ≡ false
    → find_secret name (visible_secrets stack ss) ≡ none
unfolding has_secret find_secret visible_secrets
has_secret-visible stack name [] h = refl
has_secret-visible stack name (s ∷ ss) h = ground (arith, has_secret-visible stack name ss)

module _ (r : StoreConfigResolver) (stack : String) (decrypt : String → Result String) where
  pub decrypted-visible :
      (name : String) (ss : List SecretRow)
      → DistinctSecrets ss
      → SameResult
          (decrypted r stack decrypt (find_secret name ss))
          (decrypted r stack decrypt (find_secret name (visible_secrets stack ss)))
  unfolding find_secret visible_secrets
  decrypted-visible name [] d = tt
  decrypted-visible name (s ∷ ss) (new, d) = elim (Bool-cases (s.name == name)) [
    | inr other ↦ elim (Bool-cases (is_visible stack s.stack)) [
      | inl shown ↦ rw (other, shown, other) (decrypted-visible name ss d)
      | inr hidden ↦ rw (other, hidden) (decrypted-visible name ss d)
    ]
    | inl same ↦ elim (Bool-cases (is_visible stack s.stack)) [
      | inl shown ↦ rw (same, shown, same) (SameResult-refl _)
      | inr hidden ↦
          let foreign : (s.stack == stack) ≡ false = ground arith in
          let owned : (s.stack == "") ≡ false = ground arith in
          let at_name : name ≡ s.name = sym ((eq_iff s.name name).0 same) in
          rw (same, foreign, owned, at_name, has_secret-visible stack s.name ss new) tt
    ]
  ]
