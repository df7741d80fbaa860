-- ===== src/Reconcile/RateLimit.antt =====
-- The pattern by which the loop limits what it repeats: a map from a stack to the time of the last
-- go, which `time.Since` is compared with. Times and intervals are in nanoseconds.
use poor_man_cluster.Common.{
  ℕ, ◌+◌, ◌-◌, ◌≤◌, ◌<◌, String, ◌==◌, eq_iff, ◌≡◌, subst, inl, inr, Bool, true, false, ◌&&◌,
  Option, none, some, List, [], ◌∷◌, arith, if◌then◌else◌, leb, Bool-cases, Map, lookup, insert,
  lookup-insert,
}

-- `last, ok := m[key]; !ok || time.Since(last) >= interval`
abbrev pub due : ℕ → String → ℕ → Map ℕ → Bool
due interval key now m = elim (lookup key m) [ none ↦ true | some last ↦ leb interval (now - last) ]

-- Something that happens to a state on events, and at most once per interval for each key.
pub record Limiter (S E : Type 0) : Type 0 where
  pub interval : ℕ
  pub positive : 0 < interval
  pub go : S → E → Bool
  pub next : S → E → S
  pub times : S → Map ℕ
  pub key : E → String
  pub now : E → ℕ
  pub idle : (s : S) (e : E) → go s e ≡ false → times (next s e) ≡ times s
  pub goes :
      (s : S) (e : E)
      → go s e ≡ true
      → (due interval (key e) (now e) (times s) ≡ true)
        × (times (next s e) ≡ insert (key e) (now e) (times s))

-- At least an interval behind the last go, if there was one.
abbrev pub After : ℕ → Option ℕ → ℕ → Type 0
After interval none t = Unit
After interval (some last) t = last + interval ≤ t

due-After :
    (i t : ℕ) (last : Option ℕ)
    → 0 < i
    → (elim last [ none ↦ true | some at ↦ leb i (t - at) ]) ≡ true
    → After i last t
due-After i t none p h = tt
due-After i t (some last) p h = ground arith

module _ {S E : Type 0} (l : Limiter S E) where
  -- Every go of the key stands at least an interval behind the one before it.
  abbrev pub Spaced : String → Option ℕ → S → List E → Type 0
  Spaced k last s [] = Unit
  Spaced k last s (e ∷ es) =
      if l.go s e && l.key e == k
      then After l.interval last (l.now e) × Spaced k (some (l.now e)) (l.next s e) es
      else Spaced k last (l.next s e) es

  next_go :
      (k : String) (s : S) (e : E)
      → l.go s e ≡ true
      → (l.key e == k) ≡ true
      → After l.interval (lookup k (l.times s)) (l.now e)
        × (lookup k (l.times (l.next s e)) ≡ some (l.now e))
  next_go k s e g same =
      let (ready, written) = l.goes s e g in
      let key : l.key e ≡ k = (eq_iff _ _).0 same in
      (
        due-After l.interval (l.now e) (lookup k (l.times s)) l.positive
            (subst (λ x. due l.interval x (l.now e) (l.times s) ≡ true) key ready),
        rw (written, lookup-insert, same),
      )

  next_kept :
      (k : String) (s : S) (e : E)
      → (l.go s e && l.key e == k) ≡ false
      → lookup k (l.times (l.next s e)) ≡ lookup k (l.times s)
  next_kept k s e h = elim (Bool-cases (l.go s e)) [
    | inl g ↦ rw ((l.goes s e g).1, lookup-insert) (ground arith)
    | inr idle ↦ rw (l.idle s e idle)
  ]

  -- From any state, whatever happens: between two goes of one key lies at least the interval.
  pub Spaced-times : (k : String) (s : S) (es : List E) → Spaced k (lookup k (l.times s)) s es
  Spaced-times k s [] = tt
  Spaced-times k s (e ∷ es) = elim (Bool-cases (l.go s e && l.key e == k)) [
    | inl goes ↦
        let (after, now_last) = next_go k s e (ground arith) (ground arith) in
        rw goes (
          after,
          subst (λ last. Spaced k last (l.next s e) es) now_last (Spaced-times k (l.next s e) es),
        )
    | inr kept ↦ rw kept (
        subst (λ last. Spaced k last (l.next s e) es) (next_kept k s e kept)
          (Spaced-times k (l.next s e) es))
  ]
