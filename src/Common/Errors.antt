-- ===== src/Common/Errors.antt =====
-- Go errors as values, and fallible results.
use Prim.Native.String.{String}
use mathlib.Core.Path.{◌≡◌, refl}
use mathlib.Core.Logic.{◌⊎◌, inl, inr}

-- An error: plain, a workflow's `StepError`, or one wrapped by `fmt.Errorf("…%w")`.
pub data Error : Type 0 where
  plain : String → Error
  step_error : String → Error → Error
  wrapped : String → Error → Error

pub data Result {ℓ} (A : Type ℓ) : Type ℓ where
  ok : A → Result A
  err : Error → Result A

infixl 5 ◌>>=◌
abbrev pub ◌>>=◌ {ℓ κ} : {A : Type ℓ} {B : Type κ} → Result A → (A → Result B) → Result B
ok a >>= f = f a
err e >>= f = err e

-- `if err != nil { return fmt.Errorf("…%w", err) }`
abbrev pub wrap {ℓ} : {A : Type ℓ} → String → Result A → Result A
wrap m (ok a) = ok a
wrap m (err e) = err (wrapped m e)

pub Result-cases {ℓ} :
    {A : Type ℓ} (r : Result A) → ((a : A) × (r ≡ ok a)) ⊎ ((e : Error) × (r ≡ err e))
Result-cases (ok a) = inl (a, refl)
Result-cases (err e) = inr (e, refl)
