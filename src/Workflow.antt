-- ===== src/Workflow.antt =====
-- internal/workflow/workflow.go: named steps that run in order and stop at the first failure.
-- What the closures of the steps share is the state `S`; what they fail with is `E`.
pub mod Order
pub mod Invariant
pub mod Ends
use poor_man_cluster.Common.{String, Option, none, some, List, [], ◌∷◌, ◌++◌, map}

-- `Step`: `Run` may change the state also when it fails.
pub record Step {ℓ} (S E : Type ℓ) : Type ℓ where
  pub name : String
  pub run : S → Option E × S

-- `StepError`: the failing step's name beside its error.
pub record StepError {ℓ} (E : Type ℓ) : Type ℓ where
  pub step : String
  pub err : E

-- The progress lines printed, the error if any, and the state that is left.
pub record Outcome {ℓ} (S E : Type ℓ) : Type ℓ where
  pub out : List String
  pub error : Option (StepError E)
  pub state : S

module _ {ℓ} {S E : Type ℓ} where
  -- `Workflow.Add`
  pub add : List (Step S E) → String → (S → Option E × S) → List (Step S E)
  add w name f = w ++ (record { name = name; run = f }) ∷ []

  -- `Workflow.Steps`
  unfoldable pub steps : List (Step S E) → List String
  steps [] = []
  steps (st ∷ w) = st.name ∷ steps w

  -- The loop's body behind the call of the step: return the wrapped error, or go on.
  abbrev proceed : String → Option E → S → (S → Outcome S E) → Outcome S E
  proceed name (some e) s rest = record {
    out = name ∷ [];
    error = some (record { step = name; err = e });
    state = s;
  }
  proceed name none s rest = let r = rest s in record r { out = name ∷ r.out }

  -- `Workflow.Run`: a step's line is printed before the step runs.
  unfoldable pub run : List (Step S E) → S → Outcome S E
  run [] s = record { out = []; error = none; state = s }
  run (st ∷ w) s = let (failure, s') = st.run s in proceed st.name failure s' (run w)
