-- ===== src/Workflow/Invariant.antt =====
-- Invariants of the state that the steps of a workflow share.
use poor_man_cluster.Common.{Option, none, some, List, [], ◌∷◌, All, String}
use poor_man_cluster.Workflow.{Step, run, proceed}

-- A step keeps `P` whether it passes or fails.
abbrev pub Keeps {ℓ κ} : {S E : Type ℓ} → (S → Type κ) → Step S E → Type (ℓ ⊔ κ)
Keeps {S = S} P st = (s : S) → P s → P (st.run s).1

module _ {ℓ κ} {S E : Type ℓ} (P : S → Type κ) where
  Keeps-proceed :
      (name : String) (failure : Option E) (s : S) (w : List (Step S E))
      → P s
      → P (run w s).state
      → P (proceed name failure s (run w)).state
  Keeps-proceed name none s w here there = there
  Keeps-proceed name (some e) s w here there = here

  -- What every step keeps, a run keeps, wherever it stops.
  pub run-keeps :
      (w : List (Step S E)) (s : S)
      → All (λ (st : Step S E). Keeps P st) w
      → P s
      → P (run w s).state
  unfolding run
  run-keeps [] s all p = p
  run-keeps (st ∷ w) s (first, rest) p =
      let p' = first s p in
      Keeps-proceed st.name (st.run s).0 (st.run s).1 w p' (run-keeps w (st.run s).1 rest p')
