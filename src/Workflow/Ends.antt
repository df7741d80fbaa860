-- ===== src/Workflow/Ends.antt =====
-- How a run ends, step by step: the error and the state, without the printed lines.
use poor_man_cluster.Common.{◌≡◌, refl, ◌∙◌, none, some, List, [], ◌∷◌}
use poor_man_cluster.Workflow.{Step, Outcome, run}

pub record SameEnd {ℓ} {S E : Type ℓ} (r r' : Outcome S E) : Type ℓ where
  pub same_error : r.error ≡ r'.error
  pub same_state : r.state ≡ r'.state

infixr 30 ◌and_then◌
pub ◌and_then◌ {ℓ} :
    {S E : Type ℓ} {r r' r'' : Outcome S E} → SameEnd r r' → SameEnd r' r'' → SameEnd r r''
h and_then k = record {
  same_error = h.same_error ∙ k.same_error;
  same_state = h.same_state ∙ k.same_state;
}

module _ {ℓ} {S E : Type ℓ} (st : Step S E) (w : List (Step S E)) (s s' : S) where
  -- A step that passes hands its state to the others.
  pub run-pass : st.run s ≡ (none, s') → SameEnd (run (st ∷ w) s) (run w s')
  unfolding run
  run-pass h = rw h (record { same_error = refl; same_state = refl })

  -- A step that fails ends the run.
  pub run-fail :
      (e : E)
      → st.run s ≡ (some e, s')
      → SameEnd
          (run (st ∷ w) s)
          (record { out = []; error = some (record { step = st.name; err = e }); state = s' })
  unfolding run
  run-fail e h = rw h (record { same_error = refl; same_state = refl })

-- A run without steps ends where it is.
pub run-done {ℓ} :
    {S E : Type ℓ} (s : S)
    → SameEnd (run {E = E} [] s) (record { out = []; error = none; state = s })
unfolding run
run-done s = record { same_error = refl; same_state = refl }
