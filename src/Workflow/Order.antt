-- ===== src/Workflow/Order.antt =====
-- What a run of a workflow has done when it returns.
use poor_man_cluster.Common.{String, ◌≡◌, refl, ap, Option, none, some, List, [], ◌∷◌, ◌++◌, arith}
use poor_man_cluster.Workflow.{Step, StepError, Outcome, steps, run, proceed}

module _ {ℓ} {S E : Type ℓ} where
  -- Where a run stopped: the steps before it all passed, and those behind it did not run.
  pub record StoppedAt (w : List (Step S E)) (s : S) (e : StepError E) (r : Outcome S E)
      : Type ℓ where
    pub before : List (Step S E)
    pub failing : Step S E
    pub behind : List (Step S E)
    pub parts : w ≡ before ++ failing ∷ behind
    pub passed : (run before s).error ≡ none
    pub failed : failing.run (run before s).state ≡ (some e.err, r.state)
    pub named : e.step ≡ failing.name
    pub printed : r.out ≡ steps before ++ failing.name ∷ []

  proceed-error :
      (st : Step S E) (w : List (Step S E)) (s : S) (e : StepError E) (failure : Option E) (s' : S)
      → st.run s ≡ (failure, s')
      → ((proceed st.name failure s' (run w)).error ≡ some e)
      → ((run w s').error ≡ some e → StoppedAt w s' e (run w s'))
      → StoppedAt (st ∷ w) s e (proceed st.name failure s' (run w))
  unfolding run steps
  proceed-error st w s e (some x) s' at h ih = record {
    before = [];
    failing = st;
    behind = w;
    parts = refl;
    passed = refl;
    failed = ground arith;
    named = ground arith;
    printed = refl;
  }
  proceed-error st w s e none s' at h ih =
      let r = ih h in
      record {
        before = st ∷ r.before;
        failing = r.failing;
        behind = r.behind;
        parts = ap (λ (v : List (Step S E)). st ∷ v) r.parts;
        passed = rw at r.passed;
        failed = rw at r.failed;
        named = r.named;
        printed = ap (λ (o : List String). st.name ∷ o) r.printed;
      }

  -- A run that fails stopped at one step: it printed, and so ran, the steps up to that one in their
  -- order, those before it passed, and its error is the step's own under the step's name.
  pub run-error :
      (w : List (Step S E)) (s : S) (e : StepError E)
      → (run w s).error ≡ some e
      → StoppedAt w s e (run w s)
  unfolding run
  run-error [] s e h = cc
  run-error (st ∷ w) s e h =
      let (failure, s') = st.run s in proceed-error st w s e failure s' refl h (run-error w s' e)

  -- A run without an error printed, and so ran, every step.
  pub run-out_success :
      (w : List (Step S E)) (s : S) → (run w s).error ≡ none → (run w s).out ≡ steps w
  unfolding run steps
  run-out_success [] s h = refl
  run-out_success (st ∷ w) s h = ground (arith, run-out_success w (st.run s).1)
