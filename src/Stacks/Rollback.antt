-- ===== src/Stacks/Rollback.antt =====
-- `Rollback` of internal/stacks/deploy.go: a stored revision is applied again, as a new one.
-- Reading, placing and rendering its source with the current translator is a parameter, and so are
-- the hash, the JSON of the payload, and what `applyToSwarm` answers.
pub mod Outcomes
use poor_man_cluster.Common.{ℕ, String, Option, none, some, List, [], ◌∷◌}
use poor_man_cluster.Common.Errors.{Error, plain, step_error, wrapped, Result, ok, err}
use poor_man_cluster.Store.Stacks.{
  StackRevision, Tables, revision, next_free_revision, record_deploy, set_revision_rendered_hash,
}
use poor_man_cluster.Workflow.{Step, StepError, Outcome, run}

-- `now` is `time.Now().Unix()`.
pub record Outside : Type 0 where
  pub now : ℕ
  pub translate : StackRevision → Result String
  pub payload : ℕ → Option String → String
  pub apply : String → ℕ → Option Error
  pub config_hash : String → String

-- The variables that the steps share, and the store; `row` is nil until the first step has run.
pub record State : Type 0 where
  pub row : Option StackRevision
  pub rendered : String
  pub number : ℕ
  pub tables : Tables

-- The rest of a step that needs the row.
abbrev pub with_row :
    Option StackRevision → (StackRevision → Option Error × State) → State → Option Error × State
with_row none f s = (some (plain "nil source revision"), s)
with_row (some row) f s = f row

module _ (o : Outside) (stack_name : String) (source : ℕ) where
  abbrev loaded : State → Result StackRevision → Option Error × State
  loaded s (err e) = (some e, s)
  loaded s (ok row) = (none, record s { row = some row })

  -- "Loading source revision"
  unfoldable pub load : State → Option Error × State
  unfolding revision
  load s = loaded s (revision stack_name source s.tables)

  abbrev translated : State → Result String → Option Error × State
  translated s (err e) = (some (wrapped "rollback source" e), s)
  translated s (ok y) = (none, record s { rendered = y })

  -- "Re-translating source manifest"
  unfoldable pub retranslate : State → Option Error × State
  retranslate s = with_row s.row (λ row. translated s (o.translate row)) s

  -- The revision that is recorded; its hash is stamped once it is applied.
  abbrev pub rolled_back : StackRevision → String → ℕ → StackRevision
  rolled_back row rendered number = record {
    stack_name = stack_name;
    revision = number;
    source_yaml = row.source_yaml;
    rendered_yaml = rendered;
    rendered_hash = "";
    source_file = "";
    payload_json = some (o.payload source row.payload_json);
    created_at = o.now;
  }

  abbrev stored : State → Result Tables → Option Error × State
  stored s (err e) = (some (wrapped "record rollback" e), s)
  stored s (ok t) = (none, record s { tables = t })

  abbrev numbered : StackRevision → State → Result ℕ → Option Error × State
  numbered row s (err e) = (some (wrapped "assign revision" e), s)
  numbered row s (ok number) =
      stored (record s { number = number })
        (record_deploy (rolled_back row s.rendered number) "" o.now s.tables)

  -- "Recording rollback revision"
  unfoldable pub store : State → Option Error × State
  unfolding next_free_revision record_deploy
  store s = with_row s.row (λ row. numbered row s (next_free_revision stack_name o.now s.tables)) s

  abbrev stamped : State → Result Tables → Option Error × State
  stamped s (err e) = (some e, s)
  stamped s (ok t) = (none, record s { tables = t })

  abbrev applied : State → Option Error → Option Error × State
  applied s (some e) = (some e, s)
  applied s none =
      stamped s (set_revision_rendered_hash stack_name s.number (o.config_hash s.rendered) s.tables)

  -- "Re-deploying stack from source"
  unfoldable pub redeploy : State → Option Error × State
  unfolding set_revision_rendered_hash
  redeploy s = applied s (o.apply s.rendered s.number)

  abbrev pub workflow : List (Step State Error)
  workflow =
      (record { name = "Loading source revision"; run = load })
      ∷ (record { name = "Re-translating source manifest"; run = retranslate })
      ∷ (record { name = "Recording rollback revision"; run = store })
      ∷ (record { name = "Re-deploying stack from source"; run = redeploy })
      ∷ []

  abbrev pub initial : Tables → State
  initial t = record { row = none; rendered = ""; number = 0; tables = t }

  -- The result: the new revision, by its number.
  abbrev result_of : Option (StepError Error) → ℕ → Result ℕ
  result_of none number = ok number
  result_of (some e) number = err (step_error e.step e.err)

  -- `Rollback`
  unfoldable pub rollback : Tables → Result ℕ × Tables
  unfolding run
  rollback t =
      let r = run workflow (initial t) in (result_of r.error r.state.number, r.state.tables)
