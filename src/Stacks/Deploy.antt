-- ===== src/Stacks/Deploy.antt =====
-- `deploy` of internal/stacks/deploy.go: the pipeline behind `Deploy` and `DeployAsync`.
-- Parsing, interpolating, translating and rendering the manifest are parameters, and so are the
-- JSON of the payload, the directories made on the host, what `applyToSwarm` answers, and the hash.
mod Data
pub mod Keeps
pub mod Steps
pub mod Isolation
pub mod Accepted
pub mod Outcomes
pub mod Conflicts
pub mod Retried
pub mod Pins
pub use Data.{Payload, App, Deployed, Outside, State}
use poor_man_cluster.Common.{
  ℕ, String, ◌≡◌, refl, ◌==◌, Bool, true, false, not, ◌&&◌, Option, none, some, List, [], ◌∷◌,
  if◌then◌else◌,
}
use poor_man_cluster.Common.Errors.{Error, plain, step_error, wrapped, Result, ok, err}
use poor_man_cluster.Manifest.Ir.{Ir}
use poor_man_cluster.Store.Stacks.{
  Stack, StackRevision, Tables, stack, find_stack, next_free_revision, record_deploy,
  set_revision_rendered_hash, record_stack_error,
}
use poor_man_cluster.Stacks.Placement.{PinResolver, resolve_placements}
use poor_man_cluster.Workflow.{Step, StepError, Outcome, run, steps}

abbrev pub or_kept : String → String → String
or_kept given kept = if given == "" then kept else given

module _ {Body St : Type 0} where
  -- What a step that has passed does to the state; a failed step leaves it as it was.
  abbrev set_or_fail :
      {A : Type 0} → State Body St → (A → State Body St) → Result A → Option Error × State Body St
  set_or_fail s f (err e) = (some e, s)
  set_or_fail s f (ok a) = (none, f a)

  -- The rest of a step that reads the app.
  abbrev with_app :
      Option (App Body)
      → (App Body → Option Error × State Body St)
      → State Body St
      → Option Error × State Body St
  with_app none f s = (some (plain "nil app"), s)
  with_app (some app) f s = f app

module _ {Body St : Type 0} (o : Outside Body St) (p : Payload) where
  -- The overrides by the payload.
  abbrev pub named : App Body → App Body
  named app = record app {
    name = or_kept p.app_name app.name;
    version = or_kept p.version app.version;
  }

  abbrev parsed : State Body St → Result (App Body) → Option Error × State Body St
  parsed s (err e) = (some (wrapped "parse manifest" e), s)
  parsed s (ok app) =
      if app.platform
      then (some (plain "parse manifest: platform: true is reserved"), s)
      else (none, record s { app = some (named app) })

  -- "Parsing manifest (DSL)"
  unfoldable pub parse_step : State Body St → Option Error × State Body St
  parse_step s = parsed s (o.parse p.manifest)

  -- Whether the stack is recorded under another repository than the payload's.
  abbrev pub from_other_repo : Option String → Bool
  from_other_repo none = false
  from_other_repo (some url) = not (url == "") && not (p.repo_url == "") && not (url == p.repo_url)

  abbrev pub conflict_error : Error
  conflict_error = plain "stack already exists from repo"

  abbrev checked : Option Stack → Option Error
  checked none = none
  checked (some existing) = if from_other_repo existing.repo_url then some conflict_error else none

  -- "Checking for app name conflicts": a stack that is not found is no conflict.
  unfoldable pub conflict_step : State Body St → Option Error × State Body St
  conflict_step s =
      with_app s.app (λ (app : App Body). (checked (find_stack app.name s.tables.stacks), s)) s

  abbrev interpolated : State Body St → App Body → String × Body → State Body St
  interpolated s app made = record s { app = some (record app { version = made.0; body = made.1 }) }

  abbrev validated : State Body St → App Body → Option Error × State Body St
  validated s app = set_or_fail s (interpolated s app) (o.interpolate_validate app)

  -- "Interpolating and validating manifest"
  unfoldable pub validate_step : State Body St → Option Error × State Body St
  validate_step s = with_app s.app (validated s) s

  abbrev rendered_as : State Body St → Ir → Result String → Option Error × State Body St
  rendered_as s ir (err e) = (some (wrapped "translate" e), s)
  rendered_as s ir (ok y) = (none, record s { ir = some ir; rendered = y })

  -- The pins that are written stay written also when the rendering fails.
  abbrev placed : State Body St → Result Ir × St → Option Error × State Body St
  placed s (err e, pins) = (some (wrapped "translate" e), record s { pins = pins })
  placed s (ok ir, pins) = rendered_as (record s { pins = pins }) ir (o.render_stamped ir)

  abbrev built : State Body St → App Body → Result Ir → Option Error × State Body St
  built s app (err e) = (some (wrapped "translate" e), s)
  built s app (ok ir) = placed s (resolve_placements o.pins s.pins app.name ir)

  abbrev translated : State Body St → App Body → Option Error × State Body St
  translated s app = built s app (o.build_ir app)

  -- "Translating to Compose (resolving configs/secrets)"
  unfoldable pub translate_step : State Body St → Option Error × State Body St
  translate_step s = with_app s.app (translated s) s

  abbrev pub step_names : List String
  step_names =
      "Parsing manifest (DSL)" ∷ "Checking for app name conflicts"
      ∷ "Interpolating and validating manifest"
      ∷ "Translating to Compose (resolving configs/secrets)" ∷ "Recording revision"
      ∷ "Ensuring storage directories" ∷ "Deploying stack to the swarm" ∷ []

  -- The revision that is recorded; its hash is stamped once it is applied.
  abbrev pub new_revision : App Body → String → ℕ → StackRevision
  new_revision app rendered number = record {
    stack_name = app.name;
    revision = number;
    source_yaml = p.manifest;
    rendered_yaml = rendered;
    rendered_hash = "";
    source_file = p.file;
    payload_json = some (o.payload_json p step_names);
    created_at = o.now;
  }

  abbrev stored : State Body St → Result Tables → Option Error × State Body St
  stored s (err e) = (some (wrapped "record deploy" e), s)
  stored s (ok t) = (none, record s { tables = t })

  abbrev numbered : State Body St → App Body → Result ℕ → Option Error × State Body St
  numbered s app (err e) = (some (wrapped "assign revision" e), s)
  numbered s app (ok number) =
      stored (record s { number = number })
        (record_deploy (new_revision app s.rendered number) p.repo_url o.now s.tables)

  abbrev recorded : State Body St → App Body → Option Error × State Body St
  recorded s app = numbered s app (next_free_revision app.name o.now s.tables)

  -- "Recording revision"
  unfoldable pub record_step : State Body St → Option Error × State Body St
  record_step s = with_app s.app (recorded s) s

  -- "Ensuring storage directories"
  unfoldable pub ensure_step : State Body St → Option Error × State Body St
  ensure_step s = (o.ensure_volume_dirs s.rendered, s)

  abbrev stamped : State Body St → App Body → Option Error → Option Error × State Body St
  stamped s app (some e) = (some e, s)
  stamped s app none =
      set_or_fail s (λ (t : Tables). record s { tables = t })
        (set_revision_rendered_hash app.name s.number (o.config_hash s.rendered) s.tables)

  abbrev apply_now : State Body St → Option (App Body) → Option Ir → Option Error × State Body St
  apply_now s none i = (some (plain "nil app"), s)
  apply_now s (some app) none = (some (plain "nil ir"), s)
  apply_now s (some app) (some ir) = stamped s app (o.apply app ir s.rendered s.number)

  -- "Deploying stack to the swarm": at once, or in a goroutine that is only started here.
  unfoldable pub apply_step : Bool → State Body St → Option Error × State Body St
  apply_step true s = (none, record s { background = true })
  apply_step false s = apply_now s s.app s.ir

  abbrev pub workflow : Bool → List (Step (State Body St) Error)
  workflow async =
      (record { name = "Parsing manifest (DSL)"; run = parse_step })
      ∷ (record { name = "Checking for app name conflicts"; run = conflict_step })
      ∷ (record { name = "Interpolating and validating manifest"; run = validate_step })
      ∷ (record {
        name = "Translating to Compose (resolving configs/secrets)";
        run = translate_step;
      })
      ∷ (record { name = "Recording revision"; run = record_step })
      ∷ (record { name = "Ensuring storage directories"; run = ensure_step })
      ∷ (record { name = "Deploying stack to the swarm"; run = apply_step async })
      ∷ []

  -- The steps that the revision records are the workflow's own.
  workflow-steps : (async : Bool) → steps (workflow async) ≡ step_names
  unfolding steps
  workflow-steps async = refl

  abbrev pub initial : Tables → St → State Body St
  initial t pins = record {
    app = none;
    ir = none;
    rendered = "";
    number = 0;
    background = false;
    tables = t;
    pins = pins;
  }

  abbrev or_unrecorded : Tables → Result Tables → Tables
  or_unrecorded t (err e) = t
  or_unrecorded t (ok t') = t'

  -- `_, _ = s.Store.RecordStackError(…)`
  abbrev pub note : String → ℕ → String → Tables → Tables
  note name number message t = or_unrecorded t (record_stack_error name number message o.now t)

  abbrev noted : Option (App Body) → String → State Body St → State Body St
  noted none message s = s
  noted (some app) message s = record s { tables = note app.name s.number message s.tables }

  abbrev completed : Option (App Body) → State Body St → Result Deployed
  completed none s = err (plain "nil app")
  completed (some app) s = ok (record {
    stack_name = app.name;
    revision = s.number;
    rendered_yaml = s.rendered;
    changed = true;
  })

  abbrev pub finished : Option (StepError Error) → State Body St → Result Deployed × State Body St
  finished (some e) s =
      (err (step_error e.step e.err), noted s.app (o.error_text (step_error e.step e.err)) s)
  finished none s = (completed s.app s, noted s.app "" s)

  -- `deploy`
  unfoldable pub deploy : Bool → Tables → St → Result Deployed × State Body St
  unfolding run
  deploy async t pins =
      if p.manifest == ""
      then (err (plain "manifest: required"), initial t pins)
      else (let r = run (workflow async) (initial t pins) in finished r.error r.state)

  abbrev stamped_late : App Body → String → ℕ → Tables → Result Tables → Tables
  stamped_late app rendered number t (err e) = note app.name number "" t
  stamped_late app rendered number t (ok t') = note app.name number "" t'

  abbrev landed : App Body → String → ℕ → Tables → Option Error → Tables
  landed app rendered number t (some e) = note app.name number (o.error_text e) t
  landed app rendered number t none =
      stamped_late app rendered number t
        (set_revision_rendered_hash app.name number (o.config_hash rendered) t)

  -- The goroutine's body, which runs on the tables `t` of its own time.
  unfoldable pub apply_in_background : App Body → Ir → String → ℕ → Tables → Tables
  apply_in_background app ir rendered number t =
      landed app rendered number t (o.apply app ir rendered number)
