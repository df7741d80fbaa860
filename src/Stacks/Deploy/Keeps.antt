-- ===== src/Stacks/Deploy/Keeps.antt =====
-- What a deploy keeps: of the tables whatever the three writes of the store keep that it makes, and
-- of the pins whatever a placement keeps, on every path through the workflow and in the background.
use poor_man_cluster.Common.{
  ℕ, String, ◌==◌, ◌≡◌, refl, Bool, Option, none, some, Bool-cases, inl, inr,
}
use poor_man_cluster.Common.Errors.{Error, step_error, Result, ok, err}
use poor_man_cluster.Manifest.Ir.{Ir}
use poor_man_cluster.Store.Stacks.{Tables, set_revision_rendered_hash, record_stack_error}
use poor_man_cluster.Stacks.Placement.{resolve_placements}
use poor_man_cluster.Workflow.{StepError, run}
use poor_man_cluster.Workflow.Invariant.{run-keeps}
use poor_man_cluster.Stacks.Deploy.{
  Payload, App, Outside, State, or_kept, noted, note, finished, stamped_late, landed, or_unrecorded,
  workflow, initial, deploy, apply_in_background,
}
use poor_man_cluster.Stacks.Deploy.Steps.{Kept, AppNamed, Inside, every_step-Keeps}

module _ {Body St : Type 0} (o : Outside Body St) (p : Payload) (N : String → Type 0)
    (P : Tables → Type 0) (k : Kept N P)
    (names : (app : App Body) → o.parse p.manifest ≡ ok app → N (or_kept p.app_name app.name))
    (Q : St → Type 0)
    (place : (name : String) (pins : St) (ir : Ir)
      → N name
      → Q pins
      → Q (resolve_placements o.pins pins name ir).1) where
  P-note :
      (name : String) (number : ℕ) (message : String) (t : Tables)
      → N name
      → P t
      → P (note o p name number message t)
  P-note name number message t n q = go (record_stack_error name number message o.now t) refl
    where
      go :
          (r : Result Tables)
          → record_stack_error name number message o.now t ≡ r
          → P (or_unrecorded o p t r)
      go (err e) at = q
      go (ok t') at = k.by_error name number message o.now t t' n at q

  P-noted :
      (a : Option (App Body)) (message : String) (s : State Body St)
      → AppNamed N a
      → P s.tables
      → P (noted o p a message s).tables
  P-noted none message s n q = q
  P-noted (some app) message s n q = P-note app.name s.number message s.tables n q

  Q-noted :
      (a : Option (App Body)) (message : String) (s : State Body St)
      → Q s.pins
      → Q (noted o p a message s).pins
  Q-noted none message s d = d
  Q-noted (some app) message s d = d

  P-finished :
      (e : Option (StepError Error)) (s : State Body St)
      → Inside o p N P k names Q place s
      → P (finished o p e s).1.tables × Q (finished o p e s).1.pins
  P-finished none s (n, q, d) = (P-noted s.app "" s n q, Q-noted s.app "" s d)
  P-finished (some e) s (n, q, d) =
      let message = o.error_text (step_error e.step e.err) in
      (P-noted s.app message s n q, Q-noted s.app message s d)

  pub deploy-keeps :
      (async : Bool) (t : Tables) (pins : St)
      → P t
      → Q pins
      → P (deploy o p async t pins).1.tables × Q (deploy o p async t pins).1.pins
  unfolding deploy
  deploy-keeps async t pins q d = elim (Bool-cases (p.manifest == "")) [
    | inl blank ↦ rw blank (q, d)
    | inr given ↦
        let r = run (workflow o p async) (initial o p t pins) in
        let inside =
          run-keeps (Inside o p N P k names Q place) (workflow o p async) (initial o p t pins)
            (every_step-Keeps o p N P k names Q place async) (tt, q, d) in
        rw given (P-finished r.error r.state inside)
  ]

  P-stamped_late :
      (app : App Body) (rendered : String) (number : ℕ) (t : Tables) (r : Result Tables)
      → N app.name
      → ((t' : Tables) → r ≡ ok t' → P t')
      → P t
      → P (stamped_late o p app rendered number t r)
  P-stamped_late app rendered number t (err e) n f q = P-note app.name number "" t n q
  P-stamped_late app rendered number t (ok t') n f q = P-note app.name number "" t' n (f t' refl)

  P-landed :
      (app : App Body) (rendered : String) (number : ℕ) (t : Tables) (failure : Option Error)
      → N app.name
      → P t
      → P (landed o p app rendered number t failure)
  P-landed app rendered number t (some e) n q = P-note app.name number (o.error_text e) t n q
  P-landed app rendered number t none n q =
      let hash = o.config_hash rendered in
      P-stamped_late app rendered number t (set_revision_rendered_hash app.name number hash t) n
        (λ t' e. k.by_stamp app.name number hash t t' n e q) q

  pub apply_in_background-keeps :
      (app : App Body) (ir : Ir) (rendered : String) (number : ℕ) (t : Tables)
      → N app.name
      → P t
      → P (apply_in_background o p app ir rendered number t)
  unfolding apply_in_background
  apply_in_background-keeps app ir rendered number t n q =
      P-landed app rendered number t (o.apply app ir rendered number) n q
