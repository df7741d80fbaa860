-- ===== src/Stacks/Deploy/Steps.antt =====
-- What each step of a deploy keeps of the tables and the pins: whatever the writes of the store and
-- a placement keep.
use poor_man_cluster.Common.{
  All, ℕ, String, ◌≡◌, refl, true, false, Bool, Option, none, some, Bool-cases, inl, inr,
}
use poor_man_cluster.Common.Errors.{Error, Result, ok, err}
use poor_man_cluster.Manifest.Ir.{Ir}
use poor_man_cluster.Store.Stacks.{
  StackRevision, Tables, next_free_revision, record_deploy, set_revision_rendered_hash,
  record_stack_error, find_stack,
}
use poor_man_cluster.Stacks.Placement.{resolve_placements}
use poor_man_cluster.Workflow.{Step}
use poor_man_cluster.Workflow.Invariant.{Keeps}
use poor_man_cluster.Stacks.Deploy.{
  Payload, App, Outside, State, or_kept, parsed, checked, set_or_fail, rendered_as, placed, built,
  stored, numbered, stamped, with_app, validated, interpolated, translated, recorded, apply_now,
  new_revision, parse_step, conflict_step, validate_step, translate_step, record_step, ensure_step,
  apply_step, workflow,
}

-- A predicate on the tables that the writes under a name with `N` keep.
pub record Kept (N : String → Type 0) (P : Tables → Type 0) : Type 0 where
  pub by_record :
      (rev : StackRevision) (repo_url : String) (now : ℕ) (t t' : Tables)
      → N rev.stack_name
      → record_deploy rev repo_url now t ≡ ok t'
      → P t
      → P t'
  pub by_stamp :
      (name : String) (number : ℕ) (hash : String) (t t' : Tables)
      → N name
      → set_revision_rendered_hash name number hash t ≡ ok t'
      → P t
      → P t'
  pub by_error :
      (name : String) (number : ℕ) (message : String) (now : ℕ) (t t' : Tables)
      → N name
      → record_stack_error name number message now t ≡ ok t'
      → P t
      → P t'

abbrev pub AppNamed : {Body : Type 0} → (String → Type 0) → Option (App Body) → Type 0
AppNamed N none = Unit
AppNamed N (some app) = N app.name

module _ {Body St : Type 0} (o : Outside Body St) (p : Payload) (N : String → Type 0)
    (P : Tables → Type 0) (k : Kept N P)
    (names : (app : App Body) → o.parse p.manifest ≡ ok app → N (or_kept p.app_name app.name))
    (Q : St → Type 0)
    (place : (name : String) (pins : St) (ir : Ir)
      → N name
      → Q pins
      → Q (resolve_placements o.pins pins name ir).1) where
  -- The invariant of the run.
  abbrev pub Inside : State Body St → Type 0
  Inside s = AppNamed N s.app × P s.tables × Q s.pins

  Inside-parsed :
      (s : State Body St) (r : Result (App Body))
      → o.parse p.manifest ≡ r
      → Inside s
      → Inside (parsed o p s r).1
  Inside-parsed s (err e) at h = h
  Inside-parsed s (ok app) at (h, q, d) = elim (Bool-cases app.platform) [
    | inl platform ↦ rw platform (h, q, d)
    | inr plain ↦ rw plain (names app at, q, d)
  ]

  parse_step-Keeps : (s : State Body St) → Inside s → Inside (parse_step o p s).1
  unfolding parse_step
  parse_step-Keeps s h = Inside-parsed s (o.parse p.manifest) refl h

  conflict_step-Keeps : (s : State Body St) → Inside s → Inside (conflict_step o p s).1
  unfolding conflict_step
  conflict_step-Keeps s h = go s.app s h
    where
      go :
          (a : Option (App Body)) (s : State Body St)
          → Inside s
          → Inside
              (with_app a
                (λ (app : App Body). (checked o p (find_stack app.name s.tables.stacks), s))
                s).1
      go none s h = h
      go (some app) s h = h

  Inside-validated :
      (a : Option (App Body)) (s : State Body St)
      → AppNamed N a
      → Inside s
      → Inside (with_app a (validated o p s) s).1
  Inside-validated none s n h = h
  Inside-validated (some app) s n h = go (o.interpolate_validate app)
    where
      go : (r : Result (String × Body)) → Inside (set_or_fail s (interpolated o p s app) r).1
      go (err e) = h
      go (ok made) = (n, h.1, h.2)

  validate_step-Keeps : (s : State Body St) → Inside s → Inside (validate_step o p s).1
  unfolding validate_step
  validate_step-Keeps s h = Inside-validated s.app s h.0 h

  Inside-rendered_as :
      (s : State Body St) (ir : Ir) (r : Result String)
      → Inside s
      → Inside (rendered_as o p s ir r).1
  Inside-rendered_as s ir (err e) h = h
  Inside-rendered_as s ir (ok y) h = h

  Inside-placed :
      (s : State Body St) (r : Result Ir × St) → Q r.1 → Inside s → Inside (placed o p s r).1
  Inside-placed s (err e, pins) d h = (h.0, h.1, d)
  Inside-placed s (ok ir, pins) d h =
      Inside-rendered_as (record s { pins = pins }) ir (o.render_stamped ir) (h.0, h.1, d)

  Inside-built :
      (s : State Body St) (app : App Body) (r : Result Ir)
      → N app.name
      → Inside s
      → Inside (built o p s app r).1
  Inside-built s app (err e) n h = h
  Inside-built s app (ok ir) n h =
      Inside-placed s (resolve_placements o.pins s.pins app.name ir)
        (place app.name s.pins ir n h.2) h

  Inside-translated :
      (a : Option (App Body)) (s : State Body St)
      → AppNamed N a
      → Inside s
      → Inside (with_app a (translated o p s) s).1
  Inside-translated none s n h = h
  Inside-translated (some app) s n h = Inside-built s app (o.build_ir app) n h

  translate_step-Keeps : (s : State Body St) → Inside s → Inside (translate_step o p s).1
  unfolding translate_step
  translate_step-Keeps s h = Inside-translated s.app s h.0 h

  Inside-stored :
      (s : State Body St) (r : Result Tables)
      → ((t : Tables) → r ≡ ok t → P t)
      → Inside s
      → Inside (stored o p s r).1
  Inside-stored s (err e) f h = h
  Inside-stored s (ok t) f h = (h.0, f t refl, h.2)

  Inside-numbered :
      (s : State Body St) (app : App Body) (r : Result ℕ)
      → N app.name
      → Inside s
      → Inside (numbered o p s app r).1
  Inside-numbered s app (err e) n h = h
  Inside-numbered s app (ok number) n h =
      let rev = new_revision o p app s.rendered number in
      Inside-stored (record s { number = number }) (record_deploy rev p.repo_url o.now s.tables)
        (λ t e. k.by_record rev p.repo_url o.now s.tables t n e h.1) h

  Inside-recorded :
      (a : Option (App Body)) (s : State Body St)
      → AppNamed N a
      → Inside s
      → Inside (with_app a (recorded o p s) s).1
  Inside-recorded none s n h = h
  Inside-recorded (some app) s n h =
      Inside-numbered s app (next_free_revision app.name o.now s.tables) n h

  record_step-Keeps : (s : State Body St) → Inside s → Inside (record_step o p s).1
  unfolding record_step
  record_step-Keeps s h = Inside-recorded s.app s h.0 h

  ensure_step-Keeps : (s : State Body St) → Inside s → Inside (ensure_step o p s).1
  unfolding ensure_step
  ensure_step-Keeps s h = h

  Inside-set_tables :
      (s : State Body St) (r : Result Tables)
      → ((t : Tables) → r ≡ ok t → P t)
      → Inside s
      → Inside (set_or_fail s (λ (t : Tables). record s { tables = t }) r).1
  Inside-set_tables s (err e) f h = h
  Inside-set_tables s (ok t) f h = (h.0, f t refl, h.2)

  Inside-stamped :
      (s : State Body St) (app : App Body) (failure : Option Error)
      → N app.name
      → Inside s
      → Inside (stamped o p s app failure).1
  Inside-stamped s app (some e) n h = h
  Inside-stamped s app none n h =
      let hash = o.config_hash s.rendered in
      Inside-set_tables s (set_revision_rendered_hash app.name s.number hash s.tables)
        (λ t e. k.by_stamp app.name s.number hash s.tables t n e h.1) h

  Inside-apply_now :
      (a : Option (App Body)) (i : Option Ir) (s : State Body St)
      → AppNamed N a
      → Inside s
      → Inside (apply_now o p s a i).1
  Inside-apply_now none i s n h = h
  Inside-apply_now (some app) none s n h = h
  Inside-apply_now (some app) (some ir) s n h =
      Inside-stamped s app (o.apply app ir s.rendered s.number) n h

  apply_step-Keeps :
      (async : Bool) (s : State Body St) → Inside s → Inside (apply_step o p async s).1
  unfolding apply_step
  apply_step-Keeps true s h = h
  apply_step-Keeps false s h = Inside-apply_now s.app s.ir s h.0 h

  pub every_step-Keeps :
      (async : Bool)
      → All (λ (st : Step (State Body St) Error). Keeps Inside st) (workflow o p async)
  every_step-Keeps async = (
    parse_step-Keeps,
    (
      conflict_step-Keeps,
      (
        validate_step-Keeps,
        (
          translate_step-Keeps,
          (record_step-Keeps, (ensure_step-Keeps, (apply_step-Keeps async, tt))),
        ),
      ),
    ),
  )
