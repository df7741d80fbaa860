-- ===== src/Stacks/Deploy/Accepted.antt =====
-- The run of a deploy whose manifest is accepted, up to its last step and through it.
use poor_man_cluster.Common.{
  ℕ, String, ◌==◌, ◌≡◌, refl, true, false, Option, none, some, [], ◌∷◌, Bool,
}
use poor_man_cluster.Common.Errors.{Error, step_error, ok, err}
use poor_man_cluster.Manifest.Ir.{Ir}
use poor_man_cluster.Store.Stacks.{
  Tables, find_stack, next_free_revision, record_deploy, set_revision_rendered_hash,
  record_stack_error,
}
use poor_man_cluster.Stacks.Placement.{resolve_placements}
use poor_man_cluster.Workflow.{StepError, run}
use poor_man_cluster.Workflow.Ends.{SameEnd, ◌and_then◌, run-pass, run-fail, run-done}
use poor_man_cluster.Stacks.Deploy.{
  Payload, App, Deployed, Outside, State, checked, named, new_revision, note, finished, parse_step,
  conflict_step, validate_step, translate_step, record_step, ensure_step, apply_step, workflow,
  initial, deploy,
}

-- The app behind the overrides and the interpolation.
abbrev pub settled :
    {Body St : Type 0} → Outside Body St → Payload → App Body → String × Body → App Body
settled o p source made = record (named o p source) { version = made.0; body = made.1 }

-- The manifest is given, reads as `source`, which is no platform stack and no other repository's, is
-- valid, and translates to `ir` and to `rendered`, whose directories are made.
pub record Accepted {Body St : Type 0} (o : Outside Body St) (p : Payload) (t : Tables) (pins : St)
    (source : App Body) (made : String × Body) (ir : Ir) (rendered : String) : Type 0 where
  pub unplaced : Ir
  pub pins_after : St
  pub given : (p.manifest == "") ≡ false
  pub parses : o.parse p.manifest ≡ ok source
  pub is_customer : source.platform ≡ false
  pub no_conflict : checked o p (find_stack (named o p source).name t.stacks) ≡ none
  pub is_valid : o.interpolate_validate (named o p source) ≡ ok made
  pub builds : o.build_ir (settled o p source made) ≡ ok unplaced
  pub places : resolve_placements o.pins pins (named o p source).name unplaced ≡ (ok ir, pins_after)
  pub renders : o.render_stamped ir ≡ ok rendered
  pub has_directories : o.ensure_volume_dirs rendered ≡ none

module _ {Body St : Type 0} (o : Outside Body St) (p : Payload) (t : Tables) (pins : St)
    {source : App Body} {made : String × Body} {ir : Ir} {rendered : String}
    (a : Accepted o p t pins source made ir rendered) {number : ℕ} {t1 : Tables}
    (n : next_free_revision (named o p source).name o.now t ≡ ok number)
    (d : record_deploy
        (new_revision o p (settled o p source made) rendered number)
        p.repo_url
        o.now
        t
      ≡ ok t1) where
  abbrev result : Deployed
  result = record {
    stack_name = (named o p source).name;
    revision = number;
    rendered_yaml = rendered;
    changed = true;
  }

  -- The states behind the steps.
  abbrev s1 : State Body St
  s1 = record (initial o p t pins) { app = some (named o p source) }

  abbrev s3 : State Body St
  s3 = record s1 { app = some (settled o p source made) }

  abbrev s4 : State Body St
  s4 = record s3 { pins = a.pins_after; ir = some ir; rendered = rendered }

  abbrev s5 : State Body St
  s5 = record s4 { number = number; tables = t1 }

  to_parsed : parse_step o p (initial o p t pins) ≡ (none, s1)
  unfolding parse_step
  to_parsed = rw (a.parses, a.is_customer) refl

  to_checked : conflict_step o p s1 ≡ (none, s1)
  unfolding conflict_step
  to_checked = rw a.no_conflict refl

  to_validated : validate_step o p s1 ≡ (none, s3)
  unfolding validate_step
  to_validated = rw a.is_valid refl

  to_translated : translate_step o p s3 ≡ (none, s4)
  unfolding translate_step
  to_translated = rw (a.builds, a.places, a.renders) refl

  to_recorded : record_step o p s4 ≡ (none, s5)
  unfolding record_step
  to_recorded = rw (n, d) refl

  to_ensured : ensure_step o p s5 ≡ (none, s5)
  unfolding ensure_step
  to_ensured = rw a.has_directories refl

  -- An accepted deploy comes to its last step with the revision recorded.
  reaches_last :
      (async : Bool)
      → SameEnd (run (workflow o p async) (initial o p t pins)) (
          run
            ((record { name = "Deploying stack to the swarm"; run = apply_step o p async }) ∷ [])
            s5)
  reaches_last async =
      run-pass _ _ _ _ to_parsed
      and_then run-pass _ _ _ _ to_checked
      and_then run-pass _ _ _ _ to_validated
      and_then run-pass _ _ _ _ to_translated
      and_then run-pass _ _ _ _ to_recorded
      and_then run-pass _ _ _ _ to_ensured

  pub deploy-ends :
      (async : Bool) (e : Option (StepError Error)) (s : State Body St)
      → (run (workflow o p async) (initial o p t pins)).error ≡ e
      → (run (workflow o p async) (initial o p t pins)).state ≡ s
      → deploy o p async t pins ≡ finished o p e s
  unfolding deploy
  deploy-ends async e s h k = rw (a.given, h, k) refl

  pub deploy-applied :
      {t2 : Tables}
      → o.apply (settled o p source made) ir rendered number ≡ none
      → set_revision_rendered_hash (named o p source).name number (o.config_hash rendered) t1
        ≡ ok t2
      → ((deploy o p false t pins).0 ≡ ok result) × ((deploy o p false t pins).1.tables ≡ t2)
  unfolding apply_step record_stack_error
  deploy-applied {t2} up s =
      let last : apply_step o p false s5 ≡ (none, record s5 { tables = t2 }) = rw (up, s) refl in
      let ends = reaches_last false and_then run-pass _ _ _ _ last and_then run-done _ in
      rw (deploy-ends false none (record s5 { tables = t2 }) ends.same_error ends.same_state)
        (refl, refl)

  pub deploy-refused :
      (e : Error)
      → o.apply (settled o p source made) ir rendered number ≡ some e
      → ((deploy o p false t pins).0 ≡ err (step_error "Deploying stack to the swarm" e))
        × ((deploy o p false t pins).1.tables
            ≡ note o p
                (named o p source).name
                number
                (o.error_text (step_error "Deploying stack to the swarm" e))
                t1)
  unfolding apply_step
  deploy-refused e down =
      let last : apply_step o p false s5 ≡ (some e, s5) = rw down refl in
      let ends = reaches_last false and_then run-fail _ _ _ _ e last in
      rw (deploy-ends false _ s5 ends.same_error ends.same_state) (refl, refl)

  pub deploy-accepted :
      ((deploy o p true t pins).0 ≡ ok result) × ((deploy o p true t pins).1.tables ≡ t1)
  unfolding apply_step record_stack_error
  deploy-accepted =
      let last : apply_step o p true s5 ≡ (none, record s5 { background = true }) = refl in
      let ends = reaches_last true and_then run-pass _ _ _ _ last and_then run-done _ in
      rw (deploy-ends true none (record s5 { background = true }) ends.same_error ends.same_state)
        (refl, refl)
