-- ===== src/Stacks/Deploy/Conflicts.antt =====
-- Two repositories that claim one app name.
use poor_man_cluster.Common.{
  ℕ, String, ◌==◌, eq_refl, ◌≡◌, refl, true, false, Bool, none, some, List, [], ◌∷◌, take,
}
use poor_man_cluster.Common.Errors.{Error, step_error, ok, err}
use poor_man_cluster.Store.Stacks.{
  Stack, Tables, stack, find_stack, update_stack, revision, history, parse_stack_errors,
  record_stack_error,
}
use poor_man_cluster.Store.Stacks.ErrorHistory.{
  find_stack-update_stack, find_stack-has_stack, entry_of,
}
use poor_man_cluster.Workflow.{Step, StepError, run}
use poor_man_cluster.Workflow.Ends.{SameEnd, ◌and_then◌, run-pass, run-fail}
use poor_man_cluster.Stacks.Deploy.{
  Payload, App, Outside, State, named, from_other_repo, conflict_error, note, finished, parse_step,
  conflict_step, workflow, initial, deploy,
}
use poor_man_cluster.Stacks.Deploy.Outcomes.{revision-note}

-- The row that a recorded error leaves can be read.
stack-record_stack_error :
    (name : String) (number : ℕ) (message : String) (now : ℕ) (t : Tables) (existing : Stack)
    → (message == "") ≡ false
    → find_stack name t.stacks ≡ some existing
    → (t' : Tables) × (record_stack_error name number message now t ≡ ok t')
      × (stack name t'
          ≡ ok (record existing {
            last_error =
                history
                  (take 20 (entry_of number message now ∷ parse_stack_errors existing.last_error));
            updated_at = now;
          }))
unfolding stack record_stack_error
stack-record_stack_error name number message now t existing texted there =
    let f = λ (r : Stack). record r {
      last_error =
          history (take 20 (entry_of number message now ∷ parse_stack_errors existing.last_error));
      updated_at = now;
    } in
    (
      record t { stacks = update_stack name f t.stacks },
      rw (texted, there, find_stack-has_stack name t.stacks existing there) refl,
      rw (find_stack-update_stack name name f t.stacks (λ r. refl), there, eq_refl name) refl,
    )

module _ {Body St : Type 0} (o : Outside Body St) (p : Payload) (async : Bool) (t : Tables)
    (pins : St) {source : App Body} {existing : Stack} (given : (p.manifest == "") ≡ false)
    (parses : o.parse p.manifest ≡ ok source) (customer : source.platform ≡ false)
    (taken : find_stack (named o p source).name t.stacks ≡ some existing)
    (other : from_other_repo o p existing.repo_url ≡ true) where
  abbrev s1 : State Body St
  s1 = record (initial o p t pins) { app = some (named o p source) }

  abbrev failure : StepError Error
  failure = record { step = "Checking for app name conflicts"; err = conflict_error o p }

  to_parsed : parse_step o p (initial o p t pins) ≡ (none, s1)
  unfolding parse_step
  to_parsed = rw (parses, customer) refl

  refused : conflict_step o p s1 ≡ (some (conflict_error o p), s1)
  unfolding conflict_step
  refused = rw (taken, other) refl

  abbrev behind : List (Step (State Body St) Error) → List (Step (State Body St) Error)
  behind [] = []
  behind (st ∷ w) = w

  abbrev parsing : Step (State Body St) Error
  parsing = record { name = "Parsing manifest (DSL)"; run = parse_step o p }

  abbrev checking : Step (State Body St) Error
  checking = record { name = "Checking for app name conflicts"; run = conflict_step o p }

  ends : deploy o p async t pins ≡ finished o p (some failure) s1
  unfolding deploy
  ends =
      let end : SameEnd (run (workflow o p async) (initial o p t pins))
          (record { out = []; error = some failure; state = s1 }) =
        run-pass parsing (behind (workflow o p async)) (initial o p t pins) s1 to_parsed
        and_then run-fail checking (behind (behind (workflow o p async))) s1 s1 (conflict_error o p)
            refused in
      rw (given, end.same_error, end.same_state) refl

  -- A deploy under the name of a stack that another repository has deployed is refused, and leaves
  -- every revision, and the stack with its repository and its current revision, as they were; its
  -- error, if it has a text, comes first in the stack's history, under the number 0.
  pub conflict_refused :
      (o.error_text (step_error failure.step failure.err) == "") ≡ false
      → ((deploy o p async t pins).0 ≡ err (step_error failure.step failure.err))
        × ((name : String) (number : ℕ)
            → revision name number (deploy o p async t pins).1.tables ≡ revision name number t)
        × (stack (named o p source).name (deploy o p async t pins).1.tables
            ≡ ok (record existing {
              last_error = history (
                  take 20 (
                    entry_of 0 (o.error_text (step_error failure.step failure.err)) o.now
                    ∷ parse_stack_errors existing.last_error));
              updated_at = o.now;
            }))
  conflict_refused texted =
      let name = (named o p source).name in
      let message = o.error_text (step_error failure.step failure.err) in
      let (t', written, read) =
        stack-record_stack_error name 0 message o.now t existing texted taken in
      let left : note o p name 0 message t ≡ t' = rw written refl in
      rw ends (refl, λ other n. revision-note o p name other 0 n message t, rw left read)
