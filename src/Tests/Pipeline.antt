-- ===== src/Tests/Pipeline.antt =====
-- Deploys of an app.
use poor_man_cluster.Common.{
  ℕ, ◌≡◌, refl, String, ◌==◌, true, false, Option, none, some, [], ◌∷◌, arith, take, subst,
}
use poor_man_cluster.Common.Errors.{Error, plain, step_error, Result, ok, err}
use poor_man_cluster.Store.Stacks.{
  Stack, Tables, stack, find_stack, revision, has_revision, has_stack, history, parse_stack_errors,
}
use poor_man_cluster.Store.Stacks.Invariant.{WellFormed}
use poor_man_cluster.Store.Stacks.ErrorHistory.{entry_of}
use poor_man_cluster.Store.Stacks.Updates.{ReadsSame}
use poor_man_cluster.Stacks.Drift.{in_sync}
use poor_man_cluster.Stacks.Placement.{resolve_placements}
use poor_man_cluster.Stacks.Sync.{Outside as Inputs, deployed, unchanged, has_drifted, sync}
use poor_man_cluster.Stacks.Deploy.{
  Payload, App, Outside, new_revision, deploy, apply_in_background, conflict_error,
}
use poor_man_cluster.Stacks.Deploy.Accepted.{settled, Accepted}
use poor_man_cluster.Stacks.Deploy.Outcomes.{deploy-cases}
use poor_man_cluster.Stacks.Deploy.Isolation.{deploy-WellFormed, deploy_isolated}
use poor_man_cluster.Stacks.Deploy.Conflicts.{conflict_refused}
use poor_man_cluster.Stacks.Deploy.Retried.{refused_retried, applied_settled}
use poor_man_cluster.Tests.{shop, tables, shop_ir}

abbrev payload : Payload
payload = record {
  app_name = "";
  repo_url = "git@example.org:shop";
  file = "deploy/shop.yaml";
  version = "2";
  manifest = "app: shop";
}

abbrev app : App String
app = record { name = "shop"; version = "1"; platform = false; body = "services" }

abbrev made : String × String
made = ("2", "services")

abbrev outside : Option Error → Outside String Unit
outside answer = record {
  now = 500;
  parse = λ text. ok app;
  interpolate_validate = λ a. ok made;
  build_ir = λ a. ok shop_ir;
  pins = none;
  render_stamped = λ ir. ok "services: {}";
  payload_json = λ p names. "{}";
  ensure_volume_dirs = λ text. none;
  apply = λ a ir text number. answer;
  config_hash = λ text. "hash";
  error_text = λ e. "failed";
}

accepted :
    (answer : Option Error)
    → Accepted (outside answer) payload tables tt app made shop_ir "services: {}"
unfolding find_stack resolve_placements
accepted answer = record {
  unplaced = shop_ir;
  pins_after = tt;
  given = refl;
  parses = refl;
  is_customer = refl;
  no_conflict = refl;
  is_valid = refl;
  builds = refl;
  places = refl;
  renders = refl;
  has_directories = refl;
}

deploy-cases_example :
    (number : ℕ) × (has_revision "shop" number tables.revisions ≡ false)
    × ((outside none).apply (settled (outside none) payload app made) shop_ir "services: {}" number
          ≡ none
        → ((deploy (outside none) payload false tables tt).0
            ≡ ok (record {
              stack_name = "shop";
              revision = number;
              rendered_yaml = "services: {}";
              changed = true;
            }))
          × (revision "shop" number (deploy (outside none) payload false tables tt).1.tables
              ≡ ok
                  (record (new_revision
                    (outside none)
                    payload
                    (settled (outside none) payload app made)
                    "services: {}"
                    number) { rendered_hash = "hash" })))
    × ((e : Error)
        → (outside none).apply
            (settled (outside none) payload app made)
            shop_ir
            "services: {}"
            number
          ≡ some e
        → ((deploy (outside none) payload false tables tt).0
            ≡ err (step_error "Deploying stack to the swarm" e))
          × (revision "shop" number (deploy (outside none) payload false tables tt).1.tables
              ≡ ok (
                  new_revision
                    (outside none)
                    payload
                    (settled (outside none) payload app made)
                    "services: {}"
                    number)))
deploy-cases_example =
    deploy-cases (outside none) payload tables tt {source = app} {made = made} {ir = shop_ir}
      {rendered = "services: {}"} (accepted none) (omega arith)

abbrev inputs : Inputs
inputs = record {
  list_fails = none;
  translate = λ row. ok "services: {}";
  config_hash = λ text. "hash";
  compose = λ text. ok [];
  services = none;
  deploy = λ source. ok 9;
}

refused_retried_example :
    sync inputs "shop" (deploy (outside (some (plain "down"))) payload false tables tt).1.tables
    ≡ deployed (inputs.deploy "app: shop")
refused_retried_example =
    refused_retried (outside (some (plain "down"))) payload tables tt {source = app} {made = made}
      {ir = shop_ir} {rendered = "services: {}"} (accepted (some (plain "down"))) (omega arith)
      (λ same. omega arith, tt) inputs refl (λ number. (plain "down", refl))

live : has_drifted (in_sync inputs.services "shop" (inputs.compose "services: {}")) ≡ false
unfolding in_sync
live = refl

applied_settled_example :
    (number : ℕ) × (sync inputs "shop" (deploy (outside none) payload false tables tt).1.tables
      ≡ unchanged number "services: {}")
applied_settled_example =
    applied_settled (outside none) payload tables tt {source = app} {made = made} {ir = shop_ir}
      {rendered = "services: {}"} (accepted none) (omega arith) (λ same. omega arith, tt) inputs
      refl (λ number. refl) refl refl (λ number. refl) live

-- The stack of another repository.
abbrev theirs : Stack
theirs = record shop { repo_url = some "git@example.org:other" }

abbrev their_tables : Tables
their_tables = record tables { stacks = theirs ∷ [] }

is_theirs : find_stack "shop" their_tables.stacks ≡ some theirs
unfolding find_stack
is_theirs = refl

conflict_refused_example :
    ((deploy (outside none) payload true their_tables tt).0
      ≡ err (step_error "Checking for app name conflicts" (conflict_error (outside none) payload)))
    × ((name : String) (number : ℕ)
        → revision name number (deploy (outside none) payload true their_tables tt).1.tables
          ≡ revision name number their_tables)
    × (stack "shop" (deploy (outside none) payload true their_tables tt).1.tables
        ≡ ok (record theirs {
          last_error =
              history (take 20 (entry_of 0 "failed" 500 ∷ parse_stack_errors theirs.last_error));
          updated_at = 500;
        }))
conflict_refused_example =
    conflict_refused (outside none) payload true their_tables tt {source = app} {existing = theirs}
      refl refl refl is_theirs refl refl

tables-WellFormed : WellFormed tables
unfolding has_stack has_revision
tables-WellFormed = record {
  stacks_distinct = (refl, tt);
  revisions_distinct = (refl, tt);
  owned = (refl, tt);
  current = (refl, tt);
}

deploy-WellFormed_example :
    WellFormed (deploy (outside none) payload false tables tt).1.tables
    × WellFormed (apply_in_background (outside none) payload app shop_ir "services: {}" 7 tables)
deploy-WellFormed_example =
    deploy-WellFormed (outside none) payload false tables tables tt app shop_ir "services: {}" 7
      tables-WellFormed tables-WellFormed

abbrev name_of : Result (App String) → String
name_of (ok a) = a.name
name_of (err e) = ""

deploy_isolated_example :
    ReadsSame "blog" tables (deploy (outside none) payload false tables tt).1.tables
    × ReadsSame "blog" tables
        (apply_in_background (outside none) payload app shop_ir "services: {}" 7 tables)
deploy_isolated_example =
    deploy_isolated (outside none) payload false tables tables tt app shop_ir "services: {}" 7
      "blog" (λ a e. subst (λ r. (name_of r == "blog") ≡ false) e refl) refl
