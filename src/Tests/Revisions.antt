-- ===== src/Tests/Revisions.antt =====
-- A rollback, an undeploy and a sync.
use poor_man_cluster.Common.{ℕ, ◌≡◌, refl, true, false, none, some, [], ◌∷◌, arith, ◌==◌}
use poor_man_cluster.Common.Errors.{Error, plain, step_error, ok, err}
use poor_man_cluster.Store.Stacks.{revision, find_revision, has_revision, record_refused}
use poor_man_cluster.Stacks.Rollback.{Outside, rolled_back, rollback}
use poor_man_cluster.Stacks.Rollback.Outcomes.{rollback-cases}
use poor_man_cluster.Stacks.Undeploy.{Outside as Swarm}
use poor_man_cluster.Store.Stacks.{StackRevision, Tables}
use poor_man_cluster.Stacks.Drift.{in_sync}
use poor_man_cluster.Stacks.Sync.{Outside as Inputs, latest_revision, unchanged, has_drifted, sync}
use poor_man_cluster.Stacks.Sync.Unchanged.{NoneLater, sync-unchanged}
use poor_man_cluster.Tests.{shop_7, tables}

abbrev outside : Outside
outside = record {
  now = 500;
  translate = λ row. ok "services: {}";
  payload = λ source original. "{}";
  apply = λ rendered number. none;
  config_hash = λ text. "hash";
}

stored_7 : revision "shop" 7 tables ≡ ok shop_7
unfolding revision find_revision
stored_7 = refl

rollback-cases_example :
    (number : ℕ) × (has_revision "shop" number tables.revisions ≡ false)
    × (outside.apply "services: {}" number ≡ none
        → ((rollback outside "shop" 7 tables).0 ≡ ok number)
          × (revision "shop" number (rollback outside "shop" 7 tables).1
              ≡ ok (record (rolled_back outside "shop" 7 shop_7 "services: {}" number) {
                rendered_hash = "hash";
              })))
    × ((e : Error)
        → outside.apply "services: {}" number ≡ some e
        → ((rollback outside "shop" 7 tables).0
            ≡ err (step_error "Re-deploying stack from source" e))
          × (revision "shop" number (rollback outside "shop" 7 tables).1
              ≡ ok (rolled_back outside "shop" 7 shop_7 "services: {}" number)))
rollback-cases_example =
    rollback-cases outside "shop" 7 tables {row = shop_7} {rendered = "services: {}"} stored_7 refl
      (omega arith)

abbrev swarm : Swarm
swarm = record {
  has_docker = true;
  secret_names = ok ("shop_key" ∷ []);
  volumes = ok ("shop_data" ∷ []);
  remove_fails = none;
  delete_fails = some (record_refused (plain "disk I/O error"));
}

abbrev settled : StackRevision
settled = record shop_7 { rendered_hash = "hash" }

abbrev settled_tables : Tables
settled_tables = record tables { revisions = settled ∷ [] }

abbrev converged : Inputs
converged = record {
  list_fails = none;
  translate = λ row. ok "services: {}";
  config_hash = λ text. "hash";
  compose = λ text. ok [];
  services = none;
  deploy = λ source. ok 9;
}

left_alone : sync converged "shop" settled_tables ≡ unchanged 7 "services: {}"
unfolding sync latest_revision in_sync
left_alone = refl

sync-unchanged_example :
    (l : StackRevision) × (l.stack_name ≡ "shop")
    × (l.revision ≡ 7)
    × NoneLater "shop" 7 (settled ∷ [])
    × ((l.rendered_hash == "") ≡ false)
    × (converged.translate l ≡ ok "services: {}")
    × (converged.config_hash "services: {}" ≡ l.rendered_hash)
    × (has_drifted (in_sync converged.services "shop" (converged.compose "services: {}")) ≡ false)
sync-unchanged_example = sync-unchanged converged "shop" settled_tables 7 "services: {}" left_alone
