-- ===== src/Tests/Store.antt =====
-- The tables of the stacks.
use poor_man_cluster.Common.{◌≡◌, refl, false, [], ◌∷◌, take, ◌==◌}
use poor_man_cluster.Common.Errors.{ok}
use poor_man_cluster.Store.Stacks.{
  Tables, has_stack, has_revision, record_deploy, record_stack_error, list_stack_errors,
}
use poor_man_cluster.Store.Stacks.Invariant.{WellFormed}
use poor_man_cluster.Store.Stacks.ErrorHistory.{entry_of, list_stack_errors-record_stack_error}
use poor_man_cluster.Tests.{shop, shop_7, shop_8, tables}

tables-WellFormed : WellFormed tables
unfolding has_stack has_revision
tables-WellFormed = record {
  stacks_distinct = (refl, tt);
  revisions_distinct = (refl, tt);
  owned = (refl, tt);
  current = (refl, tt);
}

abbrev deployed : Tables
deployed = record tables {
  stacks = record shop { current_revision = 8; updated_at = 200 } ∷ [];
  revisions = record shop_8 { created_at = 200 } ∷ shop_7 ∷ [];
}

deployed_by : record_deploy shop_8 "" 200 tables ≡ ok deployed
unfolding record_deploy
deployed_by = refl

no_blog : has_stack "blog" tables.stacks ≡ false
unfolding has_stack
no_blog = refl

no_errors : list_stack_errors "shop" 0 tables ≡ ok []
unfolding list_stack_errors
no_errors = refl

list_stack_errors-record_stack_error_example :
    (t' : Tables) × (record_stack_error "shop" 7 "image not found" 300 tables ≡ ok t')
    × (list_stack_errors "shop" 0 t' ≡ ok (take 20 (entry_of 7 "image not found" 300 ∷ [])))
    × (("shop" == "blog") ≡ false
        → list_stack_errors "blog" 5 t' ≡ list_stack_errors "blog" 5 tables)
list_stack_errors-record_stack_error_example =
    list_stack_errors-record_stack_error "shop" "blog" 7 "image not found" 300 5 tables refl
      no_errors
