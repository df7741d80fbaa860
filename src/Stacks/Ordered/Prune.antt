-- ===== src/Stacks/Ordered/Prune.antt =====
-- The order of the calls that a deploy by levels makes.
use poor_man_cluster.Common.{
  String, ◌≡◌, refl, Bool, true, false, ◌&&◌, none, some, List, [], ◌∷◌, ◌++◌, arith,
}
use poor_man_cluster.Common.Errors.{ok, err}
use poor_man_cluster.Stacks.Ordered.{
  Call, deploy_stack_no_prune, prune_stack, prune_stale_containers, Deployer, apply_levels,
}

module _ (d : Deployer) where
  -- The level renders, is deployed and becomes ready.
  abbrev pub is_healthy : List String → Bool
  is_healthy level = elim (d.write level) [
    | err e ↦ false
    | ok yaml ↦ elim (d.answer (deploy_stack_no_prune yaml)) [
      | some e ↦ false
      | none ↦ elim (d.wait level) [ none ↦ true | some e ↦ false ]
    ]
  ]

  unfoldable pub all_healthy : List (List String) → Bool
  all_healthy [] = true
  all_healthy (level ∷ levels) = is_healthy level && all_healthy levels

  -- The calls that deploy the levels, each with the rendering of its own services.
  pub deploys : List (List String) → List Call
  deploys [] = []
  deploys (level ∷ levels) = elim (d.write level) [
    | err e ↦ []
    | ok yaml ↦ deploy_stack_no_prune yaml ∷ deploys levels
  ]

-- If one of the levels does not become healthy, the calls made and the error are the same whatever
-- levels stand behind these.
pub apply_levels-append :
    (d : Deployer) (rendered : String) (before rest other : List (List String))
    → all_healthy d before ≡ false
    → apply_levels d rendered (before ++ rest) ≡ apply_levels d rendered (before ++ other)
unfolding apply_levels all_healthy
apply_levels-append d rendered [] rest other h = absurd (ground arith)
apply_levels-append d rendered (level ∷ before) rest other h =
    ground (arith, apply_levels-append d rendered before rest other)

-- A deploy by levels that ends without an error has found every level healthy, and its calls are
-- those that deploy the levels in their order, followed by the prune with the full stack's
-- rendering and the prune of stale containers.
pub apply_levels-deploys :
    (d : Deployer) (rendered : String) (levels : List (List String))
    → (apply_levels d rendered levels).1 ≡ none
    → (all_healthy d levels ≡ true)
      × ((apply_levels d rendered levels).0
          ≡ deploys d levels ++ prune_stack rendered ∷ prune_stale_containers ∷ [])
unfolding apply_levels all_healthy deploys
apply_levels-deploys d rendered [] h = (refl, ground arith)
apply_levels-deploys d rendered (level ∷ levels) h =
    ground (arith, apply_levels-deploys d rendered levels)
