-- ===== src/Stacks/Undeploy/Outcomes.antt =====
-- What an undeploy leaves.
use poor_man_cluster.Common.{String, ◌≡◌, List, ◌∷◌}
use poor_man_cluster.Stacks.Undeploy.{Call, remove_stack}

-- The stack's services are the first thing that is removed.
abbrev pub StartsWithStack : String → List Call → Type 0
StartsWithStack name calls = (rest : List Call) × (calls ≡ remove_stack name ∷ rest)
