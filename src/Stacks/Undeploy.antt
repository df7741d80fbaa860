-- ===== src/Stacks/Undeploy.antt =====
-- `Undeploy` of internal/stacks/deploy.go. What the Docker client and the deployer answer, and which
-- statement of the deletion the database refuses, are parameters; errors of the removal of a volume or a secret are dropped by the source.
pub mod Outcomes
use poor_man_cluster.Common.{
  String, Bool, true, false, Option, none, some, List, [], ◌∷◌, ◌++◌, map, if◌then◌else◌,
}
use poor_man_cluster.Common.Errors.{Error, step_error, wrapped, Result, ok, err}
use poor_man_cluster.Store.Stacks.{Stack, Tables, stack, DeleteFault, delete_stack_with}
use poor_man_cluster.Workflow.{Step, StepError, Outcome, run}

-- What changes the swarm.
pub data Call : Type 0 where
  remove_stack remove_volume remove_secret : String → Call

pub record Outside : Type 0 where
  pub has_docker : Bool
  pub secret_names : Result (List String)
  pub volumes : Result (List String)
  pub remove_fails : Option Error
  pub delete_fails : Option DeleteFault

-- The variables that the steps share, the store, and the calls made.
pub record State : Type 0 where
  pub volumes : List String
  pub secrets : List String
  pub tables : Tables
  pub calls : List Call

abbrev collected : Result (List String) → Result (List String) → State → Option Error × State
collected (err e) vs s = (some (wrapped "collect stack secrets" e), s)
collected (ok names) (err e) s = (some (wrapped "collect stack volumes" e), s)
collected (ok names) (ok vs) s = (none, record s { volumes = vs; secrets = names })

abbrev pub wrapped_error : String → Option Error → Option Error
wrapped_error m none = none
wrapped_error m (some e) = some (wrapped m e)

module _ (o : Outside) (stack_name : String) where
  -- "Collecting stack secrets and volumes"
  unfoldable pub collect : State → Option Error × State
  collect s = if o.has_docker then collected o.secret_names o.volumes s else (none, s)

  -- "Removing stack services and swarm assets"
  unfoldable pub remove : State → Option Error × State
  remove s = elim o.remove_fails [
    | some e ↦ (
      some (wrapped "docker stack rm" e),
      record s { calls = s.calls ++ remove_stack stack_name ∷ [] },
    )
    | none ↦ (
      none,
      record s {
        calls =
            s.calls
            ++ remove_stack stack_name
              ∷ (if o.has_docker
                  then map remove_volume s.volumes ++ map remove_secret s.secrets
                  else []);
      },
    )
  ]

  -- "Deleting stack record"
  unfoldable pub delete_record : State → Option Error × State
  unfolding delete_stack_with
  delete_record s =
      let (failure, t) = delete_stack_with o.delete_fails stack_name s.tables in
      (wrapped_error "delete stack record" failure, record s { tables = t })

  abbrev pub workflow : List (Step State Error)
  workflow =
      (record { name = "Collecting stack secrets and volumes"; run = collect })
      ∷ (record { name = "Removing stack services and swarm assets"; run = remove })
      ∷ (record { name = "Deleting stack record"; run = delete_record })
      ∷ []

  abbrev error_of : Option (StepError Error) → Option Error
  error_of none = none
  error_of (some e) = some (step_error e.step e.err)

  abbrev pub initial : Tables → State
  initial t = record { volumes = []; secrets = []; tables = t; calls = [] }

  abbrev undeployed : Result Stack → Tables → Option Error × State
  undeployed (err e) t = (some e, initial t)
  undeployed (ok s) t = let r = run workflow (initial t) in (error_of r.error, r.state)

  -- `Undeploy`: an unknown stack is refused before the swarm is touched.
  unfoldable pub undeploy : Tables → Option Error × State
  unfolding stack run
  undeploy t = undeployed (stack stack_name t) t
