-- ===== src/Manifest/Ir.antt =====
-- internal/manifest/ir.go: the neutral representation between the DSL and the writers. The blocks
-- that only the compose writer reads (ports, resources, logging, expose, health check, update) are
-- left out.
use poor_man_cluster.Common.{ℕ, String, Bool, Option, List, Map}

-- `IRConfigMount`
pub record IrConfigMount : Type 0 where
  pub source : String
  pub target : String

-- `IRService`
pub record IrService : Type 0 where
  pub name : String
  pub image : String
  pub command : List String
  pub entrypoint : List String
  pub env : Map String
  pub volumes : List String
  pub secrets : List String
  pub binds : List String
  pub configs : List IrConfigMount
  pub extra_hosts : List String
  pub user : String
  pub labels : Map String
  pub mode : String
  pub restart : String
  pub restart_delay : String
  pub constraints : List String
  pub run_once : Bool
  pub replicas : Option ℕ
  pub placement : String
  pub skip_filelog : Bool
  pub depends_on : List String
  pub extra_networks : List String

-- `IR`
pub record Ir : Type 0 where
  pub name : String
  pub env : String
  pub version : String
  pub platform : Bool
  pub networks : List String
  pub log_level : String
  pub services : List IrService
  pub volumes : List String
  pub plain_volumes : Map String
  pub secrets : List String
  pub configs : List String
