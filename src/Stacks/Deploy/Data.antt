-- ===== src/Stacks/Deploy/Data.antt =====
-- What a deploy is given, what its steps share, and its result: internal/stacks/deploy.go.
use poor_man_cluster.Common.{ℕ, String, Bool, Option, List}
use poor_man_cluster.Common.Errors.{Error, Result}
use poor_man_cluster.Manifest.Ir.{Ir}
use poor_man_cluster.Store.Stacks.{Tables}
use poor_man_cluster.Stacks.Placement.{PinResolver}

-- `Payload`
pub record Payload : Type 0 where
  pub app_name : String
  pub repo_url : String
  pub file : String
  pub version : String
  pub manifest : String

-- `dsl.App`, by the fields that the pipeline itself reads or sets; `body` is the rest.
pub record App (Body : Type 0) : Type 0 where
  pub name : String
  pub version : String
  pub platform : Bool
  pub body : Body

-- `Result`
pub record Deployed : Type 0 where
  pub stack_name : String
  pub revision : ℕ
  pub rendered_yaml : String
  pub changed : Bool

-- `now` is `time.Now().Unix()`; `interpolate_validate` changes the version and the body.
pub record Outside (Body St : Type 0) : Type 0 where
  pub now : ℕ
  pub parse : String → Result (App Body)
  pub interpolate_validate : App Body → Result (String × Body)
  pub build_ir : App Body → Result Ir
  pub pins : Option (PinResolver St)
  pub render_stamped : Ir → Result String
  pub payload_json : Payload → List String → String
  pub ensure_volume_dirs : String → Option Error
  pub apply : App Body → Ir → String → ℕ → Option Error
  pub config_hash : String → String
  pub error_text : Error → String

-- The variables that the steps share, the store and the pins. `app` and `ir` are nil until a step
-- sets them; `background` says that the goroutine has been started.
pub record State (Body St : Type 0) : Type 0 where
  pub app : Option (App Body)
  pub ir : Option Ir
  pub rendered : String
  pub number : ℕ
  pub background : Bool
  pub tables : Tables
  pub pins : St
