-- ===== src/Tests.antt =====
-- Concrete inputs, and the theorems applied to them.
mod Store
mod Webhooks
mod Placement
mod Badges
mod Loop
mod Deploys
mod Revisions
mod Versions
mod Pipeline
mod Archives
mod Deliveries
mod Levels
mod Contracts
mod Configs
mod Moves
mod Names
use poor_man_cluster.Common.{Bool, none, [], ◌∷◌}
use poor_man_cluster.Store.Stacks.{Stack, StackRevision, Tables, blank}
use poor_man_cluster.Manifest.Ir.{IrService, Ir}

abbrev pub shop : Stack
shop = record {
  name = "shop";
  current_revision = 7;
  repo_url = none;
  source_file = "deploy/shop.yaml";
  last_error = blank;
  created_at = 100;
  updated_at = 100;
}

abbrev pub shop_7 : StackRevision
shop_7 = record {
  stack_name = "shop";
  revision = 7;
  source_yaml = "app: shop";
  rendered_yaml = "services: {}";
  rendered_hash = "";
  source_file = "deploy/shop.yaml";
  payload_json = none;
  created_at = 100;
}

abbrev pub shop_8 : StackRevision
shop_8 = record shop_7 { revision = 8 }

abbrev pub tables : Tables
tables = record {
  stacks = shop ∷ [];
  revisions = shop_7 ∷ [];
  configs = (record { name = "app.conf"; stack = "blog" }) ∷ [];
  secrets = [];
}

abbrev pub db_service : IrService
db_service = record {
  name = "db";
  image = "postgres:16";
  command = [];
  entrypoint = [];
  env = [];
  volumes = "data:/var/lib/postgresql" ∷ [];
  secrets = [];
  binds = [];
  configs = [];
  extra_hosts = [];
  user = "";
  labels = [];
  mode = "";
  restart = "";
  restart_delay = "";
  constraints = [];
  run_once = Bool.false;
  replicas = none;
  placement = "";
  skip_filelog = Bool.false;
  depends_on = [];
  extra_networks = [];
}

abbrev pub shop_ir : Ir
shop_ir = record {
  name = "shop";
  env = "production";
  version = "1";
  platform = Bool.false;
  networks = [];
  log_level = "";
  services = db_service ∷ [];
  volumes = "data" ∷ [];
  plain_volumes = [];
  secrets = [];
  configs = [];
}
