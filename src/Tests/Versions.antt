-- ===== src/Tests/Versions.antt =====
-- A manager that publishes its version.
use poor_man_cluster.Common.{◌≡◌, refl, true, false, none, some, [], ◌∷◌}
use poor_man_cluster.Common.Int.{pos}
use poor_man_cluster.Nodes.Publish.{Config, Swarm, Publisher, config_name, find_config}
use poor_man_cluster.Nodes.Publish.Converge.{IsAble}

abbrev m1 : Publisher
m1 = record { has_docker = true; hostname = "m1"; version = "v2"; interval = pos 600_000_000_000 }

abbrev swarm : Swarm
swarm = record {
  is_manager = true;
  inspect_fails = false;
  remove_fails = none;
  create_fails = none;
}

-- The config that the older binary of the node published.
abbrev older : Config
older = record { name = config_name "m1"; hostname = "m1"; version = "v1" }

abbrev current : Config
current = record { name = config_name "m1"; hostname = "m1"; version = "v2" }

able : IsAble m1 swarm
able = record {
  docker = refl;
  named = refl;
  versioned = refl;
  manager = refl;
  inspects = refl;
  removes = refl;
  creates = refl;
}

found_current : find_config (config_name "m1") (current ∷ []) ≡ some current
unfolding find_config config_name
found_current = refl
