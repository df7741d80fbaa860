-- ===== src/Tests/Configs.antt =====
-- Config references at concrete rows.
use poor_man_cluster.Common.{
  String, ◌==◌, eq_iff, ◌≡◌, refl, sym, subst, Bool, true, false, ◌||◌, Option, some, [], ◌∷◌,
  arith, Bool-cases, inl, inr, lookup, insert,
}
use poor_man_cluster.Common.Errors.{Error, Result, ok, err}
use poor_man_cluster.Common.Text.{trim_space}
use poor_man_cluster.Refs.{has_char}
use poor_man_cluster.Stacks.Resolver.{resolve_config_path, resolve_secret_value, resolve_config}
use poor_man_cluster.Stacks.Resolver.Stored.{
  ConfigRow, SecretRow, Rows, Swarm, config_for_stack, content_of,
}
use poor_man_cluster.Stacks.Resolver.Pattern.{scan}
use poor_man_cluster.Stacks.Resolver.Scoped.{SameFor, over, resolve_config_scoped}
use poor_man_cluster.Stacks.Resolver.Visible.{visible_configs, visible_secrets, has_secret, Agrees}
use poor_man_cluster.Stacks.Resolver.Cycles.{RefersTo, any_refers, cycle_refused}

abbrev row : String → String → String → ConfigRow
row stack name content = record {
  id = 1;
  scope = "service";
  stack = stack;
  name = name;
  content = content;
  hash = "0123456789";
}

abbrev app_yaml : ConfigRow
app_yaml = row "shop" "app" "mount: config_path(app), myconfig(x), pw: secret( db )"

abbrev db_secret : SecretRow
db_secret = record { stack = "shop"; name = "db"; payload = "sealed" }

abbrev rows : Rows
rows = record {
  configs = app_yaml ∷ [];
  secrets = db_secret ∷ [];
  settings = ("config_mount_root", "/srv/conf/") ∷ [];
  reads_fail = false;
}

-- The same store with the rows of another stack.
abbrev more_rows : Rows
more_rows = record rows {
  configs = row "blog" "app" "theirs" ∷ app_yaml ∷ [];
  secrets = (record { stack = "blog"; name = "token"; payload = "other" }) ∷ db_secret ∷ [];
}

abbrev open_sealed : Option (String → Result String)
open_sealed = some (λ payload. ok "s3cret")

abbrev empty_swarm : Swarm
empty_swarm = record { objects = []; inspect_fails = λ name. false; create_fails = λ name. false }

abbrev expanded : String
expanded = "mount: /srv/conf/app.yaml, myconfig(x), pw: s3cret"

-- A reference inside a word is no reference, and the swarm gets the missing object.
resolved :
    resolve_config (over true open_sealed rows) "shop" "app" empty_swarm
    ≡ (ok expanded, record empty_swarm { objects = ("app_01234567", app_yaml.content) ∷ [] })
unfolding resolve_config resolve_config_path resolve_secret_value content_of lookup insert
resolved = refl

same_rows : SameFor "shop" rows more_rows
unfolding visible_configs visible_secrets has_secret
same_rows = record {
  same_configs = refl;
  same_secrets = refl;
  same_settings = refl;
  same_reads = refl;
  distinct = (refl, tt);
  distinct' = (refl, (refl, tt));
}

resolve_config_scoped_example :
    Agrees
      (resolve_config (over true open_sealed rows) "shop" "app" empty_swarm)
      (resolve_config (over true open_sealed more_rows) "shop" "app" empty_swarm)
resolve_config_scoped_example =
    resolve_config_scoped true open_sealed "shop" rows more_rows same_rows "app" empty_swarm

-- Two configs that refer to each other.
abbrev ping : ConfigRow
ping = row "" "ping" "go config(pong)"

abbrev pong : ConfigRow
pong = row "shop" "pong" "back config(ping)"

abbrev cyclic : Rows
cyclic = record rows { configs = ping ∷ pong ∷ [] }

abbrev in_cycle : String → Bool
in_cycle name = name == "ping" || name == "pong"

abbrev Refers : String → Type 0
Refers name =
    (c : ConfigRow) × (config_for_stack "shop" name cyclic.configs ≡ some c)
    × RefersTo in_cycle c.content

ping-Refers : Refers "ping"
unfolding config_for_stack any_refers scan has_char trim_space
ping-Refers = (ping, refl, record { has_paren = refl; has_reference = refl })

pong-Refers : Refers "pong"
unfolding config_for_stack any_refers scan has_char trim_space
pong-Refers = (pong, refl, record { has_paren = refl; has_reference = refl })

cycle-Refers : (name : String) → in_cycle name ≡ true → Refers name
cycle-Refers name h = elim (Bool-cases (name == "ping")) [
  | inl is_ping ↦ subst Refers (sym ((eq_iff name "ping").0 is_ping)) ping-Refers
  | inr other ↦
      let is_pong : (name == "pong") ≡ true = ground (arith, other) in
      subst Refers (sym ((eq_iff name "pong").0 is_pong)) pong-Refers
]

cycle_refused_example :
    (e : Error) × ((resolve_config (over false open_sealed cyclic) "shop" "ping" empty_swarm).0
      ≡ err e)
cycle_refused_example =
    cycle_refused (over false open_sealed cyclic) "shop" in_cycle cyclic refl refl cycle-Refers
      "ping" empty_swarm refl
