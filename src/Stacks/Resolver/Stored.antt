-- ===== src/Stacks/Resolver/Stored.antt =====
-- The rows and the swarm objects that the resolver reads: internal/store/configs.go and secrets.go.
use poor_man_cluster.Common.{
  or_else, ℕ, String, ◌==◌, Bool, true, false, ◌&&◌, ◌||◌, Option, none, some, List, [], ◌∷◌,
  if◌then◌else◌, ltb, Map, lookup, insert,
}
use Prim.Native.String.{len, slice}
use Prim.Native.String

-- `store.ConfigRow` and `store.SecretRow`, by the columns that the resolver reads.
pub record ConfigRow : Type 0 where
  pub id : ℕ
  pub scope : String
  pub stack : String
  pub name : String
  pub content : String
  pub hash : String

pub record SecretRow : Type 0 where
  pub stack : String
  pub name : String
  pub payload : String

pub record Rows : Type 0 where
  pub configs : List ConfigRow
  pub secrets : List SecretRow
  pub settings : Map String
  pub reads_fail : Bool

-- The config objects of the swarm, and which calls about them fail.
pub record Swarm : Type 0 where
  pub objects : Map String
  pub inspect_fails : String → Bool
  pub create_fails : String → Bool

-- Whether a stack may use a row.
abbrev pub is_visible : String → String → Bool
is_visible stack owner = owner == stack || owner == ""

abbrev lower_id : ConfigRow → Option ConfigRow → ConfigRow
lower_id c none = c
lower_id c (some d) = if ltb d.id c.id then d else c

-- The row of the lowest id among those of a name and an owner.
unfoldable pub least_id : String → String → List ConfigRow → Option ConfigRow
least_id owner name [] = none
least_id owner name (c ∷ cs) =
    let rest = least_id owner name cs in
    if c.name == name && c.scope == "service" && c.stack == owner
    then some (lower_id c rest)
    else rest

-- `Store.ConfigForStack`, less its faults: a row of the stack is preferred to a shared one.
unfoldable pub config_for_stack : String → String → List ConfigRow → Option ConfigRow
unfolding least_id
config_for_stack stack name cs = or_else (least_id stack name cs) (least_id "" name cs)

-- `Store.Secret`, less its faults.
unfoldable pub find_secret : String → List SecretRow → Option SecretRow
find_secret name [] = none
find_secret name (s ∷ ss) = if s.name == name then some s else find_secret name ss

-- `store.SwarmConfigName`
abbrev swarm_config_name : String → String → String
swarm_config_name name hash =
    if ltb (len hash) 8 then name else String.◌++◌ name (String.◌++◌ "_" (slice hash 0 8))

abbrev inspect : Swarm → String → Option String
inspect sw name = if sw.inspect_fails name then none else lookup name sw.objects

-- `ConfigCreate`, whose failure is passed over.
abbrev create : Swarm → String → String → Swarm
create sw name content =
    if sw.create_fails name then sw else record sw { objects = insert name content sw.objects }

abbrev or_created : Swarm → String → String → Option String → String × Swarm
or_created sw name content none = (content, create sw name content)
or_created sw name content (some read) = (read, sw)

-- The content of a row, read from the swarm first.
unfoldable pub content_of : Bool → ConfigRow → Swarm → String × Swarm
unfolding lookup insert
content_of false c sw = (c.content, sw)
content_of true c sw =
    or_created sw (swarm_config_name c.name c.hash) c.content
      (inspect sw (swarm_config_name c.name c.hash))
