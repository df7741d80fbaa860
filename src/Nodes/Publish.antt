-- ===== src/Nodes/Publish.antt =====
-- `Publisher.Publish` and `Publisher.Loop`. The swarm's configs are a table by name; what
-- its calls fail with is a parameter. A config that is inspected and does not exist is an error,
-- like any other failure of the inspection.
pub mod Converge
pub mod Backoff
use poor_man_cluster.Common.{
  ℕ, ◌*◌, String, ◌==◌, Bool, true, false, not, ◌&&◌, ◌||◌, Option, none, some, List, [], ◌∷◌,
  if◌then◌else◌, leb,
}
use poor_man_cluster.Common.Int.{ℤ, pos, negsuc, is_at_most_zero, at_least_zero}
use poor_man_cluster.Common.Errors.{Error, plain, wrapped, Result, ok, err}
use Prim.Native.Char.{Char, code}
use Prim.Native.String.{◌++◌}

-- The characters that a config name may have.
abbrev pub is_name_char : ℕ → Bool
is_name_char c =
    leb 97 c && leb c 122
    || leb 65 c && leb c 90
    || leb 48 c && leb c 57
    || leb 45 c && leb c 46
    || (leb 95 c && leb c 95)

-- `sanitize`
unfoldable pub sanitize : String → String
sanitize String.[] = String.[]
sanitize (String.◌∷◌ c s) =
    let rest = sanitize s in String.◌∷◌ (if is_name_char (code c) then c else "-") rest

-- `Name`
unfoldable pub config_name : String → String
unfolding sanitize
config_name hostname = "pmcluster_nodever" ++ "_" ++ sanitize hostname

-- A version config: the labels that are read back.
pub record Config : Type 0 where
  pub name : String
  pub hostname : String
  pub version : String

unfoldable pub find_config : String → List Config → Option Config
find_config name [] = none
find_config name (c ∷ cs) = if c.name == name then some c else find_config name cs

unfoldable pub without_config : String → List Config → List Config
without_config name [] = []
without_config name (c ∷ cs) =
    let rest = without_config name cs in if c.name == name then rest else c ∷ rest

-- What the swarm answers: whether this node is a manager (a failing `Info` says no), and the errors
-- of the inspection, of the removal and of the creation.
pub record Swarm : Type 0 where
  pub is_manager : Bool
  pub inspect_fails : Bool
  pub remove_fails : Option Error
  pub create_fails : Option Error

-- `Publisher`, less its log; `has_docker` says whether there is a client.
pub record Publisher : Type 0 where
  pub has_docker : Bool
  pub hostname : String
  pub version : String
  pub interval : ℤ

-- Whether it wrote, or its error; and the configs that are left.
abbrev pub Published : Type 0
Published = Result Bool × List Config

module _ (p : Publisher) (s : Swarm) where
  abbrev pub own : Config
  own = record { name = config_name p.hostname; hostname = p.hostname; version = p.version }

  -- `ConfigCreate`: a name that exists is refused.
  unfoldable pub create : List Config → Published
  unfolding config_name find_config
  create cs = elim s.create_fails [
    | some e ↦ (err (wrapped "publish node version config" e), cs)
    | none ↦ elim (find_config (config_name p.hostname) cs) [
      | some c ↦ (err (wrapped "publish node version config" (plain "already exists")), cs)
      | none ↦ (ok true, own ∷ cs)
    ]
  ]

  -- A config of this host that has another version is removed first.
  unfoldable pub replace : List Config → Published
  unfolding config_name without_config create
  replace cs = elim s.remove_fails [
    | some e ↦ (err (wrapped "replace node version config" e), cs)
    | none ↦ create (without_config (config_name p.hostname) cs)
  ]

  -- `ConfigInspect`
  unfoldable pub existing : List Config → Option Config
  unfolding config_name find_config
  existing cs = if s.inspect_fails then none else find_config (config_name p.hostname) cs

  -- `Publish`
  unfoldable pub publish : List Config → Published
  unfolding create replace existing
  publish cs =
      if not p.has_docker || p.hostname == "" || p.version == ""
      then (ok false, cs)
      else if not s.is_manager
      then (ok false, cs)
      else elim (existing cs) [
        | none ↦ create cs
        | some c ↦ if c.version == p.version then (ok false, cs) else replace cs
      ]

-- The delay of `Loop` until its next tick, in nanoseconds, by whether a tick has written yet.
unfoldable pub loop_delay : Publisher → Bool → ℕ
loop_delay p published =
    if not published
    then 20 * 1_000_000_000
    else if is_at_most_zero p.interval
    then 600 * 1_000_000_000
    else at_least_zero p.interval

-- What a tick of `Loop` makes of `published`.
abbrev pub ticked : Bool → Result Bool → Bool
ticked published (err e) = published
ticked published (ok wrote) = if wrote then true else published

-- The ticks of `Loop`, one for each state that the swarm is in by then: `published`, the configs.
unfoldable pub ticks : Publisher → List Swarm → Bool → List Config → Bool × List Config
unfolding publish
ticks p [] published cs = (published, cs)
ticks p (s ∷ ss) published cs =
    let (wrote, cs') = publish p s cs in ticks p ss (ticked published wrote) cs'
