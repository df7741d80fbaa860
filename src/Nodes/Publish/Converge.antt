-- ===== src/Nodes/Publish/Converge.antt =====
-- What a publish leaves in the swarm.
use poor_man_cluster.Common.{
  String, ◌==◌, eq_iff, eq_refl, ◌≡◌, refl, Bool, true, false, none, some, List, [], ◌∷◌, arith,
  if◌then◌else◌, Option-cases, Bool-cases, inl, inr,
}
use poor_man_cluster.Common.Errors.{ok}
use poor_man_cluster.Nodes.Publish.{
  Config, Swarm, Publisher, config_name, find_config, without_config, own, create, replace,
  existing, publish,
}

find_config-without_config :
    (name other : String) (cs : List Config)
    → find_config other (without_config name cs)
      ≡ (if name == other then none else find_config other cs)
unfolding find_config without_config
find_config-without_config name other [] = ground arith
find_config-without_config name other (c ∷ cs) = ground (
  arith,
  eq_iff c.name name,
  eq_iff c.name other,
  eq_iff name other,
  find_config-without_config name other cs,
)

-- The publisher is configured, and the node is a manager whose calls succeed.
pub record IsAble (p : Publisher) (s : Swarm) : Type 0 where
  pub docker : p.has_docker ≡ true
  pub named : (p.hostname == "") ≡ false
  pub versioned : (p.version == "") ≡ false
  pub manager : s.is_manager ≡ true
  pub inspects : s.inspect_fails ≡ false
  pub removes : s.remove_fails ≡ none
  pub creates : s.create_fails ≡ none

-- The host's config has the version of its binary.
abbrev pub IsCurrent : Publisher → List Config → Type 0
IsCurrent p cs =
    (c : Config) × (find_config (config_name p.hostname) cs ≡ some c) × (c.version ≡ p.version)

module _ (p : Publisher) (s : Swarm) (a : IsAble p s) where
  publish-new :
      (cs : List Config)
      → find_config (config_name p.hostname) cs ≡ none
      → publish p s cs ≡ (ok true, own p s ∷ cs)
  unfolding publish create existing
  publish-new cs h =
      ground (arith, a.docker, a.named, a.versioned, a.manager, a.inspects, a.creates)

  publish-older :
      (cs : List Config) {c : Config}
      → find_config (config_name p.hostname) cs ≡ some c
      → (c.version == p.version) ≡ false
      → publish p s cs ≡ (ok true, own p s ∷ without_config (config_name p.hostname) cs)
  unfolding publish create replace existing
  publish-older cs h k = ground (
    arith,
    a.docker,
    a.named,
    a.versioned,
    a.manager,
    a.inspects,
    a.removes,
    a.creates,
    eq_refl (config_name p.hostname),
    find_config-without_config (config_name p.hostname) (config_name p.hostname) cs,
  )

  publish-same :
      (cs : List Config) {c : Config}
      → find_config (config_name p.hostname) cs ≡ some c
      → (c.version == p.version) ≡ true
      → publish p s cs ≡ (ok false, cs)
  unfolding publish existing
  publish-same cs h k = ground (arith, a.docker, a.named, a.versioned, a.manager, a.inspects)

-- On a manager whose calls succeed a publish never fails: it leaves the host's config with the
-- version of its binary, whichever config was there before, and every other config as it was.
pub publish-IsCurrent :
    (p : Publisher) (s : Swarm) (cs : List Config)
    → IsAble p s
    → ((wrote : Bool) × ((publish p s cs).0 ≡ ok wrote))
      × IsCurrent p (publish p s cs).1
      × ((other : String)
          → (config_name p.hostname == other) ≡ false
          → find_config other (publish p s cs).1 ≡ find_config other cs)
unfolding find_config
publish-IsCurrent p s cs a =
    let name = config_name p.hostname in
    elim (Option-cases (find_config name cs)) [
      | inl new ↦
          rw (publish-new p s a cs new)
            ((true, refl), (own p s, rw (eq_refl name) refl, refl), λ other h. rw h refl)
      | inr (c, there) ↦ elim (Bool-cases (c.version == p.version)) [
        | inl same ↦
            rw (publish-same p s a cs there same)
              ((false, refl), (c, there, (eq_iff c.version p.version).0 same), λ other h. refl)
        | inr older ↦ rw (publish-older p s a cs there older) (
          (true, refl),
          (own p s, rw (eq_refl name) refl, refl),
          λ other h. rw (h, find_config-without_config name other cs, h) refl,
        )
      ]
    ]
