-- ===== src/Nodes/Publish/Backoff.antt =====
-- How often a node whose version is published already asks again.
use poor_man_cluster.Common.{eq_iff, ◌≡◌, refl, false, some, List, [], ◌∷◌, arith, All}
use poor_man_cluster.Common.Errors.{ok}
use poor_man_cluster.Nodes.Publish.{
  Config, Swarm, Publisher, config_name, find_config, existing, publish, loop_delay, ticks,
}

publish-published :
    (p : Publisher) (s : Swarm) (cs : List Config) {c : Config}
    → s.inspect_fails ≡ false
    → find_config (config_name p.hostname) cs ≡ some c
    → c.version ≡ p.version
    → publish p s cs ≡ (ok false, cs)
unfolding publish existing
publish-published p s cs {c} h there e = ground (arith, eq_iff c.version p.version)

ticks_published :
    (p : Publisher) (ss : List Swarm) (cs : List Config) {c : Config}
    → All (λ (s : Swarm). s.inspect_fails ≡ false) ss
    → find_config (config_name p.hostname) cs ≡ some c
    → c.version ≡ p.version
    → ticks p ss false cs ≡ (false, cs)
unfolding ticks
ticks_published p [] cs all there e = refl
ticks_published p (s ∷ ss) cs (h, all) there e =
    rw (publish-published p s cs h there e) (ticks_published p ss cs all there e)

-- A node that starts when its config already has its version never leaves the fast retry: after
-- any number of ticks whose inspection succeeds the next delay is twenty seconds, whatever the
-- interval, and nothing was written.
pub loop_delay_published :
    (p : Publisher) (ss : List Swarm) (cs : List Config) {c : Config}
    → All (λ (s : Swarm). s.inspect_fails ≡ false) ss
    → find_config (config_name p.hostname) cs ≡ some c
    → c.version ≡ p.version
    → (loop_delay p (ticks p ss false cs).0 ≡ 20_000_000_000) × ((ticks p ss false cs).1 ≡ cs)
unfolding loop_delay
loop_delay_published p ss cs all there e =
    let same = ticks_published p ss cs all there e in (rw same refl, rw same refl)
