-- ===== src/Reconcile/Failover/Target.antt =====
-- Which node a stack waits for, and where a failover moves it.
use poor_man_cluster.Common.{
  ℕ, String, ◌==◌, eq_iff, ◌≡◌, refl, ◌⊎◌, inl, inr, Bool, true, false, none, some, List, [], ◌∷◌,
  arith, Map, contains, Bool-cases, All, eq_refl, lookup, insert,
}
use poor_man_cluster.Common.Errors.{ok}
use poor_man_cluster.Stacks.Placement.{parse_storage_nodes, is_empty}
use poor_man_cluster.Reconcile.Failover.{
  is_healthy, first_down, storage_paused, failover_target, Attempt, try_storage_failover,
}

first_down-cases :
    (health : Map Bool) (pins : List String)
    → (All (λ p. is_healthy health p ≡ true) pins × (first_down health pins ≡ none))
      ⊎ ((down : String) × (first_down health pins ≡ some down)
          × (contains pins down ≡ true)
          × (is_healthy health down ≡ false))
unfolding first_down
first_down-cases health [] = inl (tt, refl)
first_down-cases health (p ∷ ps) = elim (Bool-cases (is_healthy health p)) [
  | inr bad ↦ inr (p, rw bad, rw eq_refl, bad)
  | inl good ↦ elim (first_down-cases health ps) [
    | inl (all, e) ↦ inl ((good, all), rw good e)
    | inr (down, e, m, bad) ↦ inr (down, rw good e, ground arith, bad)
  ]
]

target_valid :
    (health : Map Bool) (down : String) (cs : List String) (t : String)
    → failover_target health down cs ≡ some t
    → (contains cs t ≡ true) × ((t == down) ≡ false) × (is_healthy health t ≡ true)
unfolding failover_target
target_valid health down [] t h = cc
target_valid health down (c ∷ cs) t h =
    ground (arith, eq_iff c t, eq_iff c down, eq_iff t down, target_valid health down cs t)

target_found :
    (health : Map Bool) (down : String) (cs : List String) (t : String)
    → contains cs t ≡ true
    → (t == down) ≡ false
    → is_healthy health t ≡ true
    → (u : String) × (failover_target health down cs ≡ some u)
unfolding failover_target
target_found health down [] t h k g = absurd (cc)
target_found health down (c ∷ cs) t h k g = elim (Bool-cases (c == t)) [
  | inl same ↦
      let e : c ≡ t = (eq_iff c t).0 same in
      (t, ground (arith, eq_iff c t, eq_iff c down, eq_iff t down))
  | inr other ↦
      let (u, found) = target_found health down cs t (ground arith) k g in
      elim (Bool-cases (c == down)) [
        | inl skipped ↦ (u, rw skipped found)
        | inr kept ↦ elim (Bool-cases (is_healthy health c)) [
          | inl up ↦ (c, rw (kept, up))
          | inr out ↦ (u, rw (kept, out) found)
        ]
      ]
]

-- Where the health of the nodes is known, a stack all of whose storage pins are healthy is not
-- paused, and any other stack is paused for one of its pins that is not healthy.
pub storage_paused-cases :
    (health : Map Bool) (pins : List String)
    → is_empty health ≡ false
    → (All (λ p. is_healthy health p ≡ true) pins × (storage_paused true health (ok pins) ≡ none))
      ⊎ ((down : String) × (storage_paused true health (ok pins) ≡ some down)
          × (contains pins down ≡ true)
          × (is_healthy health down ≡ false))
unfolding storage_paused
storage_paused-cases health pins h = elim (first_down-cases health pins) [
  | inl (all, e) ↦ inl (all, rw h e)
  | inr (down, e, m, bad) ↦ inr (down, rw h e, m, bad)
]

-- If a failover is started, failover is enabled, and its target is a configured storage node other
-- than the one that is down, and healthy, so that a stack pinned there is not paused for the same
-- health.
pub failover_started_valid :
    (a : Attempt) (last : Map ℕ) (t : String)
    → (try_storage_failover a last).0 ≡ some t
    → (a.enabled ≡ true)
      × (contains (parse_storage_nodes a.storage_nodes) t ≡ true)
      × ((t == a.down_node) ≡ false)
      × (storage_paused true a.health (ok (t ∷ [])) ≡ none)
unfolding try_storage_failover storage_paused
failover_started_valid a last t h =
    ground (arith, target_valid a.health a.down_node (parse_storage_nodes a.storage_nodes) t)

-- While moves can be made, failover is enabled and no move of the stack was started before, a
-- healthy configured storage node other than the one that is down is enough for a move to be
-- started, and its time is remembered.
pub failover_started_live :
    (a : Attempt) (last : Map ℕ) (t : String)
    → a.can_move ≡ true
    → a.has_store ≡ true
    → a.enabled ≡ true
    → lookup a.stack_name last ≡ none
    → contains (parse_storage_nodes a.storage_nodes) t ≡ true
    → (t == a.down_node) ≡ false
    → is_healthy a.health t ≡ true
    → (u : String) × (try_storage_failover a last ≡ (some u, insert a.stack_name a.now last))
unfolding try_storage_failover
failover_started_live a last t can store on fresh listed other up =
    let (u, found) =
      target_found a.health a.down_node (parse_storage_nodes a.storage_nodes) t listed other up in
    (u, ground arith)
