-- ===== src/Stacks/Ordered/Waiting.antt =====
-- What the wait for a level gives.
use poor_man_cluster.Common.{
  ℕ, ◌+◌, ◌≤◌, String, ◌≡◌, Bool, true, false, ◌||◌, ◌⊎◌, inl, inr, Option, none, some, List, [],
  ◌∷◌, arith, ltb, All, Bool-cases, Option-cases, Map, lookup,
}
use poor_man_cluster.Common.Errors.{Error, Result, ok, err}
use Prim.Native.String.{◌++◌}
use poor_man_cluster.Stacks.Ordered.{
  Task, LiveService, by_name, run_once_done, name_ready, all_ready, level_ready, Poll, ends,
  deploy_wait_timeout, wait_from, wait_level_healthy,
}

module _ (stack_name : String) (tasks : String → Result (List Task)) (live : Map LiveService) where
  -- The service is live, and its job is done or all its replicas run.
  abbrev pub IsUp : String → Type 0
  IsUp name =
      let full = stack_name ++ "_" ++ name in
      (s : LiveService) × (lookup full live ≡ some s)
      × (((s.run_once ≡ true) × (run_once_done full (tasks full) ≡ ok true))
          ⊎ ((s.run_once ≡ false) × (s.desired ≤ s.replicas)))

  name_ready-IsUp : (name : String) → name_ready stack_name tasks live name ≡ ok true → IsUp name
  unfolding name_ready
  name_ready-IsUp name h =
      let full = stack_name ++ "_" ++ name in
      elim (Option-cases (lookup full live)) [
        | inl gone ↦ absurd (ground arith)
        | inr (s, here) ↦ elim (Bool-cases s.run_once) [
          | inl job ↦ (s, here, inl (job, ground arith))
          | inr service ↦ (s, here, inr (service, ground arith))
        ]
      ]

  all_ready-IsUp :
      (level : List String) → all_ready stack_name tasks live level ≡ ok true → All IsUp level
  unfolding all_ready
  all_ready-IsUp [] h = tt
  all_ready-IsUp (name ∷ level) h =
      (name_ready-IsUp name (ground arith), all_ready-IsUp level (ground arith))

-- A level is ready only if each of its services is live and either a one-shot job that is done or a
-- service with all the replicas it wants.
pub level_ready-IsUp :
    (stack_name : String) (tasks : String → Result (List Task)) (services : List LiveService)
    (level : List String)
    → level_ready stack_name tasks (ok services) level ≡ ok true
    → All (IsUp stack_name tasks (by_name [] services)) level
unfolding level_ready
level_ready-IsUp stack_name tasks services level h =
    all_ready-IsUp stack_name tasks (by_name [] services) level h

-- A round that is past the deadline.
unfoldable pub has_late : ℕ → List Poll → Bool
has_late deadline [] = false
has_late deadline (p ∷ ps) = ltb deadline p.now || has_late deadline ps

-- A round in which the level was found ready.
pub has_ready : List Poll → Bool
has_ready [] = false
has_ready (p ∷ ps) = elim p.ready [ err e ↦ false | ok ready ↦ ready ] || has_ready ps

wait_from_returns :
    (deadline : ℕ) (ps : List Poll)
    → has_late deadline ps ≡ true
    → (answer : Option Error) × (wait_from deadline ps ≡ some answer)
unfolding wait_from has_late
wait_from_returns deadline [] h = absurd (ground arith)
wait_from_returns deadline (p ∷ ps) h = elim (Option-cases (ends deadline p)) [
  | inr (answer, e) ↦ (answer, ground arith)
  | inl on ↦
      let (answer, e) = wait_from_returns deadline ps (ground arith) in (answer, ground arith)
]

wait_from-ready :
    (deadline : ℕ) (ps : List Poll) → wait_from deadline ps ≡ some none → has_ready ps ≡ true
unfolding wait_from has_ready
wait_from-ready deadline [] h = absurd (ground arith)
wait_from-ready deadline (p ∷ ps) h = ground (arith, wait_from-ready deadline ps)

-- The wait for a level returns if a round of it is more than two minutes behind its start, and it
-- then reports success only if a round found the level ready.
pub wait_level_healthy_returns :
    (start : ℕ) (polls : List Poll)
    → has_late (start + deploy_wait_timeout) polls ≡ true
    → (answer : Option Error) × (wait_level_healthy true start polls ≡ some answer)
      × (answer ≡ none → has_ready polls ≡ true)
unfolding wait_level_healthy
wait_level_healthy_returns start polls h =
    let deadline = start + deploy_wait_timeout in
    let (answer, e) = wait_from_returns deadline polls h in
    (answer, e, λ success. wait_from-ready deadline polls (ground arith))
