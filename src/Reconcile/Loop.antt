-- ===== src/Reconcile/Loop.antt =====
-- `Loop`: its `select`, and the debounce that makes one pass of a burst of swarm events. Times are
-- in nanoseconds; a `select` of which several cases are ready may take any of them.
pub mod Debounce
use poor_man_cluster.Common.{
  ℕ, ◌+◌, ◌*◌, ◌≤◌, ◌≡◌, Bool, true, false, not, Option, none, some, List, [], ◌∷◌, if◌then◌else◌,
  leb,
}
use poor_man_cluster.Common.Int.{ℤ, is_at_most_zero}
use poor_man_cluster.Reconcile.SyncErrors.{second}

-- `debounce`
abbrev pub debounce : ℕ
debounce = 2 * second

-- What the loop keeps: whether `evCh` is non-nil, and when the debounce timer fires, if it is armed.
pub record Watch : Type 0 where
  pub events : Bool
  pub armed : Option ℕ

-- The cases of the `select`: the context is done, an event came, the event channel is closed, the
-- debounce timer fired, the safety-net ticker ticked.
pub data Case : Type 0 where
  done event closed elapsed tick : Case

-- The loop as it is entered; `has_docker` says whether there is a Docker client. An interval of zero
-- or less disables it.
unfoldable pub start : ℤ → Bool → Option Watch
start interval has_docker =
    if is_at_most_zero interval then none else some (record { events = has_docker; armed = none })

-- Whether a case can be taken: a nil channel blocks, and a timer fires at its time at the earliest.
unfoldable pub is_ready : ℕ → Case → Watch → Bool
is_ready now done w = true
is_ready now event w = w.events
is_ready now closed w = w.events
is_ready now elapsed w = elim w.armed [ none ↦ false | some deadline ↦ leb deadline now ]
is_ready now tick w = true

-- What a case leaves of the loop's state; `none` if the loop returns.
unfoldable pub select : ℕ → Case → Watch → Option Watch
select now done w = none
select now event w = some (record w {
  armed = elim w.armed [ none ↦ some (now + debounce) | some deadline ↦ some deadline ];
})
select now closed w = some (record w { events = false })
select now elapsed w = some (record w { armed = none })
select now tick w = some w

-- Whether the case runs a pass.
unfoldable pub runs_pass : Case → Bool
runs_pass done = false
runs_pass event = false
runs_pass closed = false
runs_pass elapsed = true
runs_pass tick = true

-- The cases that the loop takes, from a time on: each when it is ready, in the order of time.
pub data Run : ℕ → Watch → List (ℕ × Case) → Option Watch → Type 0 where
  rest : {t : ℕ} {w : Watch} → Run t w [] (some w)
  stop : {t now : ℕ} {w : Watch} → t ≤ now → Run t w ((now, done) ∷ []) none
  takes :
      {t now : ℕ} {c : Case} {w next : Watch} {cs : List (ℕ × Case)} {end : Option Watch}
      → t ≤ now
      → is_ready now c w ≡ true
      → select now c w ≡ some next
      → Run now next cs end
      → Run t w ((now, c) ∷ cs) end
