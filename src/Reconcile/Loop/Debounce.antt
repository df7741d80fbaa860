-- ===== src/Reconcile/Loop/Debounce.antt =====
-- Bursts of events: how often they make a pass, and how soon.
use poor_man_cluster.Common.{
  ℕ, ◌+◌, ◌≤◌, ◌≡◌, refl, ap, Bool, true, false, Option, none, some, List, [], ◌∷◌, arith, ◌⊎◌, inl,
  inr,
}
use poor_man_cluster.Reconcile.Loop.{
  debounce, Watch, Case, done, event, closed, elapsed, tick, is_ready, select, Run, rest, stop,
  takes,
}

-- A debounced pass, before those that follow.
abbrev onto : ℕ → Case → List ℕ → List ℕ
onto now elapsed ts = now ∷ ts
onto now done ts = ts
onto now event ts = ts
onto now closed ts = ts
onto now tick ts = ts

-- The times of the passes that the debounce timer makes.
pub debounced : List (ℕ × Case) → List ℕ
debounced [] = []
debounced ((now, c) ∷ cs) = onto now c (debounced cs)

-- Each time stands at least a debounce behind the one before it, and the first behind `from`.
abbrev pub Apart : ℕ → List ℕ → Type 0
Apart from [] = Unit
Apart from (t ∷ ts) = (from ≤ t) × Apart (t + debounce) ts

-- The earliest time of the next debounced pass.
abbrev pub earliest : ℕ → Watch → ℕ
earliest t w = elim w.armed [ none ↦ t + debounce | some deadline ↦ deadline ]

Apart-le : (a b : ℕ) (ts : List ℕ) → a ≤ b → Apart b ts → Apart a ts
Apart-le a b [] h k = tt
Apart-le a b (t ∷ ts) h (k, ks) = (omega arith, ks)

earliest-select :
    (c : Case) (t now : ℕ) (w next : Watch) (ts : List ℕ)
    → t ≤ now
    → is_ready now c w ≡ true
    → select now c w ≡ some next
    → Apart (earliest now next) ts
    → Apart (earliest t w) (onto now c ts)
unfolding is_ready select
earliest-select elapsed t now w next ts h r e all =
    (ground arith, Apart-le (now + debounce) (earliest now next) ts (ground arith) all)
earliest-select done t now w next ts h r e all = absurd (ground arith)
earliest-select event t now w next ts h r e all =
    Apart-le (earliest t w) (earliest now next) ts (ground arith) all
earliest-select closed t now w next ts h r e all =
    Apart-le (earliest t w) (earliest now next) ts (ground arith) all
earliest-select tick t now w next ts h r e all =
    Apart-le (earliest t w) (earliest now next) ts (ground arith) all

-- In every run of the loop, a debounced pass stands at least two seconds behind the debounced pass
-- before it; the first stands at or behind the time the timer was armed for, and two seconds behind
-- the start if it was not armed.
pub debounced-Run :
    {t : ℕ} {w : Watch} {cs : List (ℕ × Case)} {end : Option Watch}
    → Run t w cs end
    → Apart (earliest t w) (debounced cs)
unfolding debounced
debounced-Run rest = tt
debounced-Run (stop h) = tt
debounced-Run {t} {w} (takes {now = now} {c = c} {next = next} {cs = cs} h r e run) =
    earliest-select c t now w next (debounced cs) h r e (debounced-Run run)

-- A debounced pass is among the cases taken.
abbrev is_some_pass : List ℕ → Bool
is_some_pass [] = false
is_some_pass (t ∷ ts) = true

abbrev pub has_debounced : List (ℕ × Case) → Bool
has_debounced cs = is_some_pass (debounced cs)

is_some_pass-onto :
    (now : ℕ) (c : Case) (ts : List ℕ)
    → is_some_pass ts ≡ true
    → is_some_pass (onto now c ts) ≡ true
is_some_pass-onto now elapsed ts h = refl
is_some_pass-onto now done ts h = h
is_some_pass-onto now event ts h = h
is_some_pass-onto now closed ts h = h
is_some_pass-onto now tick ts h = h

armed-select :
    (c : Case) (now deadline : ℕ) (w next : Watch) (ts : List ℕ)
    → w.armed ≡ some deadline
    → select now c w ≡ some next
    → (next.armed ≡ some deadline) ⊎ (onto now c ts ≡ now ∷ ts)
unfolding select
armed-select elapsed now deadline w next ts h e = inr refl
armed-select done now deadline w next ts h e = absurd (ground arith)
armed-select event now deadline w next ts h e = inl (ground arith)
armed-select closed now deadline w next ts h e = inl (ground arith)
armed-select tick now deadline w next ts h e = inl (ground arith)

-- The end of a run that has stopped, or in which the timer is still armed for the time.
abbrev pub IsArmed : ℕ → Option Watch → Type 0
IsArmed deadline none = Unit
IsArmed deadline (some w) = w.armed ≡ some deadline

-- Once the timer is armed for a time, the loop makes a debounced pass, or is cancelled, or keeps
-- the timer armed for that very time, however many events and ticks come in between.
pub armed-Run :
    {t deadline : ℕ} {w : Watch} {cs : List (ℕ × Case)} {end : Option Watch}
    → w.armed ≡ some deadline
    → Run t w cs end
    → (has_debounced cs ≡ true) ⊎ IsArmed deadline end
unfolding debounced
armed-Run h rest = inr h
armed-Run h (stop k) = inr tt
armed-Run {t} {deadline} {w} h (takes {now = now} {c = c} {next = next} {cs = cs} k r e run) =
    elim (armed-select c now deadline w next (debounced cs) h e) [
      | inr made ↦ inl (ap is_some_pass made)
      | inl kept ↦ elim (armed-Run kept run) [
        | inr end ↦ inr end
        | inl made ↦ inl (is_some_pass-onto now c (debounced cs) made)
      ]
    ]
