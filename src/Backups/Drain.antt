-- ===== src/Backups/Drain.antt =====
-- internal/backups/drain.go: a stack is paused around a restore, and put back.
-- The runtime answers to each scaling; the clock and the listings of the wait are the rounds of its
-- loop. The log lines are left out.
pub mod Undone
use poor_man_cluster.Common.{
  ℕ, zero, suc, ◌+◌, String, ◌==◌, Bool, true, false, not, ◌&&◌, ◌||◌, Option, none, some, List, [],
  ◌∷◌, ◌++◌, if◌then◌else◌, ltb, eqb, Map, insert, lookup,
}
use poor_man_cluster.Common.Errors.{Error, plain, wrapped, Result, ok, err}

-- `runtime.Service`, by the fields that a drain reads.
pub record Service : Type 0 where
  pub service_id : String
  pub name : String
  pub stack : String
  pub mode : String
  pub run_once : Bool
  pub desired : ℕ
  pub replicas : ℕ

-- `DrainReport`
pub record DrainReport : Type 0 where
  pub stack : String
  pub paused : Map ℕ
  pub skipped : List String

-- A call of `ScaleService`: the service's id, and the replicas.
abbrev pub Scaling : Type 0
Scaling = String × ℕ

abbrev pub is_global : Service → Bool
is_global s = s.mode == "global"

-- The services that the loop of `Drain` pauses.
unfoldable pub to_pause : String → List Service → List Service
to_pause stack [] = []
to_pause stack (s ∷ svcs) =
    let rest = to_pause stack svcs in
    if not (s.stack == stack)
    then rest
    else if is_global s
    then rest
    else if s.run_once
    then rest
    else if eqb s.desired 0
    then rest
    else s ∷ rest

-- The global services of the stack, which are left running.
unfoldable pub left_running : String → List Service → List String
left_running stack [] = []
left_running stack (s ∷ svcs) =
    let rest = left_running stack svcs in
    if s.stack == stack && is_global s then s.name ∷ rest else rest

-- `rep.Paused[s.Name] = want`, over the paused services.
unfoldable pub counts_of : Map ℕ → List Service → Map ℕ
unfolding insert
counts_of m [] = m
counts_of m (s ∷ paused) = counts_of (insert s.name s.desired m) paused

abbrev pub or_zero : Option ℕ → ℕ
or_zero none = 0
or_zero (some n) = n

-- `undo`: every paused service is scaled back to its count; an error is only logged.
unfoldable pub undo : Map ℕ → List Service → List Scaling
unfolding lookup
undo counts [] = []
undo counts (s ∷ paused) = (s.service_id, or_zero (lookup s.name counts)) ∷ undo counts paused

-- A round of the wait: the listing, whether the deadline has passed, and the context's error.
pub record Round : Type 0 where
  pub listing : Result (List Service)
  pub late : Bool
  pub cancelled : Option Error

abbrev pub is_some {ℓ} : {A : Type ℓ} → Option A → Bool
is_some none = false
is_some (some a) = true

-- `stillRunning`, as far as whether there is any.
unfoldable pub still_running : String → Map ℕ → List Service → Bool
unfolding lookup
still_running stack counts [] = false
still_running stack counts (s ∷ svcs) =
    s.stack == stack && is_some (lookup s.name counts) && ltb 0 s.replicas
    || still_running stack counts svcs

-- How the wait ends: drained, or with an error; `none` if it still waits.
abbrev round_ends : String → Map ℕ → Round → Option (Option Error)
round_ends stack counts r = elim r.listing [
  | err e ↦ some (some (wrapped "drain" e))
  | ok svcs ↦
      if not (still_running stack counts svcs)
      then some none
      else if r.late
      then some (some (plain "still running"))
      else elim r.cancelled [ none ↦ none | some e ↦ some (some e) ]
]

abbrev pub or_rest : Option (Option Error) → Option (Option Error) → Option (Option Error)
or_rest none rest = rest
or_rest (some answer) rest = some answer

unfoldable pub wait : String → Map ℕ → List Round → Option (Option Error)
unfolding still_running
wait stack counts [] = none
wait stack counts (r ∷ rounds) = or_rest (round_ends stack counts r) (wait stack counts rounds)

-- What a drain has done: the scalings asked for in their order, the report, those that the returned
-- undo would ask for, and the error if any.
pub record Drained : Type 0 where
  pub scalings : List Scaling
  pub report : DrainReport
  pub on_undo : List Scaling
  pub error : Option Error

-- The loop that scales to zero: the calls made, and the error of the first that fails.
unfoldable pub scale_down : (String → Option Error) → List Service → List Scaling × Option Error
scale_down fails [] = ([], none)
scale_down fails (s ∷ paused) =
    let rest = scale_down fails paused in
    elim (fails s.service_id) [
      | some e ↦ ((s.service_id, 0) ∷ [], some (wrapped "drain" e))
      | none ↦ ((s.service_id, 0) ∷ rest.0, rest.1)
    ]

module _ (fails : String → Option Error) (rounds : List Round) where
  abbrev waited : DrainReport → List Service → List Scaling → Option (Option Error) → Option Drained
  waited rep paused calls none = none
  waited rep paused calls (some none) =
      some
        (record { scalings = calls; report = rep; on_undo = undo rep.paused paused; error = none })
  waited rep paused calls (some (some e)) = some (record {
    scalings = calls ++ undo rep.paused paused;
    report = rep;
    on_undo = [];
    error = some e;
  })

  abbrev scaled : DrainReport → List Service → List Scaling × Option Error → Option Drained
  scaled rep paused (calls, some e) = some (record {
    scalings = calls ++ undo rep.paused paused;
    report = rep;
    on_undo = [];
    error = some e;
  })
  scaled rep paused (calls, none) = waited rep paused calls (wait rep.stack rep.paused rounds)

  abbrev nothing_done : DrainReport → Option Error → Option Drained
  nothing_done rep e = some (record { scalings = []; report = rep; on_undo = []; error = e })

  abbrev of_paused : DrainReport → List Service → Option Drained
  of_paused rep [] = nothing_done rep none
  of_paused rep (s ∷ paused) = scaled rep (s ∷ paused) (scale_down fails (s ∷ paused))

  abbrev of_listing : String → Result (List Service) → Option Drained
  of_listing stack (err e) =
      nothing_done (record { stack = stack; paused = []; skipped = [] }) (some (wrapped "drain" e))
  of_listing stack (ok svcs) =
      of_paused
        (record {
          stack = stack;
          paused = counts_of [] (to_pause stack svcs);
          skipped = left_running stack svcs;
        })
        (to_pause stack svcs)

  -- `Drainer.Drain`; `none` if the rounds given do not end its wait.
  unfoldable pub drain : Bool → String → Result (List Service) → Option Drained
  drain has_scaler stack listing =
      if not has_scaler || stack == ""
      then nothing_done (record { stack = stack; paused = []; skipped = [] }) none
      else of_listing stack listing
