-- ===== src/Stacks/Ordered/Jobs.antt =====
-- One-shot jobs: the newest task decides, once none is active.
use poor_man_cluster.Common.{
  ◌≤◌, String, ◌≡◌, refl, sym, true, false, ◌⊎◌, inl, inr, List, [], ◌∷◌, arith, All, Bool-cases,
}
use poor_man_cluster.Common.Errors.{ok}
use poor_man_cluster.Stacks.Ordered.{
  Task, is_newer, any_active, latest_from, verdict, tasks_done, run_once_done,
}

-- The task is one of the list.
pub HasTask : Task → List Task → Type 0
HasTask l [] = ⊥
HasTask l (t ∷ ts) = (t ≡ l) ⊎ HasTask l ts

-- No task of the list started later.
abbrev pub StartedLast : Task → List Task → Type 0
StartedLast l ts = All (λ (t : Task). t.started_at ≤ l.started_at) ts

-- A task at least as late as the newest so far, which is at least as late as `old`.
record Newest (old : Task) (ts : List Task) : Type 0 where
  pub task : Task
  pub here : (task ≡ old) ⊎ HasTask task ts
  pub last : StartedLast task ts
  pub from : old.started_at ≤ task.started_at
  pub found : latest_from old ts ≡ task

newest : (old : Task) (ts : List Task) → Newest old ts
unfolding latest_from HasTask
newest old [] = record { task = old; here = inl refl; last = tt; from = omega arith; found = refl }
newest old (t ∷ ts) = elim (Bool-cases (is_newer t old)) [
  | inl newer ↦
      let n = newest t ts in
      let later : old.started_at ≤ t.started_at = ground arith in
      record {
        task = n.task;
        here = elim n.here [ inl e ↦ inr (inl (sym e)) | inr h ↦ inr (inr h) ];
        last = (n.from, n.last);
        from = omega (arith, later, n.from);
        found = rw newer n.found;
      }
  | inr kept ↦
      let n = newest old ts in
      let earlier : t.started_at ≤ old.started_at = ground arith in
      record {
        task = n.task;
        here = elim n.here [ inl e ↦ inl e | inr h ↦ inr (inr h) ];
        last = (omega (arith, earlier, n.from), n.last);
        from = n.from;
        found = rw kept n.found;
      }
]

-- For a one-shot job that has a task: while one of its tasks is active the job is not done;
-- otherwise the answer is the verdict on the state of one of its tasks, than which none started
-- later.
pub run_once_done_newest :
    (job : String) (first : Task) (others : List Task)
    → ((any_active (first ∷ others) ≡ true) × (run_once_done job (ok (first ∷ others)) ≡ ok false))
      ⊎ ((any_active (first ∷ others) ≡ false)
          × ((l : Task) × HasTask l (first ∷ others)
              × StartedLast l (first ∷ others)
              × (run_once_done job (ok (first ∷ others)) ≡ verdict job l.state)))
unfolding run_once_done tasks_done HasTask
run_once_done_newest job first others = elim (Bool-cases (any_active (first ∷ others))) [
  | inl active ↦ inl (active, rw active refl)
  | inr none_active ↦
      let n = newest first others in
      inr (
        none_active,
        (
          n.task,
          elim n.here [ inl e ↦ inl (sym e) | inr h ↦ inr h ],
          (n.from, n.last),
          rw (none_active, n.found) refl,
        ),
      )
]
