-- ===== src/Reconcile/Snapshot/Coverage.antt =====
-- What the snapshot leaves in the table.
use poor_man_cluster.Common.{
  ℕ, String, ◌==◌, eq_iff, ◌≡◌, refl, Bool, false, not, ◌&&◌, ◌||◌, Option, none, some, List, [],
  ◌∷◌, arith, if◌then◌else◌,
}
use poor_man_cluster.Common.Errors.{Result, ok, err}
use poor_man_cluster.Store.Stacks.{Stack, has_stack, find_stack}
use poor_man_cluster.Store.Stacks.Invariant.{DistinctStacks}
use poor_man_cluster.Store.StackStatus.{
  StackStatus, has_status, find_status, set_stack_status, without_status, find_status-set,
  find_status-without,
}
use poor_man_cluster.Reconcile.Status.{ServiceSummary}
use poor_man_cluster.Reconcile.Snapshot.{status_row, write_rows, prune_rows, snapshot_health}

status_row-name :
    (now : ℕ) (st : Stack) (r : Result (List ServiceSummary))
    → (status_row now st r).stack_name ≡ st.name
unfolding status_row
status_row-name now st (ok svcs) = refl
status_row-name now st (err e) = refl

find_stack-none : (n : String) (ss : List Stack) → has_stack n ss ≡ false → find_stack n ss ≡ none
unfolding has_stack find_stack
find_stack-none n [] h = refl
find_stack-none n (s ∷ ss) h = ground (arith, find_stack-none n ss)

find_stack-some : (n : String) (ss : List Stack) → find_stack n ss ≡ none → has_stack n ss ≡ false
unfolding has_stack find_stack
find_stack-some n [] h = refl
find_stack-some n (s ∷ ss) h = ground (arith, find_stack-some n ss)

-- The row of a name behind a snapshot, if it had the row `old`: of a stack the one derived in this
-- pass, but the old one if its write fails, and of any other name none, but the old one if its
-- delete fails.
abbrev pub row_after :
    ℕ
    → (String → Result (List ServiceSummary))
    → (String → Bool)
    → (String → Bool)
    → String
    → Option Stack
    → Option StackStatus
    → Option StackStatus
row_after now services set_fails delete_fails n none old = if delete_fails n then old else none
row_after now services set_fails delete_fails n (some st) old =
    if set_fails n then old else some (status_row now st (services st.name))

module _ (now : ℕ) (services : String → Result (List ServiceSummary))
    (set_fails : String → Bool) where
  written : Stack → List StackStatus → List StackStatus
  unfolding set_stack_status
  written st rows =
      if set_fails st.name
      then rows
      else set_stack_status (status_row now st (services st.name)) rows

  find_status-written :
      (n : String) (st : Stack) (rows : List StackStatus)
      → find_status n (written st rows) ≡ (
          if st.name == n && not (set_fails n)
          then some (status_row now st (services st.name))
          else find_status n rows)
  unfolding written
  find_status-written n st rows = ground (
    arith,
    status_row-name now st (services st.name),
    eq_iff st.name n,
    find_status-set n (status_row now st (services st.name)) rows,
  )

  find_status-write_rows :
      (n : String) (sts : List Stack) (rows : List StackStatus)
      → DistinctStacks sts
      → find_status n (write_rows now services set_fails sts rows) ≡ (elim (find_stack n sts) [
        | none ↦ find_status n rows
        | some st ↦
            if set_fails n then find_status n rows else some (status_row now st (services st.name))
      ])
  unfolding write_rows find_stack written
  find_status-write_rows n [] rows d = refl
  find_status-write_rows n (st ∷ sts) rows d = ground (
    arith,
    eq_iff st.name n,
    find_stack-none st.name sts,
    find_status-write_rows n sts (written st rows),
    find_status-written n st rows,
  )

-- A row is pruned if it was listed, its stack was not seen, and its delete passes.
find_status-prune_rows :
    (delete_fails : String → Bool) (n : String) (sts : List Stack) (listed rows : List StackStatus)
    → find_status n (prune_rows delete_fails sts listed rows) ≡ (
        if has_stack n sts || not (has_status n listed) || delete_fails n
        then find_status n rows
        else none)
unfolding prune_rows has_status
find_status-prune_rows delete_fails n sts [] rows = ground arith
find_status-prune_rows delete_fails n sts (r ∷ listed) rows = ground (
  arith,
  eq_iff r.stack_name n,
  find_status-prune_rows delete_fails n sts listed rows,
  find_status-prune_rows delete_fails n sts listed (without_status r.stack_name rows),
  find_status-without n r.stack_name rows,
)

find_status-absent :
    (n : String) (rows : List StackStatus) → has_status n rows ≡ false → find_status n rows ≡ none
unfolding has_status find_status
find_status-absent n [] h = refl
find_status-absent n (r ∷ rows) h = ground (arith, find_status-absent n rows)

-- After a snapshot of stacks with distinct names, the row of each of them is the one derived in
-- this pass from the stack and its live services, and no other name has a row; but a name whose
-- write or delete fails has the row that it had.
pub find_status-snapshot_health :
    (now : ℕ) (services : String → Result (List ServiceSummary))
    (set_fails delete_fails : String → Bool) (sts : List Stack) (rows : List StackStatus)
    (n : String)
    → DistinctStacks sts
    → find_status n (snapshot_health now services set_fails delete_fails sts rows)
      ≡ row_after now services set_fails delete_fails n (find_stack n sts) (find_status n rows)
unfolding snapshot_health
find_status-snapshot_health now services set_fails delete_fails sts rows n d =
    let after = write_rows now services set_fails sts rows in
    ground (
      arith,
      find_status-prune_rows delete_fails n sts after after,
      find_status-write_rows now services set_fails n sts rows d,
      find_stack-none n sts,
      find_stack-some n sts,
      find_status-absent n after,
    )
