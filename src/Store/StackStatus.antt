-- ===== src/Store/StackStatus.antt =====
-- internal/store/stack_status.go: the table `stack_status`, which the badges read.
use poor_man_cluster.Common.{
  ℕ, String, ◌==◌, eq_iff, ◌≡◌, refl, Bool, false, not, ◌&&◌, ◌||◌, Option, none, some, List, [],
  ◌∷◌, Map, if◌then◌else◌, arith,
}
use poor_man_cluster.Common.Errors.{Error, plain}

-- The values of the column `status`.
pub data Status : Type 0 where
  healthy in_progress degraded error unknown : Status

-- `StackStatus`
pub record StackStatus : Type 0 where
  pub stack_name : String
  pub status : Status
  pub services : Map Status
  pub updated_at : ℕ

unfoldable pub has_status : String → List StackStatus → Bool
has_status name [] = false
has_status name (r ∷ rs) = r.stack_name == name || has_status name rs

-- `SELECT … WHERE stack_name = ?`
unfoldable pub find_status : String → List StackStatus → Option StackStatus
find_status name [] = none
find_status name (r ∷ rs) = if r.stack_name == name then some r else find_status name rs

-- `SetStackStatus`: `INSERT … ON CONFLICT(stack_name) DO UPDATE`.
unfoldable pub set_stack_status : StackStatus → List StackStatus → List StackStatus
set_stack_status row [] = row ∷ []
set_stack_status row (r ∷ rs) =
    let later = r ∷ set_stack_status row rs in
    if r.stack_name == row.stack_name then row ∷ rs else later

-- `DELETE FROM stack_status WHERE stack_name = ?`
pub without_status : String → List StackStatus → List StackStatus
without_status name [] = []
without_status name (r ∷ rs) =
    let rest = without_status name rs in if r.stack_name == name then rest else r ∷ rest

-- `DeleteStackStatus`
unfoldable pub delete_stack_status : String → List StackStatus → Option Error × List StackStatus
unfolding without_status has_status
delete_stack_status name rows =
    (if has_status name rows then none else some (plain "not found"), without_status name rows)

pub has_status-set :
    (n : String) (row : StackStatus) (rs : List StackStatus)
    → has_status n (set_stack_status row rs) ≡ (row.stack_name == n || has_status n rs)
unfolding has_status set_stack_status
has_status-set n row [] = refl
has_status-set n row (r ∷ rs) = ground (
  arith,
  eq_iff r.stack_name row.stack_name,
  eq_iff r.stack_name n,
  eq_iff row.stack_name n,
  has_status-set n row rs,
)

pub find_status-set :
    (n : String) (row : StackStatus) (rs : List StackStatus)
    → find_status n (set_stack_status row rs)
      ≡ (if row.stack_name == n then some row else find_status n rs)
unfolding find_status set_stack_status
find_status-set n row [] = refl
find_status-set n row (r ∷ rs) = ground (
  arith,
  eq_iff r.stack_name row.stack_name,
  eq_iff r.stack_name n,
  eq_iff row.stack_name n,
  find_status-set n row rs,
)

pub has_status-without :
    (n name : String) (rs : List StackStatus)
    → has_status n (without_status name rs) ≡ (not (name == n) && has_status n rs)
unfolding has_status without_status
has_status-without n name [] = ground arith
has_status-without n name (r ∷ rs) = ground (
  arith,
  eq_iff r.stack_name name,
  eq_iff r.stack_name n,
  eq_iff name n,
  has_status-without n name rs,
)

pub find_status-without :
    (n name : String) (rs : List StackStatus)
    → find_status n (without_status name rs) ≡ (if name == n then none else find_status n rs)
unfolding find_status without_status
find_status-without n name [] = ground arith
find_status-without n name (r ∷ rs) = ground (
  arith,
  eq_iff r.stack_name name,
  eq_iff r.stack_name n,
  eq_iff name n,
  find_status-without n name rs,
)
