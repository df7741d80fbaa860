-- ===== src/Stacks/Move/Acts.antt =====
-- What a move reads and changes, and its steps: internal/stacks/move.go, with the rows of
-- internal/store/backups.go.
use poor_man_cluster.Common.{
  ℕ, suc, String, ◌==◌, Bool, true, false, not, ◌&&◌, ◌||◌, Option, none, some, List, [], ◌∷◌,
  if◌then◌else◌, ltb, eqb,
}
use poor_man_cluster.Common.Errors.{Error, plain, wrapped, Result, ok, err}
use poor_man_cluster.Manifest.Ir.{Ir}
use poor_man_cluster.Store.Stacks.{Tables}
use poor_man_cluster.Store.Failovers.{StackFailover}
use poor_man_cluster.Stacks.Placement.Wiring.{Db}
use poor_man_cluster.Stacks.Deploy.{Payload, Deployed, State, deploy}
use poor_man_cluster.Stacks.Deploy
use poor_man_cluster.Stacks.Transit.{Object, Backup, Entry}
use Prim.Native.String

-- `runtime.Node`, by the fields that a move reads.
pub record Node : Type 0 where
  pub id : String
  pub hostname : String
  pub status : String
  pub availability : String
  pub is_leader : Bool
  pub address : String

-- A restore of the stack's data: from an object by a task on a node, from an archive
-- of this host by a task on a node, or from an archive into this host's volumes.
pub data Restored : Type 0 where
  pulled : String → String → Restored
  carried : String → String → Restored
  unpacked : String → Restored

-- `restored` are the restores that have passed, and `broken` those that were begun and have failed: what
-- these have written stays, and a task on a node may yet go on.
pub record MoveState : Type 0 where
  pub db : Db
  pub tables : Tables
  pub markers : List StackFailover
  pub backups : List Backup
  pub restored : List Restored
  pub broken : List Restored

-- `clear_fails` is the failure of the database when the marker is cleared. `nodes` is `none` without a Docker client, and `trigger` without a backup trigger; `pull`, `carry`
-- and `unpack` are the transits, from a key, from a path and the leader's address, and from a path.
pub record Outside (Body : Type 0) : Type 0 where
  pub now : ℕ
  pub list_fails : Option Error
  pub build : String → Result Ir
  pub deploy : Deploy.Outside Body Db
  pub local_host : String
  pub nodes : Option (Result (List Node))
  pub configured : Bool
  pub create_fails : Option Error
  pub trigger : Option (List String × Option Error)
  pub stat : String → Option ℕ
  pub entries : Result (List Entry)
  pub backup_dir : String
  pub objects : Result (List Object)
  pub rows_fail : Option Error
  pub fetch : String → Option Error
  pub pull : String → String → Option Error
  pub carry : String → String → String → Option Error
  pub unpack : String → Option Error
  pub clear_fails : Option Error

-- A step of a move: an answer or an error, and the state that is left.
abbrev pub Act : Type 0 → Type 0
Act A = MoveState → Result A × MoveState

abbrev pub bind : {A B : Type 0} → Result A × MoveState → (A → Act B) → Result B × MoveState
bind (err e, s) f = (err e, s)
bind (ok a, s) f = f a s

infixl 5 ◌>>=◌ ◌>>◌
abbrev pub ◌>>=◌ : {A B : Type 0} → Act A → (A → Act B) → Act B
◌>>=◌ m f s = bind (m s) f

abbrev pub ◌>>◌ : {B : Type 0} → Act (Unit {0}) → Act B → Act B
m >> k = m >>= λ _. k

abbrev pub lift : {A : Type 0} → Result A → Act A
lift r s = (r, s)

-- `if refused { return err }`
abbrev pub unless : Bool → String → Act (Unit {0})
unless true message s = (err (plain message), s)
unless false message s = (ok tt, s)

abbrev pub passes : String → Option Error → Result (Unit {0})
passes message none = ok tt
passes message (some e) = err (wrapped message e)

abbrev pub join : List String → String
join [] = ""
join (x ∷ []) = x
join (x ∷ y ∷ xs) = String.◌++◌ x (String.◌++◌ "," (join (y ∷ xs)))

abbrev above : ℕ → List Backup → ℕ
above n [] = suc n
above n (b ∷ bs) = above (if ltb n b.id then b.id else n) bs

-- `CreateBackup`: the id is above all others, and the newest row stands first.
unfoldable pub create_backup : ℕ → List Backup → ℕ × List Backup
create_backup now rows = (
  above 0 rows,
  (record { id = above 0 rows; status = "pending"; archive_paths = ""; started_at = now }) ∷ rows,
)

-- `FinishBackup`
unfoldable pub finish_backup : ℕ → String → String → List Backup → List Backup
finish_backup id status paths [] = []
finish_backup id status paths (b ∷ bs) =
    (if eqb b.id id then record b { status = status; archive_paths = paths } else b)
    ∷ finish_backup id status paths bs

abbrev is_ready : Node → Bool
is_ready n = n.status == "ready" && n.availability == "active"

-- The loop over the swarm's nodes: whether the target is among them, and the leader's address.
unfoldable pub check_nodes : String → Bool → String → List Node → Result (Bool × String)
check_nodes target found leader [] = ok (found, leader)
check_nodes target found leader (n ∷ ns) =
    let rest =
      check_nodes target (found || n.hostname == target) (if n.is_leader then n.address else leader)
        ns in
    if n.hostname == target && not (is_ready n)
    then err (plain "move: target node is not ready/active")
    else rest

abbrev pub if_found : Result (Bool × String) → Result String
if_found (err e) = err e
if_found (ok (false, leader)) = err (plain "move: target node not found in swarm")
if_found (ok (true, leader)) = ok leader

-- The node id of the host that holds the data; "" if it is not in the swarm.
unfoldable pub node_id_of : String → List Node → String
node_id_of host [] = ""
node_id_of host (n ∷ ns) = if n.hostname == host then n.id else node_id_of host ns

abbrev pub is_only : String → List String → Bool
is_only target (p ∷ []) = p == target
is_only target pins = false

abbrev pub first_pin : List String → String
first_pin [] = ""
first_pin (p ∷ pins) = p
