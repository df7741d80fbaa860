-- ===== src/Store/Stacks.antt =====
-- internal/store/stacks.go: the tables `stacks` and `stack_revisions`. A write gives the new tables;
-- an error inside `RecordDeploy`, which runs in a transaction, gives none. Faults of the database
-- itself are left out here, and `now` is `time.Now().Unix()`.
mod Schema
pub mod Invariant
pub mod ErrorHistory
pub mod Deploys
pub mod Deletes
pub mod FreeRevision
pub mod Updates
pub mod Notes
pub mod Stamps
pub mod Contract
pub use Schema.{
  StackErrorEntry, ErrorColumn, blank, history, malformed, Stack, StackRevision, OwnedRow, Tables,
}
use poor_man_cluster.Common.{
  ℕ, zero, suc, ◌+◌, String, ◌==◌, Bool, true, false, not, ◌&&◌, ◌||◌, Option, none, some, List, [],
  ◌∷◌, map, if◌then◌else◌, eqb, ltb, length, take,
}
use poor_man_cluster.Common.Errors.{Error, plain, Result, ok, err, wrapped}

abbrev pub err_stack_not_found : Error
err_stack_not_found = plain "stack not found"

abbrev pub err_revision_not_found : Error
err_revision_not_found = plain "revision not found"

abbrev pub stack_error_history_limit : ℕ
stack_error_history_limit = 20

-- `ParseStackErrors`
unfoldable pub parse_stack_errors : ErrorColumn → List StackErrorEntry
parse_stack_errors blank = []
parse_stack_errors (history entries) = entries
parse_stack_errors (malformed text) = []

unfoldable pub has_stack : String → List Stack → Bool
has_stack name [] = false
has_stack name (s ∷ ss) = s.name == name || has_stack name ss

-- `SELECT … FROM stacks WHERE name = ?`
unfoldable pub find_stack : String → List Stack → Option Stack
find_stack name [] = none
find_stack name (s ∷ ss) = if s.name == name then some s else find_stack name ss

abbrev pub is_revision : String → ℕ → StackRevision → Bool
is_revision name revision r = r.stack_name == name && eqb r.revision revision

unfoldable pub has_revision : String → ℕ → List StackRevision → Bool
has_revision name revision [] = false
has_revision name revision (r ∷ rs) = is_revision name revision r || has_revision name revision rs

-- `SELECT … FROM stack_revisions WHERE stack_name = ? AND revision = ?`
unfoldable pub find_revision : String → ℕ → List StackRevision → Option StackRevision
find_revision name revision [] = none
find_revision name revision (r ∷ rs) =
    if is_revision name revision r then some r else find_revision name revision rs

-- `UPDATE stacks SET … WHERE name = ?`
unfoldable pub update_stack : String → (Stack → Stack) → List Stack → List Stack
update_stack name f [] = []
update_stack name f (s ∷ ss) = (if s.name == name then f s else s) ∷ update_stack name f ss

abbrev nullable : String → Option String
nullable text = if text == "" then none else some text

-- The row that `RecordDeploy` inserts for a stack that it does not find.
abbrev pub new_stack : StackRevision → String → ℕ → Stack
new_stack rev repo_url now = record {
  name = rev.stack_name;
  current_revision = rev.revision;
  repo_url = nullable repo_url;
  source_file = rev.source_file;
  last_error = blank;
  created_at = now;
  updated_at = now;
}

-- `COALESCE(NULLIF(new, ''), old)`
abbrev pub moved_to : StackRevision → String → ℕ → Stack → Stack
moved_to rev repo_url now s = record s {
  current_revision = rev.revision;
  updated_at = now;
  repo_url = if repo_url == "" then s.repo_url else some repo_url;
  source_file = if rev.source_file == "" then s.source_file else rev.source_file;
}

-- What an `INSERT` does: it may violate the primary key, or a foreign key.
pub data Insert : Type 0 where
  inserted : Tables → Insert
  unique foreign_key : Insert

-- `INSERT INTO stack_revisions`
insert_revision : StackRevision → ℕ → Tables → Insert
unfolding has_stack has_revision
insert_revision rev now t =
    if has_revision rev.stack_name rev.revision t.revisions
    then unique
    else if not (has_stack rev.stack_name t.stacks)
    then foreign_key
    else inserted (record t { revisions = record rev { created_at = now } ∷ t.revisions })

-- `INSERT INTO stacks`
insert_stack : StackRevision → String → ℕ → Tables → Insert
unfolding has_stack
insert_stack rev repo_url now t =
    if has_stack rev.stack_name t.stacks
    then unique
    else inserted (record t { stacks = new_stack rev repo_url now ∷ t.stacks })

abbrev committed : String → Insert → Result Tables
committed message (inserted t) = ok t
committed message unique = err (plain message)
committed message foreign_key = err (plain message)

abbrev behind_parent : StackRevision → ℕ → Insert → Result Tables
behind_parent rev now (inserted t) =
    committed "insert revision (after parent)" (insert_revision rev now t)
behind_parent rev now unique = err (plain "insert stack")
behind_parent rev now foreign_key = err (plain "insert stack")

-- The `UPDATE` behind a successful insert, and the insert for the case that it hits no row.
abbrev point_to : StackRevision → String → ℕ → Tables → Result Tables
point_to rev repo_url now t =
    if has_stack rev.stack_name t.stacks
    then ok (record t { stacks = update_stack rev.stack_name (moved_to rev repo_url now) t.stacks })
    else committed "re-insert stack" (insert_stack rev repo_url now t)

abbrev recorded : StackRevision → String → ℕ → Tables → Insert → Result Tables
recorded rev repo_url now t (inserted t') = point_to rev repo_url now t'
recorded rev repo_url now t unique = err (plain "insert revision")
recorded rev repo_url now t foreign_key = behind_parent rev now (insert_stack rev repo_url now t)

-- `RecordDeploy`
unfoldable pub record_deploy : StackRevision → String → ℕ → Tables → Result Tables
unfolding insert_revision insert_stack update_stack
record_deploy rev repo_url now t = recorded rev repo_url now t (insert_revision rev now t)

unfoldable pub stamp : String → ℕ → String → List StackRevision → List StackRevision
stamp name revision hash [] = []
stamp name revision hash (r ∷ rs) =
    (if is_revision name revision r then record r { rendered_hash = hash } else r)
    ∷ stamp name revision hash rs

-- `SetRevisionRenderedHash`
unfoldable pub set_revision_rendered_hash : String → ℕ → String → Tables → Result Tables
unfolding stamp has_revision
set_revision_rendered_hash name revision hash t =
    if has_revision name revision t.revisions
    then ok (record t { revisions = stamp name revision hash t.revisions })
    else err err_revision_not_found

abbrev or_not_found {ℓ} : {A : Type ℓ} → Error → Option A → Result A
or_not_found e none = err e
or_not_found e (some a) = ok a

-- `Store.Stack`
unfoldable pub stack : String → Tables → Result Stack
unfolding find_stack
stack name t = or_not_found err_stack_not_found (find_stack name t.stacks)

-- `Store.Revision`
unfoldable pub revision : String → ℕ → Tables → Result StackRevision
unfolding find_revision
revision name number t = or_not_found err_revision_not_found (find_revision name number t.revisions)

-- `SetStackLastError`
unfoldable pub set_stack_last_error : String → ErrorColumn → ℕ → Tables → Result Tables
unfolding update_stack has_stack
set_stack_last_error name last_error now t =
    if has_stack name t.stacks
    then ok (record t {
      stacks =
          update_stack name (λ s. record s { last_error = last_error; updated_at = now }) t.stacks;
    })
    else err err_stack_not_found

abbrev prepend_error : ℕ → String → ℕ → String → Tables → Result Stack → Result Tables
prepend_error number message now name t (err e) = err e
prepend_error number message now name t (ok s) =
    let entry : StackErrorEntry = record { revision = number; error = message; created_at = now } in
    set_stack_last_error name
      (history (take stack_error_history_limit (entry ∷ parse_stack_errors s.last_error))) now t

-- `RecordStackError`, less the time that it returns.
unfoldable pub record_stack_error : String → ℕ → String → ℕ → Tables → Result Tables
unfolding parse_stack_errors stack set_stack_last_error
record_stack_error name number message now t =
    if message == "" then ok t else prepend_error number message now name t (stack name t)

abbrev listed : ℕ → Result Stack → Result (List StackErrorEntry)
listed limit (err e) = err e
listed limit (ok s) =
    let entries = parse_stack_errors s.last_error in
    ok (if ltb 0 limit && ltb limit (length entries) then take limit entries else entries)

-- `ListStackErrors`; a limit of 0 stands for every limit that is not positive.
unfoldable pub list_stack_errors : String → ℕ → Tables → Result (List StackErrorEntry)
unfolding parse_stack_errors stack
list_stack_errors name limit t = listed limit (stack name t)

-- `DELETE FROM … WHERE stack = ?`
pub without_owner : String → List OwnedRow → List OwnedRow
without_owner name [] = []
without_owner name (r ∷ rs) =
    let rest = without_owner name rs in if r.stack == name then rest else r ∷ rest

pub without_stack : String → List Stack → List Stack
without_stack name [] = []
without_stack name (s ∷ ss) =
    let rest = without_stack name ss in if s.name == name then rest else s ∷ rest

pub without_revisions : String → List StackRevision → List StackRevision
without_revisions name [] = []
without_revisions name (r ∷ rs) =
    let rest = without_revisions name rs in if r.stack_name == name then rest else r ∷ rest

-- `DeleteStack`: three statements outside a transaction, so the first two stand when the last finds
-- no row; the revisions go by the cascade.
unfoldable pub delete_stack : String → Tables → Option Error × Tables
unfolding has_stack without_owner without_stack without_revisions
delete_stack name t = (
  if has_stack name t.stacks then none else some err_stack_not_found,
  record {
    stacks = without_stack name t.stacks;
    revisions = without_revisions name t.revisions;
    configs = without_owner name t.configs;
    secrets = without_owner name t.secrets;
  },
)

-- Which of the three statements the database refuses, if it refuses one; those before it stand.
pub data DeleteFault : Type 0 where
  configs_refused secrets_refused record_refused : Error → DeleteFault

-- `DeleteStack` with its error paths.
unfoldable pub delete_stack_with : Option DeleteFault → String → Tables → Option Error × Tables
unfolding delete_stack
delete_stack_with none name t = delete_stack name t
delete_stack_with (some (configs_refused e)) name t = (some (wrapped "delete stack configs" e), t)
delete_stack_with (some (secrets_refused e)) name t =
    (some (wrapped "delete stack secrets" e), record t { configs = without_owner name t.configs })
delete_stack_with (some (record_refused e)) name t = (
  some (wrapped "delete stack" e),
  record t { configs = without_owner name t.configs; secrets = without_owner name t.secrets },
)

-- The loop of `NextFreeRevision`, by the attempts left.
unfoldable pub free_from : ℕ → String → ℕ → List StackRevision → Result ℕ
free_from zero name candidate rs = err (plain "could not find a free revision")
free_from (suc left) name candidate rs =
    let later = free_from left name (candidate + 1) rs in
    if has_revision name candidate rs then later else ok candidate

-- `NextFreeRevision`
unfoldable pub next_free_revision : String → ℕ → Tables → Result ℕ
next_free_revision name candidate t = free_from 10000 name candidate t.revisions
