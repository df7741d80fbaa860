-- ===== src/Reconcile/SyncErrors/Repeats.antt =====
-- A failure that was reported is not reported again until it changes.
use poor_man_cluster.Common.{
  String, eq_iff, eq_refl, ◌≡◌, refl, ◌∙◌, ◌/◌, true, Option, some, List, [], ◌∷◌, arith, lookup,
  All,
}
use poor_man_cluster.Reconcile.SyncErrors.{
  Db, report, Failure, Repeat, changed, handle_sync_error, second, or_kept,
}
use poor_man_cluster.Store.Stacks.{record_stack_error}
use poor_man_cluster.Store.StackStatus.{
  StackStatus, error, set_stack_status, find_status, find_status-set,
}

-- The calls, one after another.
pub handle_all : List Failure → Repeat → Option Db → Repeat × Option Db
unfolding handle_sync_error
handle_all [] r db = (r, db)
handle_all (f ∷ fs) r db = let (action, r', db') = handle_sync_error f r db in handle_all fs r' db'

-- The failure is one of the stack, with the message.
abbrev pub IsRepeat : String → String → Failure → Type 0
IsRepeat name message f = (f.stack_name ≡ name) × (f.message ≡ message)

repeat_step :
    (name message : String) (f : Failure) (r : Repeat) (db : Option Db)
    → lookup name r.last ≡ some message
    → IsRepeat name message f
    → (lookup name (handle_sync_error f r db).1.last ≡ some message)
      × ((handle_sync_error f r db).2 ≡ db)
unfolding handle_sync_error
repeat_step name message f r db h k =
    ground (arith, eq_iff message f.message, eq_refl message, eq_iff f.stack_name name)

-- Once the loop has reported a message for a stack, any calls of `handleSyncError` for failures of
-- the stack with that message change nothing in the database, however many there are, at whatever
-- time and on whatever revision; what the failing syncs themselves write is not part of this.
pub repeats_unrecorded :
    (name message : String) (fs : List Failure) (r : Repeat) (db : Option Db)
    → lookup name r.last ≡ some message
    → All (IsRepeat name message) fs
    → (handle_all fs r db).1 ≡ db
unfolding handle_all
repeats_unrecorded name message [] r db h all = refl
repeats_unrecorded name message (f ∷ fs) r db h (same, all) =
    let (kept, unchanged) = repeat_step name message f r db h same in
    repeats_unrecorded name message fs _ _ kept all ∙ unchanged

-- A failure that is new for its stack, or whose message has changed, is reported: the row of the
-- stack in `stack_status` reads `error`, and the message is remembered.
pub changed_reported :
    (f : Failure) (r : Repeat) (db : Db)
    → changed f.stack_name f.message r.last ≡ true
    → let (action, r', after) = handle_sync_error f r (some db) in
      (action ≡ report)
      × (lookup f.stack_name r'.last ≡ some f.message)
      × ((db' : Db) × (after ≡ some db')
          × ((row : StackStatus) × (find_status f.stack_name db'.statuses ≡ some row)
              × (row.status ≡ error)))
unfolding handle_sync_error
changed_reported f r db h =
    let row : StackStatus = record {
      stack_name = f.stack_name;
      status = error;
      services = [];
      updated_at = f.now / second;
    } in
    let failed = record_stack_error f.stack_name f.revision f.message (f.now / second) db.tables in
    (
      ground arith,
      rw h (rw eq_refl),
      (
        record { tables = or_kept db.tables failed; statuses = set_stack_status row db.statuses },
        rw h,
        (row, find_status-set f.stack_name row db.statuses ∙ rw eq_refl, refl),
      ),
    )
