-- ===== src/Reconcile/Pass.antt =====
-- One converge pass: `RunOnce`, `runPass`. The platform update, the Docker client, the sync of a stack
-- and the resolving of its pins are parameters, by what they answer; a move that a failover starts
-- runs on its own. The clock stands still during a pass, and the gauges of
-- `recordStorageNodeHealth` are left out. The stacks are listed in the order of the table, which stands
-- for the order by name.
pub mod Stacks
pub mod Badges
use poor_man_cluster.Common.{
  ℕ, suc, String, ◌==◌, Bool, true, false, not, ◌&&◌, ◌||◌, Option, none, some, List, [], ◌∷◌,
  if◌then◌else◌, Map,
}
use poor_man_cluster.Common.Errors.{Error, wrapped, Result, ok, err}
use poor_man_cluster.Store.Stacks.{Stack}
use poor_man_cluster.Reconcile.Status.{ServiceSummary}
use poor_man_cluster.Reconcile.SyncErrors.{
  Db, Repeat, Failure, Action, handle_sync_error, log_storage_paused,
}
use poor_man_cluster.Reconcile.Failover.{
  Node, node_health, storage_paused, Attempt, try_storage_failover,
}
use poor_man_cluster.Reconcile.Snapshot.{write_rows, snapshot_health}

-- The text of an error: `err.Error()`.
abbrev pub Text : Type 0
Text = Error → String

-- What a pass reads from outside: `update` is `none` if no update is wired, and what fails of the
-- platform update, of the two reads of the stacks, of the read of the statuses, and of the
-- snapshot's writes and deletes of a status by the stack's name.
pub record Outside : Type 0 where
  pub now : ℕ
  pub text : Text
  pub update : Option (Option Error)
  pub list_fails : Option Error
  pub relist_fails : Option Error
  pub statuses_fail : Option Error
  pub status_write_fails : String → Bool
  pub status_delete_fails : String → Bool
  pub nodes : Option (Result (List Node))
  pub pins : String → Result (List String)
  pub sync : String → Db → Option Error × Db
  pub services : String → Result (List ServiceSummary)
  pub failover_enabled : Bool
  pub storage_nodes : String

-- What the reconciler keeps between passes, and the database.
pub record World : Type 0 where
  pub db : Db
  pub sync_errors : Repeat
  pub pauses : Repeat
  pub last_failover : Map ℕ

-- What a pass did with a stack.
pub data Did : Type 0 where
  paused : String → String → Option String → Did
  synced : String → Option Error → Did

abbrev pub or_db : Db → Option Db → Db
or_db db none = db
or_db db (some db') = db'

module _ (o : Outside) where
  abbrev attempt : String → String → Map Bool → Attempt
  attempt name node health = record {
    stack_name = name;
    down_node = node;
    health = health;
    can_move = true;
    has_store = true;
    enabled = o.failover_enabled;
    storage_nodes = o.storage_nodes;
    now = o.now;
  }

  -- A stack whose storage node is down.
  unfoldable pub pause : Map Bool → Stack → String → World → Did × World
  unfolding log_storage_paused try_storage_failover
  pause health st node w =
      let (move, last) = try_storage_failover (attempt st.name node health) w.last_failover in
      (
        paused st.name node move,
        record w {
          pauses = (log_storage_paused st.name node o.now w.pauses).1;
          last_failover = last;
        },
      )

  abbrev pub after_sync : Stack → Option Error → Db → World → World
  after_sync st none db w = record w { db = db }
  after_sync st (some e) db w =
      let f : Failure = record {
        stack_name = st.name;
        revision = st.current_revision;
        message = o.text e;
        now = o.now;
      } in
      let (action, repeat, db') = handle_sync_error f w.sync_errors (some db) in
      record w { db = or_db db db'; sync_errors = repeat }

  -- Any other stack.
  unfoldable pub sync_stack : Stack → World → Did × World
  unfolding handle_sync_error
  sync_stack st w =
      let (failure, db) = o.sync st.name w.db in
      (synced st.name failure, after_sync st failure db w)

  abbrev pub stack_pass : Map Bool → Stack → Option String → World → Did × World
  stack_pass health st none w = sync_stack st w
  stack_pass health st (some node) w = pause health st node w

  -- The loop over the stacks.
  unfoldable pub converge : Map Bool → List Stack → World → List Did × World
  unfolding storage_paused pause sync_stack
  converge health [] w = ([], w)
  converge health (st ∷ sts) w =
      let (did, w') = stack_pass health st (storage_paused true health (o.pins st.name)) w in
      let (rest, w'') = converge health sts w' in (did ∷ rest, w'')

  abbrev or_first : Option Error → Option Error → Option Error
  or_first none later = later
  or_first (some e) later = some e

  abbrev with_statuses : World → (Db → Db) → World
  with_statuses w f = record w { db = f w.db }

  -- `snapshotHealth`, with its reads: the error, and what it leaves.
  unfoldable pub snapshot : World → Option Error × World
  unfolding write_rows snapshot_health
  snapshot w = elim o.relist_fails [
    | some e ↦ (some (wrapped "list stacks for health snapshot" e), w)
    | none ↦ elim o.statuses_fail [
      | some e ↦ (
        some e,
        with_statuses w (λ db. record db {
          statuses = write_rows o.now o.services o.status_write_fails db.tables.stacks db.statuses;
        }),
      )
      | none ↦ (
        none,
        with_statuses w (λ db. record db {
          statuses =
              snapshot_health o.now o.services o.status_write_fails o.status_delete_fails
                db.tables.stacks db.statuses;
        }),
      )
    ]
  ]

  abbrev pub platform_error : Option Error
  platform_error = elim o.update [ none ↦ none | some failure ↦ failure ]

  -- `runPass`: its error, what was done with each stack, and what it leaves.
  unfoldable pub run_pass : World → Option Error × List Did × World
  unfolding node_health converge snapshot
  run_pass w = elim o.list_fails [
    | some e ↦ (or_first platform_error (some (wrapped "list stacks for reconcile" e)), [], w)
    | none ↦
        let (did, w') = converge (node_health o.nodes) w.db.tables.stacks w in
        let (failure, w'') = snapshot w' in (or_first platform_error failure, did, w'')
  ]

  -- `RunOnce`: nothing while another pass is in flight.
  unfoldable pub run_once : Bool → World → Option Error × List Did × World
  unfolding run_pass
  run_once in_flight w = if in_flight then (none, [], w) else run_pass w
