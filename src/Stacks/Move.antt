-- ===== src/Stacks/Move.antt =====
-- internal/stacks/move.go: `MoveWithOptions` and `Ack`. A stack's data is brought to another node, the
-- stack is pinned there, deployed again, and its failover marker is cleared.
-- The swarm, the object store, the backup agent, the archive directory and the mover tasks are
-- parameters, by what they answer; the deploy is that of Stacks.Deploy over the same settings.
pub mod Acts
pub mod Brought
pub mod Ordered
pub mod Pinned
use poor_man_cluster.Stacks.Move.Acts.{
  passes, join, if_found, Act, MoveState, Node, Outside, Restored, bind, check_nodes, create_backup,
  finish_backup, first_pin, is_only, lift, node_id_of, unless, ◌>>=◌, ◌>>◌, pulled, carried,
  unpacked,
}
use poor_man_cluster.Common.{
  ℕ, suc, String, ◌==◌, Bool, true, false, not, ◌&&◌, ◌||◌, Option, none, some, List, [], ◌∷◌,
  if◌then◌else◌, ltb, eqb, take,
}
use poor_man_cluster.Common.Errors.{Error, plain, wrapped, Result, ok, err, wrap}
use poor_man_cluster.Manifest.Ir.{Ir}
use poor_man_cluster.Store.Settings.{set_setting}
use poor_man_cluster.Store.Stacks.{StackRevision, Tables}
use poor_man_cluster.Store.Failovers.{StackFailover, clear_stack_failover, ack_stack_failover}
use poor_man_cluster.Stacks.Sync.{latest_revision}
use poor_man_cluster.Stacks.Placement.{PinResolver, storage_pins, is_empty}
use poor_man_cluster.Stacks.Placement.Wiring.{Db, stack_pin_key, write_pin}
use poor_man_cluster.Stacks.Deploy.{Payload, Deployed, State, deploy}
use poor_man_cluster.Stacks.Deploy
use poor_man_cluster.Stacks.Transit.{
  Object, Backup, Entry, newest_archive_object, fetch_newest_archive, resolve_archive_path,
}
use Prim.Native.String

module _ {Body : Type 0} (o : Outside Body) (stack : String) (target : String) where
  -- `ListRevisions` with a limit of 1.
  abbrev listed : Tables → Result (Option StackRevision)
  listed t = elim o.list_fails [ some e ↦ err e | none ↦ ok (latest_revision stack t.revisions) ]

  abbrev or_missing : Result (Option StackRevision) → Result StackRevision
  or_missing (err e) = err (wrapped "move: list revisions" e)
  or_missing (ok none) = err (plain "move: stack not found")
  or_missing (ok (some r)) = ok r

  abbrev latest : Act StackRevision
  latest s = (or_missing (listed s.tables), s)

  abbrev pins_built : Db → Result Ir → Result (List String)
  pins_built db (err e) = err (wrapped "re-translate" e)
  pins_built db (ok ir) = storage_pins o.deploy.pins db stack ir

  abbrev pins_of : Db → Result (Option StackRevision) → Result (List String)
  pins_of db (err e) = err e
  pins_of db (ok none) = ok []
  pins_of db (ok (some r)) = pins_built db (o.build r.source_yaml)

  abbrev if_wired : Option (PinResolver Db) → Db → Tables → Result (List String)
  if_wired none db t = ok []
  if_wired (some p) db t = pins_of db (listed t)

  -- `StoragePinsForStack`
  unfoldable pub storage_pins_for_stack : Db → Tables → Result (List String)
  unfolding storage_pins latest_revision
  storage_pins_for_stack db t = if_wired o.deploy.pins db t

  abbrev pins : Act (List String)
  pins s = (wrap "move: resolve storage pins" (storage_pins_for_stack s.db s.tables), s)

  -- The validation of the target; the answer is the leader's address.
  unfoldable pub leader_of : Option (Result (List Node)) → Result String
  unfolding check_nodes
  leader_of none = ok ""
  leader_of (some (err e)) = err (wrapped "move: list swarm nodes" e)
  leader_of (some (ok ns)) = if_found (check_nodes target false "" ns)

  abbrev found_path : String → Result String
  found_path path =
      if path == "" then err (plain "move: backup ran but produced no archive") else ok path

  abbrev triggered : ℕ → MoveState → Option (List String × Option Error) → Result String × MoveState
  triggered id s none = (
    err (plain "move: no backup trigger configured"),
    record s { backups = finish_backup id "failed" "" s.backups },
  )
  triggered id s (some (paths, some e)) = (
    err (wrapped "move: backup trigger" e),
    record s { backups = finish_backup id "failed" (join paths) s.backups },
  )
  triggered id s (some (paths, none)) = (
    found_path (resolve_archive_path o.stat o.entries o.backup_dir o.now paths),
    record s { backups = finish_backup id "succeeded" (join paths) s.backups },
  )

  -- `runMoveBackup`
  unfoldable pub run_move_backup : Act String
  unfolding create_backup finish_backup resolve_archive_path
  run_move_backup s = elim o.create_fails [
    | some e ↦ (err (wrapped "move: create backup record" e), s)
    | none ↦
        let (id, rows) = create_backup o.now s.backups in
        triggered id (record s { backups = rows }) o.trigger
  ]

  abbrev backup_first : Bool → Act (Unit {0})
  backup_first true s = (ok tt, s)
  backup_first false s = bind (run_move_backup s) (λ path s'. (ok tt, s'))

  abbrev source_in : Result (List Node) → String → Result String
  source_in (err e) host = err e
  source_in (ok ns) host =
      if node_id_of host ns == ""
      then err (plain "move: cannot resolve the node id of the node holding the stack's data")
      else ok (node_id_of host ns)

  -- The node id whose archives are searched.
  unfoldable pub source_node : Option (Result (List Node)) → String → Result String
  unfolding node_id_of
  source_node none host = ok ""
  source_node (some ns) host = source_in ns host

  -- What a transit leaves that has passed, or that has failed underway.
  abbrev logged : Restored → String → Option Error → Act (Unit {0})
  logged x message (some e) s = (err (wrapped message e), record s { broken = x ∷ s.broken })
  logged x message none s = (ok tt, record s { restored = x ∷ s.restored })

  abbrev pull_from : String → Act (Unit {0})
  pull_from key = logged (pulled key target) "move: store transit" (o.pull key target)

  -- The transit by the object store.
  unfoldable pub by_store : Bool → List String → Act (Unit {0})
  unfolding run_move_backup source_node newest_archive_object
  by_store from_s3 ps = do
    backup_first from_s3
    source ← lift (source_node o.nodes (first_pin ps))
    key ← lift (newest_archive_object o.configured o.objects source)
    pull_from key

  abbrev backup_rows : MoveState → Result (List Backup)
  backup_rows s = elim o.rows_fail [ some e ↦ err e | none ↦ ok (take 100 s.backups) ]

  abbrev archive : Bool → Act String
  archive true s = (fetch_newest_archive o.configured (backup_rows s) o.fetch o.backup_dir, s)
  archive false s = run_move_backup s

  -- `moveViaMover` needs the leader's address.
  abbrev carry_from : String → String → Act (Unit {0})
  carry_from leader path s =
      if leader == ""
      then (err (wrapped "move: mover transit" (plain "no swarm leader address")), s)
      else logged (carried path target) "move: mover transit" (o.carry path target leader) s

  abbrev deliver : Bool → String → String → Act (Unit {0})
  deliver true leader path = carry_from leader path
  deliver false leader path = logged (unpacked path) "move: restore subtree" (o.unpack path)

  -- The transit by an archive on this host.
  unfoldable pub by_archive : Bool → Bool → String → Act (Unit {0})
  unfolding run_move_backup fetch_newest_archive
  by_archive from_s3 cross leader = do path ← archive from_s3; deliver cross leader path

  abbrev pub cross_node : Option (Result (List Node)) → Bool
  cross_node none = false
  cross_node (some ns) = not (target == o.local_host)

  -- The stack's data is brought to the target.
  unfoldable pub transit : Bool → List String → String → Act (Unit {0})
  unfolding by_store by_archive
  transit from_s3 ps leader =
      if cross_node o.nodes && o.configured
      then by_store from_s3 ps
      else by_archive from_s3 (cross_node o.nodes) leader

  abbrev pinned_with : MoveState → Option Error × Db → Result (Unit {0}) × MoveState
  pinned_with s (failure, db) = (passes "move: pin" failure, record s { db = db })

  -- `SetSetting` of the stack's pin.
  unfoldable pub pin : Act (Unit {0})
  unfolding write_pin
  pin s = pinned_with s (write_pin s.db stack target)

  abbrev pub payload : String → Payload
  payload source_yaml = record {
    app_name = stack;
    repo_url = "";
    file = "";
    version = "";
    manifest = source_yaml;
  }

  abbrev deployed : MoveState → Result Deployed × State Body Db → Result (Unit {0}) × MoveState
  deployed s (err e, d) =
      (err (wrapped "move: redeploy" e), record s { db = d.pins; tables = d.tables })
  deployed s (ok made, d) = (ok tt, record s { db = d.pins; tables = d.tables })

  -- `reconcileDeploy` over the store and the pins.
  unfoldable pub redeploy : String → Act (Unit {0})
  unfolding deploy
  redeploy source_yaml s = deployed s (deploy o.deploy (payload source_yaml) false s.tables s.db)

  -- A marker that is not there is no error; another failure is only logged, and the marker stays.
  unfoldable pub clear_marker : Act (Unit {0})
  unfolding clear_stack_failover
  clear_marker s = elim o.clear_fails [
    | some e ↦ (ok tt, s)
    | none ↦ (ok tt, record s { markers = (clear_stack_failover stack s.markers).1 })
  ]

  abbrev pub settle : String → Act (Unit {0})
  settle source_yaml = do pin; redeploy source_yaml; clear_marker

  abbrev pub bring : Bool → List String → Act (Unit {0})
  bring from_s3 ps = do
    unless (is_empty ps) "move: stack has no stateful storage to move"
    unless (is_only target ps) "move: stack storage is already on the target"
    leader ← lift (leader_of o.nodes)
    transit from_s3 ps leader

  -- `MoveWithOptions`
  unfoldable pub move_with_options : Bool → Act (Unit {0})
  unfolding storage_pins_for_stack leader_of transit pin redeploy clear_marker
  move_with_options from_s3 = do
    unless (target == "") "move: target node is empty"
    rev ← latest
    ps ← pins
    bring from_s3 ps
    settle rev.source_yaml

-- `Ack`
unfoldable pub ack : String → MoveState → Option Error × MoveState
unfolding ack_stack_failover
ack stack s =
    let (failure, markers) = ack_stack_failover stack s.markers in
    (failure, record s { markers = markers })
