-- ===== src/Reconcile/Pass/Stacks.antt =====
-- What a pass does with each stack.
use poor_man_cluster.Common.{
  String, ◌≡◌, Bool, true, Option, none, some, List, [], ◌∷◌, Map, lookup,
}
use poor_man_cluster.Common.Errors.{Error}
use poor_man_cluster.Store.Stacks.{Stack}
use poor_man_cluster.Reconcile.SyncErrors.{Db}
use poor_man_cluster.Reconcile.Failover.{storage_paused}
use poor_man_cluster.Reconcile.Pass.{Text, Outside, World, Did, paused, synced}

-- What a sync of a stack leaves that has passed, and one that has failed: its database, but that the
-- failure may be noted on the stack and in the statuses; and the failure is remembered.
abbrev pub LeftBySync : Text → String → Option Error → Db → World → World → Type 0
LeftBySync text name none db w w' = (w'.db ≡ db) × (w'.sync_errors ≡ w.sync_errors)
LeftBySync text name (some e) db w w' =
    (w'.db.tables.revisions ≡ db.tables.revisions)
    × (w'.db.tables.configs ≡ db.tables.configs)
    × (w'.db.tables.secrets ≡ db.tables.secrets)
    × (lookup name w'.sync_errors.last ≡ some (text e))

module _ (o : Outside) (health : Map Bool) where
  -- A stack is paused only for the node that is down, and the database stays as it is; or it is
  -- synced only if it is not paused, by one sync over the database as it stands.
  abbrev pub IsRight : Stack → World → Did → World → Type 0
  IsRight st w (paused name node move) w' =
      (name ≡ st.name)
      × (storage_paused true health (o.pins name) ≡ some node)
      × (w'.db ≡ w.db)
      × (w'.sync_errors ≡ w.sync_errors)
  IsRight st w (synced name failure) w' =
      (name ≡ st.name)
      × (storage_paused true health (o.pins name) ≡ none)
      × (failure ≡ (o.sync name w.db).0)
      × LeftBySync o.text name failure (o.sync name w.db).1 w w'
      × (w'.pauses ≡ w.pauses)
      × (w'.last_failover ≡ w.last_failover)

  -- The stacks one after another, each over what the one before has left.
  abbrev pub AllRight : List Stack → World → List Did → World → Type 0
  AllRight [] w [] w' = w' ≡ w
  AllRight [] w (d ∷ ds) w' = ⊥
  AllRight (st ∷ sts) w [] w' = ⊥
  AllRight (st ∷ sts) w (d ∷ ds) w' = (w1 : World) × IsRight st w d w1 × AllRight sts w1 ds w'
