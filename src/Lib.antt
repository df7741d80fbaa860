-- ===== src/Lib.antt =====
-- Poor Man's Cluster: the control plane of a small Docker Swarm.
--
-- The daemon keeps application stacks in a SQLite store, deploys them to the swarm, and converges
-- the swarm to the store in a loop. A deploy is a workflow of named steps; it places services with
-- volumes on a storage node, records a revision, and applies the services level by level. The loop
-- pauses stacks whose storage node is down, moves them, syncs the others, and writes the badges.
--
-- Workflow            pmcluster/internal/workflow/workflow.go: `Workflow.Run` over a state.
-- Webhooks.Retry      pmcluster/internal/webhooks/retry.go: the retry loops and their budget. The
--                     loops recurse on the attempts left, which is the bound of the source.
-- Webhooks.Receiver   pmcluster/internal/webhooks/receiver.go: `receive` and `verifyHMAC`, as the
--                     list of what the handler does.
-- Manifest.Ir         pmcluster/internal/manifest/ir.go: the translated manifest.
-- Manifest.Levels     pmcluster/internal/manifest/levels.go: `ServiceLevels`. Its loop recurses on fuel,
--                     one more than there are dependencies, and never runs out of it.
-- Store.Stacks        pmcluster/internal/store/stacks.go: stacks, revisions, error history. A write
--                     gives the new tables; a transaction that fails gives none. The search of
--                     `NextFreeRevision` has the source's own bound of ten thousand.
-- Store.StackStatus   pmcluster/internal/store/stack_status.go: the rows behind the badges.
-- Store.Settings      pmcluster/internal/store/settings.go: the settings, with failing reads.
-- Stacks.Placement    pmcluster/internal/stacks/placement.go, and in Wiring the closures of
--                     pmcluster/internal/cli/serve.go that keep pins in the settings.
-- Store.Failovers     pmcluster/internal/store/failover.go: the markers of automatic moves.
-- Stacks.Drift        pmcluster/internal/stackdrift/stackdrift.go: `InSync`.
-- Stacks.Deploy       pmcluster/internal/stacks/deploy.go: `Deploy` and `DeployAsync`, a workflow over
--                     the store and the pins, and the goroutine that applies in the background.
-- Stacks.Ordered      the same file: `applyToSwarm` and the waits.
-- Stacks.Rollback     the same file: `Rollback`, a workflow over the store.
-- Stacks.Undeploy     the same file: `Undeploy`.
-- Stacks.Sync         the same file: `Sync`.
-- Stacks.Move         pmcluster/internal/stacks/move.go: `MoveWithOptions`, ended by the deploy; Acts has
--                     its state and the shape of its steps.
-- Stacks.Transit      the same and pmcluster/internal/stacks/move_store.go: the search for an archive.
-- Stacks.Resolver     pmcluster/internal/stacks/resolver.go: references in configs, expanded to the
--                     depth that the source allows (Pattern: what is a reference; Stored: the rows);
--                     with pmcluster/internal/refs (Refs).
-- Reconcile           pmcluster/internal/reconcile/reconcile.go: Status (`StackStatus`), SyncErrors
--                     (`handleSyncError`, `logStoragePaused`), Failover (`storagePaused`,
--                     `tryStorageFailover`), Snapshot (`snapshotHealth`), Pass (`runPass`), Loop (the
--                     `select` of `Loop`, as a step relation). RateLimit is the pattern they share.
-- Nodes.Publish       pmcluster/internal/nodever/nodever.go: `Publish` and `Loop`.
-- Backups.Retention   pmcluster/internal/backups/prune_remote.go and prune.go: `planPrune` and
--                     `shouldDelete`, the plan of what is deleted.
-- Backups.Prune       the same files: the pruners of a directory, of a bucket, and of the
--                     control-plane archives.
-- Backups.Drain       pmcluster/internal/backups/drain.go: `Drain` and its undo; the wait is a list of
--                     rounds of its loop.
-- Backups.Artifacts   pmcluster/internal/backups/artifact.go: `ArtifactName` (Rendering) and
--                     `ParseArtifact`; a time is what UTC reads to the second.
-- Store.Stacks.Contract  what the store of stacks promises: two maps, and each write on them.
-- Common              lists, maps, integers, errors, texts. Tests: concrete inputs.
--
-- Go's `int64` wraps where a computation can overflow (`Common.Int.wrap_int64`); times are natural
-- numbers of nanoseconds, or of seconds where the store keeps seconds. The Docker client, the clock,
-- YAML, hashes and the database driver are parameters, by what they answer. Not modelled: log lines,
-- spans and gauges; the command line, the console and most of HTTP; the rest of the backups; the
-- services on the swarm that carry out a move; and the manifest pipeline but for the levels, so a
-- deploy takes parsing, validating, translating and rendering as parameters.
mod Common
mod Tests
pub mod Workflow
pub mod Webhooks
pub mod Store
pub mod Manifest
pub mod Stacks
pub mod Reconcile
pub mod Refs
pub mod Nodes
pub mod Backups
