-- ===== src/Reconcile.antt =====
-- internal/reconcile/reconcile.go: the daemon's converge loop. One pass reconciles the platform,
-- syncs the application stacks whose storage is up, and writes the health snapshot.
pub mod Status
pub mod RateLimit
pub mod SyncErrors
pub mod Failover
pub mod Snapshot
pub mod Loop
pub mod Pass
