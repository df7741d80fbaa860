-- ===== src/Backups.antt =====
-- internal/backups: the archives of the stacks' volumes.
pub mod Retention
pub mod Prune
pub mod Drain
pub mod Artifacts
