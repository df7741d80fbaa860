-- ===== src/Stacks.antt =====
-- internal/stacks: application stacks, from placement to deploy.
pub mod Placement
pub mod Deploy
pub mod Drift
pub mod Ordered
pub mod Undeploy
pub mod Rollback
pub mod Sync
pub mod Resolver
pub mod Transit
pub mod Move
