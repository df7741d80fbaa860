-- ===== src/Nodes.antt =====
-- internal/nodever/nodever.go: each manager publishes its binary version as a Docker config.
pub mod Publish
