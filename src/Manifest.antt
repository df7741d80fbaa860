-- ===== src/Manifest.antt =====
-- internal/manifest: the DSL's pipeline from a parsed manifest to what is rendered.
pub mod Ir
pub mod Levels
