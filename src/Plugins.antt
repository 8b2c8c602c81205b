-- ===== src/Plugins.antt =====
-- The plugin framework: internal/plugins.
pub mod Interfaces
pub mod Pipeline
pub mod Core
