-- ===== src/Plugins/Core.antt =====
-- The core plugins: internal/plugins/core.
pub mod Storage
pub mod DefaultResponse
