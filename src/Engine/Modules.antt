-- ===== src/Engine/Modules.antt =====
-- Modules: what is loaded, and which of it runs.
pub mod Registry
pub mod Store
pub mod Settings
