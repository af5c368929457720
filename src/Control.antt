-- ===== src/Control.antt =====
-- The control server (daemon/src/pporlock/control).
pub mod Events
pub mod Auth
pub mod Audit
