-- ===== src/Capture.antt =====
-- Captured flows (daemon/src/pporlock/capture).
pub mod Records
pub mod Ring
pub mod Sink
pub mod Attribution
pub mod Redact
pub mod Session
