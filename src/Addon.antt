-- ===== src/Addon.antt =====
-- The adapter between mitmproxy's flows and the engine.
pub mod Apply
