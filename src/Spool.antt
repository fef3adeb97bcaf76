-- ===== src/Spool.antt =====
-- The spool of an Agent (internal/agent/telemetry_spool.go).
pub mod Defs
pub mod Refs
pub mod Advanced
pub mod Forgotten
pub mod Synced
pub mod Restart
