-- ===== src/Sequences.antt =====
-- The source sequence numbers of a session, as intervals (internal/controller/run_metrics_window.go).
pub mod Defs
pub mod Search
pub mod Added
pub mod Through
