-- ===== src/Ingest.antt =====
-- How the Controller takes in telemetry (internal/controller/state.go, run_metrics.go, run_integrity.go).
pub mod Defs
pub mod Store
pub mod Identity
pub mod Numbered
pub mod Remembered
pub mod Accepted
pub mod Tracks
pub mod Known
pub mod Exact
pub mod Held
pub mod Stored
pub mod Failures
