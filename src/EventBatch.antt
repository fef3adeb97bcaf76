-- ===== src/EventBatch.antt =====
-- internal/model/event_batch.go: the size limits of a batch of telemetry events.
pub mod Defs
pub mod Prefix
pub mod Validated
