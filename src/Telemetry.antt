-- ===== src/Telemetry.antt =====
-- The telemetry of a Peer (internal/peer/telemetry.go).
pub mod Clock
pub mod Queue
pub mod Measurement
pub mod Consumer
pub mod Ordered
pub mod Sound
pub mod Produced
pub mod Consumed
pub mod History
