-- ===== src/Forward.antt =====
-- How an Agent passes telemetry on to the Controller (internal/agent/agent.go, run_drain.go).
pub mod Queue
pub mod Fifo
pub mod Delivered
