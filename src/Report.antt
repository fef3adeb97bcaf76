-- ===== src/Report.antt =====
-- internal/agent/heartbeat.go: the reports of an Agent's Peers to the Controller.
pub mod Defs
pub mod Complete
pub mod Sends
