-- ===== src/Publish.antt =====
-- internal/controller/runner.go: which Peers a phase waits for, publishes from and publishes to.
pub mod Topics
pub mod Cohort
pub mod Targets
