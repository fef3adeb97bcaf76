-- ===== src/Jobs.antt =====
-- internal/controller/jobs.go: the background jobs of a scenario.
pub mod Defs
pub mod Table
pub mod Wait
pub mod Outcomes
pub mod Progress
