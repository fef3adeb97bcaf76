-- ===== src/Scenario.antt =====
-- internal/scenario/scenario.go: a scenario, its defaults and its validation.
pub mod Model
pub mod Actions
pub mod Validate
pub mod Kept
pub mod Acted
pub mod Timely
pub mod Waits
