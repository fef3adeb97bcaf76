-- ===== src/Tests.antt =====
-- Examples: the theorems at concrete inputs.
mod Data
mod Control
mod Runs
mod Jobs
mod Configs
mod Events
mod Node
