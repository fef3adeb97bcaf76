-- ===== src/Experiments.antt =====
-- internal/model/model.go and internal/controller/state.go: the runs of experiments, and their order.
pub mod Defs
pub mod Ranking
