-- ===== src/Topology.antt =====
-- internal/controller/topology.go: the edges of the network that the Peers' reports show.
pub mod Defs
pub mod Claims
pub mod Edges
pub mod Reported
pub mod Shown
