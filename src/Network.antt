-- ===== src/Network.antt =====
-- internal/distribution/distribution.go and internal/model/network.go: the configuration of a network.
pub mod Distribution
pub mod Config
pub mod Sampling
pub mod Resolved
