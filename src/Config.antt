-- ===== src/Config.antt =====
-- internal/model/config.go: the configuration of a Peer.
pub mod Defs
pub mod Params
pub mod Node
pub mod Overlay
pub mod Kind
pub mod Presets
pub mod Degrees
pub mod Exclusive
pub mod Mesh
pub mod Stable
pub mod BuiltIn
