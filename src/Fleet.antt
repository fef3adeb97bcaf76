-- ===== src/Fleet.antt =====
-- internal/controller/state.go: the Agents, Peers and reservations that the Controller keeps.
-- One operation runs under the lock `mu`; the clock reading `now` and the random revision
-- `fresh` are arguments. A Go map is ranged over in the order of its association list.
pub mod Defs
pub mod Capacity
pub mod Register
pub mod Merge
pub mod Heartbeat
pub mod Placement
pub mod Index
pub mod Lifecycle
pub mod Reports
pub mod History
pub mod Limits
pub mod Choices
pub mod Reservations
pub mod Foreign
