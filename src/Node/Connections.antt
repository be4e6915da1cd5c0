-- ===== src/Node/Connections.antt =====
-- src/node/connection_state.rs: which connections each peer has, and which hole-punch attempt
-- of a relayed peer is under way.
pub mod Defs
pub mod Registry
pub mod Attempts
pub mod Dials
pub mod Timeouts
pub mod Invariant
pub mod Reachable
pub mod Outcomes
pub mod Deadlines
pub mod Tracking
pub mod DialOwners
