-- ===== src/State/Peer.antt =====
-- src/state/peer.rs: the network half of the node's state. A transition takes the state and an
-- event to the new state and the commands to run.
pub mod Defs
pub mod Handlers
pub mod Machine
pub mod Phases
pub mod Relay
pub mod Addresses
