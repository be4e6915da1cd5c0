-- ===== src/Wire.antt =====
-- src/tunnel.rs: the messages between two nodes, the sessions, and the registries.
pub mod Frames
pub mod Framing
pub mod Sessions
pub mod Outcomes
pub mod Registries
