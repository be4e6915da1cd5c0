-- ===== src/State/App.antt =====
-- src/state/app.rs: the peer machine and the tunnel machine composed.
pub mod Machine
pub mod Tunnels
pub mod Activation
