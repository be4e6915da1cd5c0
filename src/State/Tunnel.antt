-- ===== src/State/Tunnel.antt =====
-- src/state/tunnel.rs: the tunnel half of the node's state. It holds the tunnels that are wanted
-- until each is spawned, and drives the retries of a hole punch.
pub mod Defs
pub mod Dedup
pub mod Addresses
pub mod Routing
pub mod HolePunch
pub mod Machine
pub mod Wanted
pub mod Maps
pub mod Reroute
pub mod Conservation
pub mod Runs
pub mod Retries
pub mod Bound
pub mod Redial
pub mod Targets
