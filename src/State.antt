-- ===== src/State.antt =====
-- src/state: the domain state machine, a pair of Mealy machines over one alphabet of events.
-- Each file of the folder is a module here.
pub mod Event
pub mod Command
pub mod Peer
pub mod Tunnel
pub mod App
