-- ===== src/Node.antt =====
-- src/node: the bookkeeping of the event loop.
pub mod Backoff
pub mod Connections
pub mod Delays
pub mod Translate
pub mod Execute
pub mod Loop
pub mod Addresses
pub mod Reconnects
pub mod Turn
pub mod Run
pub mod Start
