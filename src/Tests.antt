-- ===== src/Tests.antt =====
-- The theorems at concrete inputs, and runs of the definitions.
mod Toy
mod Nodes
mod Tunnels
mod Parsing
mod Reports
mod Messages
mod Runtime
mod Links
mod Loops
mod Environments
mod Services
mod Runs
