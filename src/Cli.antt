-- ===== src/Cli.antt =====
-- src/main.rs: what the command line makes of its arguments, for the node and for the service
-- manager that runs it in the background.
pub mod Xml
pub mod Environment
pub mod Templates
pub mod Service
