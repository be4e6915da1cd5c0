-- ===== src/Specs.antt =====
pub mod Text
pub mod Port
pub mod Addr
pub mod Named
