-- ===== src/Collections.antt =====
-- The collections of the standard library that the source keeps its state in.
pub mod HashMap
pub mod HashSet
pub mod Sort
pub mod Weight
