-- ===== src/State.antt =====
-- The state package: containers, their data store and their registry.
pub mod Data
pub mod Container
pub mod Registry
