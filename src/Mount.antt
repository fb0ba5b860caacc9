-- ===== src/Mount.antt =====
-- The mount package: flags, the mountinfo parser and its queries.
pub mod Flags
pub mod Info
pub mod Parse
pub mod Query
pub mod Clone
