-- ===== src/Fuse.antt =====
-- Package fuse: the files and directories of the emulated file system.
pub mod Node
pub mod File
pub mod Dir
pub mod Run
