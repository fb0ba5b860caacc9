-- ===== src/Process.antt =====
-- Package process (process/process.go): what a process may access, and where a path leads.
pub mod Perm
pub mod Path
pub mod ProcSelf
pub mod RootIds
