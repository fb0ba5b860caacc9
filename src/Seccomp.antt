-- ===== src/Seccomp.antt =====
-- The seccomp package: the tracer's responses, and the handlers of the trapped syscalls.
pub mod Context
pub mod Umount
pub mod Remount
pub mod Mount
pub mod PidTracker
pub mod Sessions
pub mod Chown
pub mod Xattr
pub mod Memory
pub mod Openat2
pub mod Tracer
