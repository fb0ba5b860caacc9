-- ===== src/Handler.antt =====
-- Packages handler and handler/implementations: the emulated files of procfs and sysfs.
pub mod Ints
pub mod Store
pub mod PassThrough
pub mod Kernel
pub mod Sysctl
pub mod Db
