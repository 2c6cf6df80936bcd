-- ===== src/Fs.antt =====
-- The filesystems of kernel/fs.
pub mod Ttyfs
pub mod Vfs
pub mod Ramfs
