-- ===== src/Fs/Vfs/Unlink.antt =====
-- `vfs_unlink` of kernel/fs/vfs/link.c.
use aeolos.Fs.Vfs.{Vfs}
