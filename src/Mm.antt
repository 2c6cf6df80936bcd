-- ===== src/Mm.antt =====
-- The memory managers of kernel/mm.
pub mod Pmm
pub mod Kmalloc
pub mod Vmm
