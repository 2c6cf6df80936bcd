-- ===== src/Lib.antt =====
-- Models and theorems for the core of the aeolos kernel.
--
-- The kernel's parts that are modelled, and how they use each other: the physical memory manager
-- keeps a bitmap of the pages, which the boot loader's memory map fills. The scheduler keeps every
-- task in a table by its tid and, doubly linked through the tasks, the queues of sleeping and dead
-- tasks; task creation fills in a task and adds it to the table. The virtual filesystem keeps a tree
-- of names and, per task, the open files; it calls the functions of the filesystem that an inode
-- belongs to, of which ramfs and ttyfs are modelled. Its lookups compare names with `strncmp`. The
-- kernel's log is a ring that formats are printed to. Page tables are built from pages of the physical
-- memory manager and map addresses for the processor. The terminal draws the bytes it is given on the
-- frame buffer. Locks guard what several CPUs share.
--
--   Mm/Pmm.antt          kernel/mm/pmm.c; Mm/Pmm/Bitmap.antt has its bitmap.
--   Proc/Tasks.antt      kernel/proc/task.h: the memory of the tasks.
--   Proc/Tqueue.antt     kernel/proc/sched/tqueue.c.
--   Proc/Sched.antt      kernel/proc/sched/sched.c; the janitor is in Proc/Sched/Janitor.antt.
--   Proc/Make.antt       kernel/proc/task.c.
--   Fs/Vfs.antt          kernel/fs/vfs/vfs.h and common.h: the nodes and the state.
--   Fs/Vfs/Path.antt     `path_to_node` and the allocation of nodes in kernel/fs/vfs/common.c.
--   Fs/Vfs/Files.antt    calls on a handle: kernel/fs/vfs/openclose.c, readwrite.c, getdent.c.
--   Fs/Vfs/Nodes.antt    calls on nodes: kernel/fs/vfs/link.c, misc.c, vfs.c.
--   Fs/Vfs/Vector.antt   `vec_erase` of kernel/lib/vector.h on memory, for the nodes' children.
--   Fs/Ramfs.antt        kernel/fs/ramfs/ramfs.c.
--   Fs/Ttyfs.antt        kernel/fs/ttyfs/ttyfs.c; as a filesystem in Fs/Ttyfs/Driver.antt.
--   Klog.antt            kernel/lib/klog.c: the ring, formats, what is shown.
--   Atomic.antt          kernel/lib/atomic.h and atomic.c; several threads are in Atomic/System.antt.
--   Mm/Vmm.antt          kernel/mm/vmm.c; Mm/Vmm/Walk.antt is how the processor reads the tables.
--   Term.antt            kernel/dev/term/term.c; Term/Framebuffer.antt has kernel/dev/fb/fb.c.
--   Mm/Kmalloc.antt      kernel/lib/kmalloc.c.
--   Memutils.antt        `strncmp` of kernel/lib/memutils.c; the rest is in Memutils/Memory.antt.
--   Base.antt            lists over the native numbers, Boolean tests.
--
-- A definition has the name of the C function that it models. Machine words wrap where `% 2 ^ w` is
-- written. Pointers are numbers, memory is a function from them, and a write gives the function
-- afterwards; a fault, such as a read through NULL, is `none` where a function can run into it. Where
-- the terminal and ramfs can leave an array or an allocation, a field `overrun` of their state says
-- that they have; a path's tokens are taken to be shorter than VFS_MAX_PATH_LEN. A
-- lock is held over each call of the scheduler and of the virtual filesystem, so a call is one step,
-- and what reaches the state is a sequence of calls.
--
-- Parameters: the addresses that `kmalloc` returns and what is in that memory, the readings of the
-- clock, the number of the CPU, and the state that filesystems keep behind an inode's `ident`. The
-- allocator is modelled apart from its callers. A theorem that relies on an address being unused says
-- so.
--
-- Loops that follow links take fuel: the queues' loops the length of the queue, the loop over a path
-- one round more than the path has characters. The theorems on them take any fuel that is enough, and
-- the loop over a path is always given enough. `putnum` has fuel for the 64 digits of its buffer, the
-- loops that show the log one round for each byte of its ring, and the loops that look for a NUL take
-- any fuel above the length.
--
-- The flags of a mapping are below 4096, so that the bits of an entry are a sum. The words of page
-- tables are kept apart from the bitmap of the pages. The frame buffer is a function from the
-- offsets of its pixels, for a pitch that is a multiple of four, and the font is at most eight
-- pixels wide, as its masks are.
--
-- Not modelled: the initial ramdisk, ACPI tables, devices, random numbers, the processors' tables and
-- startup, and the functions that only print.
pub mod Atomic
pub mod Term
pub mod Base
pub mod Fs
pub mod Klog
pub mod Memutils
pub mod Mm
pub mod Proc
