-- ===== src/Proc.antt =====
-- Tasks and the scheduler: kernel/proc.
pub mod Tasks
pub mod Tqueue
pub mod Sched
pub mod Make
mod Tests
