-- ===== src/Kernel.antt =====
-- kernel/: the scheduler.
pub mod Sched
