-- ===== src/Kernel.antt =====
-- The scheduling of the kernel, xv6/kernel: the process table, the three schedulers, and the
-- timer interrupt.
pub mod Proc
pub mod Family
pub mod Scheduler
pub mod Trap
pub mod Invariant
