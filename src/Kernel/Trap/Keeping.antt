-- ===== src/Kernel/Trap/Keeping.antt =====
-- Whether a process keeps the processor at a timer interrupt under MLFQ, xv6/kernel/trap.c.
use mathlib.Core.Option
use mini_project.Kernel.Proc.{Proc, Kernel}
