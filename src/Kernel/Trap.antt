-- ===== src/Kernel/Trap.antt =====
-- The timer interrupt of xv6/kernel/trap.c: `clockintr` and the part of `usertrap` for
-- `which_dev == 2`. `kerneltrap` yields at every timer interrupt, whatever the scheduler.
pub mod Slices
pub mod Turns
pub mod Keeping
use mini_project.Common.{
  ℕ, zero, suc, ◌+◌, ◌%◌, Bool, true, false, ◌&&◌, Option, none, some, List, [], ◌∷◌, ◌==◌, ltb,
  leb, if◌then◌else◌, any, get_elem?, modify,
}
use mini_project.Kernel.Proc.{
  Proc, Kernel, Policy, fifo, mlfq, round_robin, ProcState, is_runnable, with_proc, each, wakeup,
  yield,
}
use mini_project.Kernel.Scheduler.{in_queue}

-- `address` is that of the variable `ticks`, on which `pause` sleeps.
unfoldable pub clockintr : ℕ → Kernel → Kernel
unfolding wakeup
clockintr address k = wakeup address (record k { ticks = (k.ticks + 1) % 4294967296 })

unfoldable pub add_rtime : Proc → Proc
add_rtime p = record p { rtime = (p.rtime + 1) % 4294967296 }

unfoldable pub add_wtime : Proc → Proc
add_wtime p = if is_runnable p.state then record p { wtime = (p.wtime + 1) % 4294967296 } else p

-- Process `i` runs; all others are looked at.
unfoldable pub account : ℕ → List Proc → List Proc
unfolding add_rtime add_wtime
account i [] = []
account zero (p ∷ ps) = add_rtime p ∷ each add_wtime ps
account (suc i) (p ∷ ps) = add_wtime p ∷ account i ps

-- `slice_ticks`; a priority above 3 is behind its end, and gets the last entry here.
unfoldable pub slice_ticks : ℕ → ℕ
slice_ticks zero = 1
slice_ticks (suc zero) = 4
slice_ticks (suc (suc zero)) = 8
slice_ticks (suc (suc (suc n))) = 16

unfoldable pub slice_ends : Proc → Bool
unfolding slice_ticks
slice_ends p = leb (slice_ticks p.priority) (p.ticks_used + 1)

-- `ticks_used` after the increment, and the demotion when the slice is used up.
unfoldable pub use_tick : Proc → Proc
unfolding slice_ends
use_tick p =
    let demoted = if ltb p.priority 3 then p.priority + 1 else p.priority in
    if slice_ends p
    then record p { ticks_used = 0; priority = demoted }
    else record p { ticks_used = p.ticks_used + 1 }

-- Whether a process is runnable in one of the `n` queues from `q` on.
unfoldable pub any_above : ℕ → ℕ → List Proc → Bool
unfolding any
any_above zero q ps = false
any_above (suc n) q ps =
    let rest = any_above n (q + 1) ps in if any (in_queue q) ps then true else rest

unfoldable pub should_yield : List Proc → Proc → Bool
unfolding slice_ends any_above
should_yield ps p = if slice_ends p then true else any_above p.priority 0 ps

abbrev pub yields : Policy → List Proc → Option Proc → Bool
yields fifo ps p = false
yields mlfq ps none = false
yields mlfq ps (some p) = should_yield ps p
yields round_robin ps p = true

abbrev pub spend : Policy → ℕ → Kernel → Kernel
spend mlfq i k = with_proc i use_tick k
spend fifo i k = k
spend round_robin i k = k

-- A timer interrupt while process `i` runs in user space.
unfoldable pub timer_tick : Policy → ℕ → Kernel → Kernel
unfolding account use_tick should_yield with_proc yield get_elem?
timer_tick policy i k =
    let k' = record k { procs = account i k.procs } in
    let leaves = yields policy k'.procs (get_elem? k'.procs i) in
    let k'' = spend policy i k' in if leaves then yield i k'' else k''

abbrev pub kernel_tick : ℕ → Kernel → Kernel
kernel_tick i k = yield i k
