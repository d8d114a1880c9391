-- ===== src/Kernel/Invariant/Queues.antt =====
-- The queue and the time slice of every process, whatever happens.
use mini_project.Common.{
  ℕ, zero, suc, ◌+◌, ◌<◌, ◌≤◌, All, arith, if_cases, if_elim, ltb, leb, ◌==◌, if◌then◌else◌,
}
use mini_project.Kernel.Proc.{
  Proc, Kernel, Policy, fifo, mlfq, round_robin, running, init_proc, freeproc, become_zombie,
  fall_asleep,
}
use mini_project.Kernel.Scheduler.{boost_proc, start_first}
use mini_project.Kernel.Trap.{slice_ticks, slice_ends, use_tick}
use mini_project.Kernel.Invariant.{
  dispatch, Reachable, IsKept, keep_mlfq, keep_fifo, keep_visit, Reachable-All,
}

-- One of the four queues, and less than its time slice used.
pub InSlice : Proc → Type 0
InSlice p = (p.priority ≤ 3) × (p.ticks_used < slice_ticks p.priority)

slice_ticks_pos : (q : ℕ) → 0 < slice_ticks q
unfolding slice_ticks
slice_ticks_pos zero = omega arith
slice_ticks_pos (suc zero) = omega arith
slice_ticks_pos (suc (suc zero)) = omega arith
slice_ticks_pos (suc (suc (suc n))) = omega arith

use_tick-InSlice : (p : Proc) → InSlice p → InSlice (use_tick p)
unfolding use_tick InSlice slice_ends
use_tick-InSlice p h =
    let demoted = if ltb p.priority 3 then p.priority + 1 else p.priority in
    if_cases InSlice (leb (slice_ticks p.priority) (p.ticks_used + 1))
      (record p { ticks_used = 0; priority = demoted }) (record p { ticks_used = p.ticks_used + 1 })
      (λ e. (ground arith, slice_ticks_pos demoted)) (λ e. (h.0, ground arith))

fall_asleep-InSlice : (policy : Policy) (p : Proc) → InSlice p → InSlice (fall_asleep policy p)
unfolding fall_asleep InSlice
fall_asleep-InSlice mlfq p h = if_elim InSlice (p.chan == 0) h (h.0, slice_ticks_pos p.priority)
fall_asleep-InSlice fifo p h = if_elim InSlice (p.chan == 0) h h
fall_asleep-InSlice round_robin p h = if_elim InSlice (p.chan == 0) h h

start_first-InSlice : (ticks : ℕ) (p : Proc) → InSlice p → InSlice (start_first ticks p)
unfolding start_first InSlice
start_first-InSlice ticks p h =
    if_elim (λ (q : Proc). InSlice (record q { state = running })) (p.first_run == 4294967295) h h

dispatch-InSlice :
    (policy : Policy) (i : ℕ) (k : Kernel)
    → All InSlice k.procs
    → All InSlice (dispatch policy i k).procs
unfolding InSlice boost_proc
dispatch-InSlice fifo i k a = keep_fifo InSlice start_first-InSlice k a
dispatch-InSlice mlfq i k a =
    keep_mlfq InSlice (λ p h. h) (λ p h. (omega arith, slice_ticks_pos 0)) k a
dispatch-InSlice round_robin i k a = keep_visit InSlice (λ p h. h) i k a

InSlice-IsKept : (policy : Policy) → IsKept policy InSlice
unfolding InSlice boost_proc init_proc freeproc become_zombie
InSlice-IsKept policy = record {
  at_first = (omega arith, slice_ticks_pos 0);
  by_init = λ pid ticks p h. (omega arith, slice_ticks_pos 0);
  by_free = λ pid p h. h;
  by_reap = λ p h. h;
  by_state = λ s p h. h;
  by_chan = λ chan p h. h;
  by_parent = λ parent p h. h;
  by_kill = λ p h. h;
  by_exit = λ status ticks p h. h;
  by_sleep = fall_asleep-InSlice policy;
  by_times = λ rtime wtime p h. h;
  by_boost = λ p h. (omega arith, slice_ticks_pos 0);
  by_tick = use_tick-InSlice;
  by_dispatch = dispatch-InSlice policy;
}

-- In every state that the kernel reaches under any of its schedulers, every slot of the process
-- table is in one of the queues 0 to 3 and has used less than the time slice of its queue.
pub Reachable-InSlice : {policy : Policy} {k : Kernel} → Reachable policy k → All InSlice k.procs
Reachable-InSlice {policy} r = Reachable-All policy InSlice (InSlice-IsKept policy) r
