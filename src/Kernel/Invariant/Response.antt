-- ===== src/Kernel/Invariant/Response.antt =====
-- The response time that `waitx` of xv6/kernel/proc.c gives under MLFQ and round robin.
use mini_project.Common.{
  ℕ, some, All, arith, if_elim, ◌==◌, ◌≡◌, ◌≢◌, ◌⊎◌, inl, inr, refl, get_elem?, All-get_elem?,
}
use mini_project.Kernel.Proc.{
  Proc, Kernel, Policy, fifo, mlfq, round_robin, is_non_negative, init_proc, freeproc,
  become_zombie, fall_asleep, waitx_times,
}
use mini_project.Kernel.Scheduler.{boost_proc}
use mini_project.Kernel.Trap.{use_tick, slice_ends}
use mini_project.Kernel.Invariant.{
  dispatch, Reachable, IsKept, keep_mlfq, keep_visit, Reachable-All,
}

-- The slot is free, or no first run has been noted for its process.
pub NeverRan : Proc → Type 0
NeverRan p = (p.pid ≡ 0) ⊎ (p.first_run ≡ 4294967295)

fall_asleep-NeverRan : (policy : Policy) (p : Proc) → NeverRan p → NeverRan (fall_asleep policy p)
unfolding fall_asleep NeverRan
fall_asleep-NeverRan mlfq p h = if_elim NeverRan (p.chan == 0) h h
fall_asleep-NeverRan fifo p h = if_elim NeverRan (p.chan == 0) h h
fall_asleep-NeverRan round_robin p h = if_elim NeverRan (p.chan == 0) h h

use_tick-NeverRan : (p : Proc) → NeverRan p → NeverRan (use_tick p)
unfolding use_tick NeverRan
use_tick-NeverRan p h = if_elim NeverRan (slice_ends p) h h

dispatch-NeverRan :
    (policy : Policy)
    → policy ≢ fifo
    → (i : ℕ) (k : Kernel) → All NeverRan k.procs
    → All NeverRan (dispatch policy i k).procs
unfolding NeverRan boost_proc
dispatch-NeverRan fifo n i k a = elim (n refl) [ ]
dispatch-NeverRan mlfq n i k a = keep_mlfq NeverRan (λ p h. h) (λ p h. h) k a
dispatch-NeverRan round_robin n i k a = keep_visit NeverRan (λ p h. h) i k a

NeverRan-IsKept : (policy : Policy) → policy ≢ fifo → IsKept policy NeverRan
unfolding NeverRan boost_proc init_proc freeproc become_zombie
NeverRan-IsKept policy n = record {
  at_first = inl refl;
  by_init = λ pid ticks p h. inr refl;
  by_free = λ pid p h. inl refl;
  by_reap = λ p h. inl refl;
  by_state = λ s p h. h;
  by_chan = λ chan p h. h;
  by_parent = λ parent p h. h;
  by_kill = λ p h. h;
  by_exit = λ status ticks p h. h;
  by_sleep = fall_asleep-NeverRan policy;
  by_times = λ rtime wtime p h. h;
  by_boost = λ p h. h;
  by_tick = use_tick-NeverRan;
  by_dispatch = dispatch-NeverRan policy n;
}

no_response : (p : Proc) → p.first_run ≡ 4294967295 → (waitx_times p).2 ≡ 0
unfolding waitx_times is_non_negative
no_response p e = ground arith

-- Under MLFQ and round robin `waitx` gives the response time 0 for every process of every state
-- that is reached, since the first run of a process is never noted.
pub waitx_times-Reachable :
    {policy : Policy} {k : Kernel}
    → policy ≢ fifo
    → Reachable policy k
    → (i : ℕ) (p : Proc) → get_elem? k.procs i ≡ some p
    → p.pid ≢ 0
    → (waitx_times p).2 ≡ 0
unfolding NeverRan
waitx_times-Reachable {policy} {k} n r i p e z = seen (
    All-get_elem? NeverRan k.procs i p (Reachable-All policy NeverRan (NeverRan-IsKept policy n) r)
      e)
  where
    seen : NeverRan p → (waitx_times p).2 ≡ 0
    seen (inl f) = elim (z f) [ ]
    seen (inr f) = no_response p f
