-- ===== src/Tests/Kernel.antt =====
-- Runs of the scheduling of xv6/kernel.
use mini_project.Common.{
  ℕ, suc, ◌+◌, true, false, some, [], ◌∷◌, ◌≡◌, ◌≢◌, refl, arith, All, get_elem?,
}
use mini_project.Kernel.Proc.{
  Proc, Kernel, mlfq, fifo, runnable, running, sleeping, kexit, no_proc, initial_kernel, kfork,
  waitx_times, wakeup, sleep, sleep_prepare,
}
use mini_project.Kernel.Proc.Wakeups.{sleep-wakeup-sleep_prepare}
use mini_project.Kernel.Family.{returned, wait_pass, kwait_copies, kwait}
use mini_project.Kernel.Family.Woken.{woken_state, At}
use mini_project.Kernel.Family.Scan.{NoWaiter, EndsWithChild, kexit-wait_pass}
use mini_project.Kernel.Scheduler.{round_robin_pass, boost, schedule_fifo, schedule_mlfq}
use mini_project.Kernel.Scheduler.Fifo.{FifoChoice, schedule_fifo-FifoChoice}
use mini_project.Kernel.Scheduler.Mlfq.{
  QueueChoice, schedule_mlfq-QueueChoice, boosted, boost-elapsed,
}
use mini_project.Kernel.Trap.{slice_ticks, slice_ends, timer_tick}
use mini_project.Kernel.Trap.Turns.{timer_tick-schedule_mlfq}
use mini_project.Kernel.Trap.Slices.{use_ticks, below, use_ticks-slice}
use mini_project.Kernel.Invariant.{Reachable, at_start, after, fork}
use mini_project.Kernel.Invariant.Queues.{InSlice, Reachable-InSlice}
use mini_project.Kernel.Invariant.Response.{waitx_times-Reachable}

abbrev young : Proc
young = record no_proc { state = runnable; pid = 1; ctime = 9; priority = 1 }

abbrev old : Proc
old = record no_proc { state = runnable; pid = 2; ctime = 4; priority = 2 }

abbrev sample : Kernel
sample = record {
  procs = no_proc ∷ young ∷ old ∷ [];
  ticks = 10;
  ticks_since_boost = 0;
  nextpid = 3;
}

fifo_takes_old : (schedule_fifo sample).0 ≡ some 2
unfolding schedule_fifo
fifo_takes_old = refl

mlfq_takes_young : (schedule_mlfq sample).0 ≡ some 1
unfolding schedule_mlfq
mlfq_takes_young = refl

schedule_fifo-FifoChoice_example : FifoChoice sample.procs (schedule_fifo sample).0
schedule_fifo-FifoChoice_example = schedule_fifo-FifoChoice sample

schedule_mlfq-QueueChoice_example : QueueChoice 0 4 (boost sample).procs (schedule_mlfq sample).0
schedule_mlfq-QueueChoice_example = schedule_mlfq-QueueChoice sample

slice_of_young : 3 + 1 ≡ slice_ticks young.priority
unfolding slice_ticks
slice_of_young = refl

use_ticks-slice_example :
    (use_ticks 2 young ≡ record young { ticks_used = 2 })
    × (use_ticks 4 young ≡ record young { ticks_used = 0; priority = below 1 })
use_ticks-slice_example = use_ticks-slice young 3 2 refl slice_of_young (omega arith)

-- The old process runs in slot 2; the young one is runnable in a queue above.
abbrev old_runs : Kernel
old_runs = record sample { procs = no_proc ∷ young ∷ record old { state = running } ∷ [] }

abbrev forked : Kernel
forked = (kfork true true 0 initial_kernel).1

forked_reached : Reachable mlfq forked
forked_reached = after at_start (fork true true 0 initial_kernel)

Reachable-InSlice_example : All InSlice forked.procs
Reachable-InSlice_example = Reachable-InSlice forked_reached

not_fifo : mlfq ≢ fifo
not_fifo e = cc

abbrev first_child : Proc
first_child = record no_proc { state = runnable; pid = 1; first_run = 4294967295; parent = some 0 }

first_at : get_elem? forked.procs 0 ≡ some first_child
unfolding kfork get_elem?
first_at = refl

waitx_times-Reachable_example : (waitx_times first_child).2 ≡ 0
waitx_times-Reachable_example =
    waitx_times-Reachable not_fifo forked_reached 0 first_child first_at (omega arith)

abbrev runner : Proc
runner = record no_proc { state = running; pid = 7 }

abbrev one_runs : Kernel
one_runs = record sample { procs = runner ∷ [] }

runner_at : get_elem? one_runs.procs 0 ≡ some runner
unfolding get_elem?
runner_at = refl

sleep-wakeup-sleep_prepare_example :
    get_elem? (sleep mlfq 0 (wakeup 5 (sleep_prepare 0 5 one_runs))).procs 0
    ≡ some (record runner { chan = 0 })
sleep-wakeup-sleep_prepare_example =
    sleep-wakeup-sleep_prepare mlfq 0 5 one_runs runner (omega arith) runner_at refl

-- The counter has wrapped around: 60 ticks since the last boost.
abbrev wrapped : Kernel
wrapped = record sample { ticks = 20; ticks_since_boost = 4294967256 }

boost-elapsed_example : boost wrapped ≡ boosted wrapped
boost-elapsed_example = boost-elapsed wrapped 60 (omega arith) (omega arith) refl

-- Running a process changes nothing here, and no process is there to run.
abbrev no_run : ℕ → Kernel → Kernel
no_run i k = k

nothing_runs : (round_robin_pass no_run 64 0 initial_kernel).0 ≡ false
unfolding round_robin_pass get_elem?
nothing_runs = refl

-- Slot 0 is `initproc`, slot 1 sleeps on its address and waits for its child in slot 2, which is
-- the parent of slot 3.
abbrev family : Kernel
family = record initial_kernel {
  procs =
      record no_proc { state = sleeping; pid = 1; chan = 1 }
      ∷ record no_proc { state = sleeping; pid = 2; chan = 2 }
      ∷ record no_proc { state = running; pid = 3; parent = some 1 }
      ∷ record no_proc { state = runnable; pid = 4; parent = some 2 }
      ∷ [];
}

abbrev address : ℕ → ℕ
address i = suc i

-- The child exits with status 7, and its parent reaps it.
abbrev after_exit : Kernel
after_exit = kexit address 0 2 7 family

reaped : (kwait (λ addr. true) 64 2 1 after_exit).0 ≡ returned 3 ((64, 7) ∷ [])
unfolding kwait kexit
reaped = refl

kexit-wait_pass_example :
    At (λ q. q.state ≡ woken_state sleeping) 1 after_exit.procs
    × NoWaiter 2 after_exit.procs
    × EndsWithChild
        (kwait_copies (λ addr. true) 64)
        1
        after_exit.procs
        (wait_pass (kwait_copies (λ addr. true) 64) 2 1 after_exit).0
kexit-wait_pass_example =
    kexit-wait_pass address 0 1 2 7 family
      (record no_proc { state = running; pid = 3; parent = some 1 })
      (record no_proc { state = sleeping; pid = 2; chan = 2 }) (λ e. cc) (λ e. cc) (λ e. cc)
      (unfold get_elem? in refl) refl (unfold get_elem? in refl) (λ e. refl)
      (kwait_copies (λ addr. true) 64) 2

-- Two processes that only compute, in the last queue.
abbrev worker : Proc
worker = record no_proc { state = running; pid = 1; priority = 3; ticks_used = 15 }

abbrev waiter : Proc
waiter = record no_proc { state = runnable; pid = 2; priority = 3 }

abbrev two_workers : Kernel
two_workers = record sample { procs = worker ∷ waiter ∷ [] }

worker_ends : slice_ends worker ≡ true
unfolding slice_ends
worker_ends = refl

timer_tick-schedule_mlfq_example : (schedule_mlfq (timer_tick mlfq 0 two_workers)).0 ≡ some 0
timer_tick-schedule_mlfq_example =
    timer_tick-schedule_mlfq [] worker (waiter ∷ []) sample refl worker_ends tt (refl, tt)
      (omega arith)
