-- ===== src/Kernel/Scheduler.antt =====
-- The three schedulers of xv6/kernel/proc.c: what one round of the loop in `scheduler` decides.
pub mod Fifo
pub mod Mlfq
pub mod RoundRobin
use mini_project.Common.{
  ℕ, zero, suc, ◌+◌, ◌-◌, ◌%◌, Bool, true, false, ◌&&◌, Option, none, some, List, [], ◌∷◌, ◌==◌,
  ltb, leb, if◌then◌else◌, find_index, get_elem?, modify,
}
use mini_project.Kernel.Proc.{
  Proc, Kernel, Policy, fifo, mlfq, round_robin, ProcState, running, is_runnable, int_lt, minus_one,
  with_proc, each,
}

-- Whether `p` is older than the process held so far.
unfoldable pub is_earlier : Option (ℕ × ℕ) → ℕ → Bool
unfolding int_lt
is_earlier none ctime = true
is_earlier (some (i, earliest)) ctime = int_lt ctime earliest

-- The loop of the FIFO scheduler from slot `i` on; `earliest` is the index that is held, with its
-- creation time.
unfoldable pub find_earliest : ℕ → Option (ℕ × ℕ) → List Proc → Option ℕ
unfolding is_earlier
find_earliest i none [] = none
find_earliest i (some (e, ctime)) [] = some e
find_earliest i earliest (p ∷ ps) =
    let take = is_runnable p.state && is_earlier earliest p.ctime in
    find_earliest (i + 1) (if take then some (i, p.ctime) else earliest) ps

unfoldable pub start_first : ℕ → Proc → Proc
start_first ticks p =
    let p' = if p.first_run == 4294967295 then record p { first_run = ticks } else p in
    record p' { state = running }

abbrev pub start_fifo : Option ℕ → Kernel → Option ℕ × Kernel
start_fifo none k = (none, k)
start_fifo (some i) k = (some i, with_proc i (start_first k.ticks) k)

-- The process that runs next, or `none` when the processor waits for an interrupt.
unfoldable pub schedule_fifo : Kernel → Option ℕ × Kernel
unfolding find_earliest start_first with_proc
schedule_fifo k = start_fifo (find_earliest 0 none k.procs) k

unfoldable pub boost_proc : Proc → Proc
boost_proc p = record p { priority = 0; ticks_used = 0 }

-- Every 48 ticks all processes go back to queue 0.
unfoldable pub boost : Kernel → Kernel
unfolding boost_proc
boost k =
    if leb 48 ((k.ticks + (4294967296 - k.ticks_since_boost)) % 4294967296)
    then record k { ticks_since_boost = k.ticks; procs = each boost_proc k.procs }
    else k

abbrev pub in_queue : ℕ → Proc → Bool
in_queue q p = is_runnable p.state && p.priority == q

abbrev pub or_next : Option ℕ → Option ℕ → Option ℕ
or_next none b = b
or_next (some i) b = some i

-- `n` queues from `q` on.
unfoldable pub find_queue : ℕ → ℕ → List Proc → Option ℕ
unfolding find_index
find_queue zero q ps = none
find_queue (suc n) q ps =
    let later = find_queue n (q + 1) ps in or_next (find_index (in_queue q) ps) later

abbrev pub set_running : Proc → Proc
set_running p = record p { state = running }

abbrev pub start : Option ℕ → Kernel → Option ℕ × Kernel
start none k = (none, k)
start (some i) k = (some i, with_proc i set_running k)

unfoldable pub schedule_mlfq : Kernel → Option ℕ × Kernel
unfolding boost find_queue with_proc
schedule_mlfq k = let k' = boost k in start (find_queue 4 0 k'.procs) k'

abbrev pub visit : Option Proc → Bool
visit none = false
visit (some p) = is_runnable p.state

-- The loop of the round robin scheduler over `n` slots from slot `i` on; `run` is what the kernel
-- does from the switch to a process until its return. The result is whether one ran.
unfoldable pub round_robin_pass : (ℕ → Kernel → Kernel) → ℕ → ℕ → Kernel → Bool × Kernel
unfolding with_proc get_elem?
round_robin_pass run zero i k = (false, k)
round_robin_pass run (suc n) i k =
    let turn = visit (get_elem? k.procs i) in
    let k' = if turn then run i (with_proc i set_running k) else k in
    let (found, k'') = round_robin_pass run n (i + 1) k' in (if turn then true else found, k'')
