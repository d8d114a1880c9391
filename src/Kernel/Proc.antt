-- ===== src/Kernel/Proc.antt =====
-- The process table of xv6/kernel/proc.h and xv6/kernel/proc.c, as far as it is scheduled. A
-- pointer to a process is its index, `none` if it is null; a channel is an address, and 0 is no channel. An `int` or
-- `uint` is the 32-bit word that holds it, so that `ticks` wraps around and -1 is the largest word.
-- What is done under a lock is one step; memory, files and context switches are not modelled.
pub mod Wakeups
use mini_project.Common.{
  ℕ, zero, suc, ◌+◌, ◌-◌, ◌%◌, Bool, true, false, not, ◌&&◌, Option, none, some, List, [], ◌∷◌,
  ◌==◌, ltb, leb, if◌then◌else◌, find_index, get_elem?, modify, any,
}

abbrev pub word_size : ℕ
word_size = 4294967296

abbrev pub minus_one : ℕ
minus_one = 4294967295

-- `<` and `>= 0` on an `int`.
unfoldable pub int_lt : ℕ → ℕ → Bool
int_lt a b = ltb ((a + 2147483648) % 4294967296) ((b + 2147483648) % 4294967296)

unfoldable pub is_non_negative : ℕ → Bool
is_non_negative a = ltb a 2147483648

pub data ProcState : Type 0 where
  unused used sleeping runnable running zombie : ProcState

abbrev pub is_unused : ProcState → Bool
is_unused unused = true
is_unused _ = false

abbrev pub is_sleeping : ProcState → Bool
is_sleeping sleeping = true
is_sleeping _ = false

abbrev pub is_runnable : ProcState → Bool
is_runnable runnable = true
is_runnable _ = false

abbrev pub is_zombie : ProcState → Bool
is_zombie zombie = true
is_zombie _ = false

pub record Proc : Type 0 where
  pub state : ProcState
  pub chan : ℕ
  pub killed : Bool
  pub xstate : ℕ
  pub pid : ℕ
  pub priority : ℕ
  pub ticks_used : ℕ
  pub ctime : ℕ
  pub rtime : ℕ
  pub wtime : ℕ
  pub etime : ℕ
  pub first_run : ℕ
  pub parent : Option ℕ

-- `ticks_since_boost` is `mlfq_ticks_since_boost`.
pub record Kernel : Type 0 where
  pub procs : List Proc
  pub ticks : ℕ
  pub ticks_since_boost : ℕ
  pub nextpid : ℕ

-- Which scheduler the kernel was built with.
pub data Policy : Type 0 where
  fifo mlfq round_robin : Policy

abbrev pub no_proc : Proc
no_proc = record {
  state = unused;
  chan = 0;
  killed = false;
  xstate = 0;
  pid = 0;
  priority = 0;
  ticks_used = 0;
  ctime = 0;
  rtime = 0;
  wtime = 0;
  etime = 0;
  first_run = 0;
  parent = none;
}

abbrev pub no_procs : ℕ → List Proc
no_procs zero = []
no_procs (suc n) = no_proc ∷ no_procs n

-- NPROC slots, all zero.
abbrev pub initial_kernel : Kernel
initial_kernel = record { procs = no_procs 64; ticks = 0; ticks_since_boost = 0; nextpid = 1 }

unfoldable pub with_proc : ℕ → (Proc → Proc) → Kernel → Kernel
unfolding modify
with_proc i f k = record k { procs = modify i f k.procs }

unfoldable pub allocpid : Kernel → ℕ × Kernel
allocpid k = (k.nextpid, record k { nextpid = (k.nextpid + 1) % 4294967296 })

unfoldable pub freeproc : Proc → Proc
freeproc p = record p { pid = 0; chan = 0; killed = false; xstate = 0; state = unused }

unfoldable pub init_proc : ℕ → ℕ → Proc → Proc
init_proc pid ticks p = record p {
  pid = pid;
  state = used;
  priority = 0;
  ticks_used = 0;
  ctime = ticks;
  rtime = 0;
  wtime = 0;
  etime = 0;
  first_run = minus_one;
}

abbrev pub has_memory : Bool → ℕ → ℕ → Proc → Proc
has_memory true pid ticks p = init_proc pid ticks p
has_memory false pid ticks p = freeproc (record p { pid = pid; state = used })

abbrev pub slot_at : Bool → Option ℕ → Kernel → Option ℕ × Kernel
slot_at memory none k = (none, k)
slot_at memory (some i) k =
    let (pid, k') = allocpid k in
    let k'' = with_proc i (has_memory memory pid k'.ticks) k' in
    (if memory then some i else none, k'')

-- `memory` says whether the trapframe and the page table are allocated.
unfoldable pub allocproc : Bool → Kernel → Option ℕ × Kernel
unfolding with_proc allocpid freeproc init_proc find_index
allocproc memory k = slot_at memory (find_index (λ p. is_unused p.state) k.procs) k

abbrev pub set_runnable : Proc → Proc
set_runnable p = record p { state = runnable }

abbrev pub set_parent : Option ℕ → Proc → Proc
set_parent parent p = record p { parent = parent }

abbrev pub fork_at : Bool → ℕ → Option ℕ × Kernel → Option ℕ × Kernel
fork_at copied parent (none, k) = (none, k)
fork_at true parent (some i, k) =
    (some i, with_proc i (λ p. set_runnable (set_parent (some parent) p)) k)
fork_at false parent (some i, k) = (none, with_proc i freeproc k)

-- `copied` says whether the memory of the parent is copied.
unfoldable pub kfork : Bool → Bool → ℕ → Kernel → Option ℕ × Kernel
unfolding allocproc with_proc freeproc
kfork memory copied parent k = fork_at copied parent (allocproc memory k)

abbrev pub first_user : Option ℕ × Kernel → Option ℕ × Kernel
first_user (none, k) = (none, k)
first_user (some i, k) = (some i, with_proc i set_runnable k)

-- The result is `initproc`. Without memory for it the kernel reads a null pointer.
unfoldable pub userinit : Bool → Kernel → Option ℕ × Kernel
unfolding allocproc with_proc
userinit memory k = first_user (allocproc memory k)

-- The last part of `kexit`, behind the wakeups.
unfoldable pub become_zombie : ℕ → ℕ → Proc → Proc
become_zombie status ticks p = record p { etime = ticks; xstate = status; state = zombie }

unfoldable pub yield : ℕ → Kernel → Kernel
unfolding with_proc
yield i k = with_proc i set_runnable k

-- A zero channel panics; it leaves the process as it is here.
unfoldable pub sleep_prepare : ℕ → ℕ → Kernel → Kernel
unfolding with_proc
sleep_prepare i chan k = if chan == 0 then k else with_proc i (λ p. record p { chan = chan }) k

unfoldable pub fall_asleep : Policy → Proc → Proc
fall_asleep mlfq p = if p.chan == 0 then p else record p { state = sleeping; ticks_used = 0 }
fall_asleep _ p = if p.chan == 0 then p else record p { state = sleeping }

unfoldable pub sleep : Policy → ℕ → Kernel → Kernel
unfolding with_proc fall_asleep
sleep policy i k = with_proc i (fall_asleep policy) k

abbrev pub rouse : Proc → Proc
rouse p = if is_sleeping p.state then record p { state = runnable } else p

unfoldable pub wake_one : ℕ → Proc → Proc
wake_one chan p = if p.chan == chan then rouse (record p { chan = 0 }) else p

abbrev pub each : (Proc → Proc) → List Proc → List Proc
each f [] = []
each f (p ∷ ps) = f p ∷ each f ps

unfoldable pub wakeup : ℕ → Kernel → Kernel
unfolding wake_one
wakeup chan k = record k { procs = each (wake_one chan) k.procs }

unfoldable pub kill_first : ℕ → List Proc → Bool × List Proc
kill_first pid [] = (false, [])
kill_first pid (p ∷ ps) =
    let (found, rest) = kill_first pid ps in
    if p.pid == pid then (true, rouse (record p { killed = true }) ∷ ps) else (found, p ∷ rest)

-- 0 on success is `true`.
unfoldable pub kkill : ℕ → Kernel → Bool × Kernel
unfolding kill_first
kkill pid k = let (found, procs) = kill_first pid k.procs in (found, record k { procs = procs })

abbrev pub points_to : ℕ → Option ℕ → Bool
points_to i none = false
points_to i (some j) = j == i

abbrev pub is_child : ℕ → Proc → Bool
is_child i p = points_to i p.parent

abbrev pub pass_on : ℕ → ℕ → Proc → Proc
pass_on i init p = if is_child i p then set_parent (some init) p else p

-- The code wakes `initproc` at each child that it passes on; to wake it once more changes nothing.
-- `chan` is the address of `initproc`.
unfoldable pub reparent : ℕ → ℕ → ℕ → Kernel → Kernel
unfolding wakeup any
reparent i init chan k =
    let k' = record k { procs = each (pass_on i init) k.procs } in
    if any (is_child i) k.procs then wakeup chan k' else k'

-- The address of the process that a pointer points to.
abbrev pub address_of : (ℕ → ℕ) → Option ℕ → ℕ
address_of proc_at none = 0
address_of proc_at (some i) = proc_at i

abbrev pub parent_at : Option Proc → Option ℕ
parent_at none = none
parent_at (some p) = p.parent

-- `init` is the index of `initproc`, and `proc_at` gives the address of a slot. When `initproc`
-- itself exits the kernel panics; that leaves the table as it is here.
unfoldable pub kexit : (ℕ → ℕ) → ℕ → ℕ → ℕ → Kernel → Kernel
unfolding reparent wakeup with_proc become_zombie get_elem?
kexit proc_at init i status k =
    let k' = reparent i init (proc_at init) k in
    let k'' = wakeup (address_of proc_at (parent_at (get_elem? k'.procs i))) k' in
    if i == init then k else with_proc i (become_zombie status k''.ticks) k''

-- The times that `waitx` copies out for a zombie child before it frees it: its running time, its
-- waiting time and its response time.
unfoldable pub waitx_times : Proc → ℕ × ℕ × ℕ
unfolding is_non_negative
waitx_times p =
    let response =
      if is_non_negative p.first_run
      then (p.first_run + (4294967296 - p.ctime)) % 4294967296
      else 0 in
    (p.rtime, p.wtime, response)
