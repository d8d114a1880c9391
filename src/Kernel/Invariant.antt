-- ===== src/Kernel/Invariant.antt =====
-- Every state that the kernel reaches by the steps of its scheduling, and how a property of every
-- slot of the process table is kept by them. A step may name any slot; the kernel takes a step only
-- for a process in the state for it.
pub mod Queues
pub mod Response
use mini_project.Common.{
  ℕ, zero, suc, ◌+◌, ◌-◌, ◌%◌, Bool, true, false, Option, none, some, List, [], ◌∷◌, ◌≡◌, refl,
  subst, sym, inl, inr, Bool-cases, if_elim, if◌then◌else◌, ◌==◌, ltb, leb, All, modify, find_index,
  get_elem?, any, not, ◌&&◌,
}
use mini_project.Kernel.Proc.{
  Proc, ProcState, Kernel, Policy, fifo, mlfq, round_robin, unused, used, runnable, running,
  is_unused, is_sleeping, is_runnable, initial_kernel, no_proc, no_procs, with_proc, allocpid,
  freeproc, init_proc, has_memory, slot_at, allocproc, set_runnable, fork_at, kfork, first_user,
  userinit, become_zombie, yield, sleep_prepare, fall_asleep, sleep, rouse, wake_one, each, wakeup,
  kill_first, kkill, kexit, set_parent, is_child, pass_on, reparent, address_of, parent_at,
}
use mini_project.Kernel.Family.{
  WaitEnd, wait_pass, wait_at, found_child, copies_at, killed_at, reap_child,
}
use mini_project.Kernel.Scheduler.{
  start_first, start_fifo, schedule_fifo, find_earliest, boost_proc, boost, find_queue, set_running,
  start, schedule_mlfq,
}
use mini_project.Kernel.Trap.{
  clockintr, add_rtime, add_wtime, account, use_tick, yields, spend, timer_tick,
}

-- The choice of a process, by the scheduler of the policy; under round robin it is the visit of
-- a slot.
abbrev pub dispatch : Policy → ℕ → Kernel → Kernel
dispatch fifo i k = (schedule_fifo k).1
dispatch mlfq i k = (schedule_mlfq k).1
dispatch round_robin i k = with_proc i set_running k

pub data Step (policy : Policy) : Kernel → Kernel → Type 0 where
  boot : (memory : Bool) (k : Kernel) → Step policy k (userinit memory k).1
  fork :
      (memory copied : Bool) (parent : ℕ) (k : Kernel)
      → Step policy k (kfork memory copied parent k).1
  exit :
      (proc_at : ℕ → ℕ) (init i status : ℕ) (k : Kernel)
      → Step policy k (kexit proc_at init i status k)
  wait :
      (copies : Proc → Option (List (ℕ × ℕ))) (chan i : ℕ) (k : Kernel)
      → Step policy k (wait_pass copies chan i k).1
  give_up : (i : ℕ) (k : Kernel) → Step policy k (yield i k)
  prepare : (i chan : ℕ) (k : Kernel) → Step policy k (sleep_prepare i chan k)
  doze : (i : ℕ) (k : Kernel) → Step policy k (sleep policy i k)
  wake : (chan : ℕ) (k : Kernel) → Step policy k (wakeup chan k)
  kill : (pid : ℕ) (k : Kernel) → Step policy k (kkill pid k).1
  choose : (i : ℕ) (k : Kernel) → Step policy k (dispatch policy i k)
  clock : (address : ℕ) (k : Kernel) → Step policy k (clockintr address k)
  tick : (i : ℕ) (k : Kernel) → Step policy k (timer_tick policy i k)

pub data Reachable (policy : Policy) : Kernel → Type 0 where
  at_start : Reachable policy initial_kernel
  after : {k l : Kernel} → Reachable policy k → Step policy k l → Reachable policy l

-- A property of a slot that everything keeps that the kernel does to a slot.
pub record IsKept (policy : Policy) (P : Proc → Type 0) : Type 0 where
  pub at_first : P no_proc
  pub by_init : (pid ticks : ℕ) (p : Proc) → P p → P (init_proc pid ticks p)
  pub by_free : (pid : ℕ) (p : Proc) → P p → P (freeproc (record p { pid = pid; state = used }))
  pub by_reap : (p : Proc) → P p → P (freeproc p)
  pub by_state : (s : ProcState) (p : Proc) → P p → P (record p { state = s })
  pub by_chan : (chan : ℕ) (p : Proc) → P p → P (record p { chan = chan })
  pub by_parent : (parent : Option ℕ) (p : Proc) → P p → P (record p { parent = parent })
  pub by_kill : (p : Proc) → P p → P (record p { killed = true })
  pub by_exit : (status ticks : ℕ) (p : Proc) → P p → P (become_zombie status ticks p)
  pub by_sleep : (p : Proc) → P p → P (fall_asleep policy p)
  pub by_times : (rtime wtime : ℕ) (p : Proc) → P p → P (record p { rtime = rtime; wtime = wtime })
  pub by_boost : (p : Proc) → P p → P (boost_proc p)
  pub by_tick : (p : Proc) → P p → P (use_tick p)
  pub by_dispatch : (i : ℕ) (k : Kernel) → All P k.procs → All P (dispatch policy i k).procs

module _ (P : Proc → Type 0) where
  pub All-modify :
      (i : ℕ) (f : Proc → Proc) (ps : List Proc)
      → ((p : Proc) → P p → P (f p))
      → All P ps
      → All P (modify i f ps)
  unfolding modify
  All-modify i f [] h a = tt
  All-modify zero f (p ∷ ps) h a = (h p a.0, a.1)
  All-modify (suc i) f (p ∷ ps) h a = (a.0, All-modify i f ps h a.1)

  pub All-each :
      (f : Proc → Proc) (ps : List Proc)
      → ((p : Proc) → P p → P (f p))
      → All P ps
      → All P (each f ps)
  All-each f [] h a = tt
  All-each f (p ∷ ps) h a = (h p a.0, All-each f ps h a.1)

  keep_with :
      (i : ℕ) (f : Proc → Proc) (k : Kernel)
      → ((p : Proc) → P p → P (f p))
      → All P k.procs
      → All P (with_proc i f k).procs
  unfolding with_proc
  keep_with i f k h a = All-modify i f k.procs h a

  keep_start :
      ((p : Proc) → P p → P (set_running p))
      → (o : Option ℕ) (k : Kernel) → All P k.procs
      → All P (start o k).1.procs
  keep_start h none k a = a
  keep_start h (some i) k a = keep_with i set_running k h a

  pub keep_mlfq :
      ((p : Proc) → P p → P (set_running p))
      → ((p : Proc) → P p → P (boost_proc p))
      → (k : Kernel) → All P k.procs
      → All P (schedule_mlfq k).1.procs
  unfolding schedule_mlfq boost
  keep_mlfq h b k a = keep_start h (find_queue 4 0 (boost k).procs) (boost k) (
      if_elim (λ (l : Kernel). All P l.procs)
        (leb 48 ((k.ticks + (4294967296 - k.ticks_since_boost)) % 4294967296))
        (All-each boost_proc k.procs b a) a)

  keep_first :
      ((ticks : ℕ) (p : Proc) → P p → P (start_first ticks p))
      → (o : Option ℕ) (k : Kernel) → All P k.procs
      → All P (start_fifo o k).1.procs
  keep_first h none k a = a
  keep_first h (some i) k a = keep_with i (start_first k.ticks) k (h k.ticks) a

  pub keep_fifo :
      ((ticks : ℕ) (p : Proc) → P p → P (start_first ticks p))
      → (k : Kernel) → All P k.procs
      → All P (schedule_fifo k).1.procs
  unfolding schedule_fifo
  keep_fifo h k a = keep_first h (find_earliest 0 none k.procs) k a

  pub keep_visit :
      ((p : Proc) → P p → P (set_running p))
      → (i : ℕ) (k : Kernel) → All P k.procs
      → All P (with_proc i set_running k).procs
  keep_visit h i k a = keep_with i set_running k h a

module _ (policy : Policy) (P : Proc → Type 0) (kept : IsKept policy P) where
  keep_rouse : (p : Proc) → P p → P (rouse p)
  keep_rouse p h = if_elim P (is_sleeping p.state) (kept.by_state runnable p h) h

  keep_wake : (chan : ℕ) (p : Proc) → P p → P (wake_one chan p)
  unfolding wake_one
  keep_wake chan p h =
      if_elim P (p.chan == chan) (keep_rouse (record p { chan = 0 }) (kept.by_chan 0 p h)) h

  keep_wakeup : (chan : ℕ) (k : Kernel) → All P k.procs → All P (wakeup chan k).procs
  unfolding wakeup
  keep_wakeup chan k a = All-each P (wake_one chan) k.procs (keep_wake chan) a

  keep_memory : (memory : Bool) (pid ticks : ℕ) (p : Proc) → P p → P (has_memory memory pid ticks p)
  keep_memory true pid ticks p h = kept.by_init pid ticks p h
  keep_memory false pid ticks p h = kept.by_free pid p h

  keep_slot :
      (memory : Bool) (o : Option ℕ) (k : Kernel)
      → All P k.procs
      → All P (slot_at memory o k).1.procs
  unfolding allocpid
  keep_slot memory none k a = a
  keep_slot memory (some i) k a =
      keep_with P i _ (allocpid k).1 (keep_memory memory k.nextpid k.ticks) a

  keep_fork :
      (copied : Bool) (parent : ℕ) (o : Option ℕ) (k : Kernel)
      → All P k.procs
      → All P (fork_at copied parent (o, k)).1.procs
  keep_fork copied parent none k a = a
  keep_fork true parent (some i) k a =
      keep_with P i _ k (λ p h. kept.by_state runnable _ (kept.by_parent (some parent) p h)) a
  keep_fork false parent (some i) k a = keep_with P i freeproc k kept.by_reap a

  keep_reparent :
      (i init chan : ℕ) (k : Kernel) → All P k.procs → All P (reparent i init chan k).procs
  unfolding reparent
  keep_reparent i init chan k a =
      let passed =
        All-each P (pass_on i init) k.procs
          (λ p h. if_elim P (is_child i p) (kept.by_parent (some init) p h) h) a in
      if_elim (λ (l : Kernel). All P l.procs) (any (is_child i) k.procs)
        (keep_wakeup chan (record k { procs = each (pass_on i init) k.procs }) passed) passed

  keep_prepare : (i chan : ℕ) (k : Kernel) → All P k.procs → All P (sleep_prepare i chan k).procs
  unfolding sleep_prepare
  keep_prepare i chan k a =
      if_elim (λ (l : Kernel). All P l.procs) (chan == 0) a
        (keep_with P i _ k (kept.by_chan chan) a)

  keep_found :
      (o : Option (List (ℕ × ℕ))) (i pid : ℕ) (k : Kernel)
      → All P k.procs
      → All P (found_child o i pid k).1.procs
  keep_found none i pid k a = a
  keep_found (some writes) i pid k a =
      keep_with P i reap_child k (λ p h. kept.by_reap _ (kept.by_parent none p h)) a

  keep_at :
      (copies : Proc → Option (List (ℕ × ℕ))) (chan i : ℕ) (o : Option ℕ) (k : Kernel)
      → All P k.procs
      → All P (wait_at copies chan i o k).1.procs
  keep_at copies chan i none k a =
      if_elim (λ (r : WaitEnd × Kernel). All P r.1.procs)
        (any (is_child i) k.procs && not (killed_at (get_elem? k.procs i)))
        (keep_prepare i chan k a) a
  keep_at copies chan i (some j) k a = keep_found (copies_at copies (get_elem? k.procs j)) j _ k a

  keep_wait :
      (copies : Proc → Option (List (ℕ × ℕ))) (chan i : ℕ) (k : Kernel)
      → All P k.procs
      → All P (wait_pass copies chan i k).1.procs
  unfolding wait_pass
  keep_wait copies chan i k a = keep_at copies chan i _ k a

  keep_kill : (pid : ℕ) (ps : List Proc) → All P ps → All P (kill_first pid ps).1
  unfolding kill_first
  keep_kill pid [] a = tt
  keep_kill pid (p ∷ ps) a =
      if_elim (λ (r : Bool × List Proc). All P r.1) (p.pid == pid)
        (keep_rouse (record p { killed = true }) (kept.by_kill p a.0), a.1)
        (a.0, keep_kill pid ps a.1)

  keep_wtime : (p : Proc) → P p → P (add_wtime p)
  unfolding add_wtime
  keep_wtime p h =
      if_elim P (is_runnable p.state) (kept.by_times p.rtime ((p.wtime + 1) % 4294967296) p h) h

  keep_account : (i : ℕ) (ps : List Proc) → All P ps → All P (account i ps)
  unfolding account add_rtime
  keep_account i [] a = tt
  keep_account zero (p ∷ ps) a = (
    kept.by_times ((p.rtime + 1) % 4294967296) p.wtime p a.0,
    All-each P add_wtime ps keep_wtime a.1,
  )
  keep_account (suc i) (p ∷ ps) a = (keep_wtime p a.0, keep_account i ps a.1)

  keep_spend :
      (spender : Policy) (i : ℕ) (k : Kernel) → All P k.procs → All P (spend spender i k).procs
  keep_spend mlfq i k a = keep_with P i use_tick k kept.by_tick a
  keep_spend fifo i k a = a
  keep_spend round_robin i k a = a

  keep_yield : (i : ℕ) (k : Kernel) → All P k.procs → All P (yield i k).procs
  unfolding yield
  keep_yield i k a = keep_with P i set_runnable k (kept.by_state runnable) a

  keep_boot : (o : Option ℕ) (k : Kernel) → All P k.procs → All P (first_user (o, k)).1.procs
  keep_boot none k a = a
  keep_boot (some i) k a = keep_with P i set_runnable k (kept.by_state runnable) a

  Step-All : {k l : Kernel} → Step policy k l → All P k.procs → All P l.procs
  unfolding userinit kfork allocproc kexit sleep_prepare sleep kkill timer_tick clockintr
  Step-All (boot memory k) a =
      let (o, l) = slot_at memory (find_index (λ p. is_unused p.state) k.procs) k in
      keep_boot o l (keep_slot memory (find_index (λ p. is_unused p.state) k.procs) k a)
  Step-All (fork memory copied parent k) a =
      let (o, l) = slot_at memory (find_index (λ p. is_unused p.state) k.procs) k in
      keep_fork copied parent o l
        (keep_slot memory (find_index (λ p. is_unused p.state) k.procs) k a)
  Step-All (exit proc_at init i status k) a =
      let k' = reparent i init (proc_at init) k in
      let chan = address_of proc_at (parent_at (get_elem? k'.procs i)) in
      if_elim (λ (l : Kernel). All P l.procs) (i == init) a
        (keep_with P i _ (wakeup chan k') (kept.by_exit status (wakeup chan k').ticks)
          (keep_wakeup chan k' (keep_reparent i init (proc_at init) k a)))
  Step-All (wait copies chan i k) a = keep_wait copies chan i k a
  Step-All (give_up i k) a = keep_yield i k a
  Step-All (prepare i chan k) a = keep_prepare i chan k a
  Step-All (doze i k) a = keep_with P i (fall_asleep policy) k kept.by_sleep a
  Step-All (wake chan k) a = keep_wakeup chan k a
  Step-All (kill pid k) a = keep_kill pid k.procs a
  Step-All (choose i k) a = kept.by_dispatch i k a
  Step-All (clock address k) a =
      keep_wakeup address (record k { ticks = (k.ticks + 1) % 4294967296 }) a
  Step-All (tick i k) a =
      let k' = record k { procs = account i k.procs } in
      let spent = keep_spend policy i k' (keep_account i k.procs a) in
      if_elim (λ (l : Kernel). All P l.procs) (yields policy k'.procs (get_elem? k'.procs i))
        (keep_yield i (spend policy i k') spent) spent

  all_first : (n : ℕ) → All P (no_procs n)
  all_first zero = tt
  all_first (suc n) = (kept.at_first, all_first n)

  -- What everything keeps holds of every slot of every table that is reached.
  pub Reachable-All : {k : Kernel} → Reachable policy k → All P k.procs
  Reachable-All at_start = all_first 64
  Reachable-All (after r s) = Step-All s (Reachable-All r)
