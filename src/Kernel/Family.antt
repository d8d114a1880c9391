-- ===== src/Kernel/Family.antt =====
-- The waiting of a parent for a child in xv6/kernel/proc.c: one scan of `kwait` or `waitx` over
-- the process table, with what follows it. `copies` gives what is copied out to the parent for a
-- child, as addresses and values, or `none` if a copy fails; what was written before it is not kept.
pub mod Woken
pub mod Scan
pub mod Orphans
use mini_project.Common.{
  ℕ, ◌+◌, Bool, true, false, not, ◌&&◌, ◌||◌, Option, none, some, List, [], ◌∷◌, ◌++◌, ◌==◌,
  if◌then◌else◌, find_index, get_elem?, any,
}
use mini_project.Kernel.Proc.{
  Proc, Kernel, ProcState, is_zombie, with_proc, freeproc, set_parent, sleep_prepare, is_child,
  waitx_times,
}

pub data WaitEnd : Type 0 where
  returned : ℕ → List (ℕ × ℕ) → WaitEnd
  failed sleeps : WaitEnd

abbrev pub is_zombie_child : ℕ → Proc → Bool
is_zombie_child i p = is_child i p && is_zombie p.state

abbrev pub reap_child : Proc → Proc
reap_child p = freeproc (set_parent none p)

abbrev pub found_child : Option (List (ℕ × ℕ)) → ℕ → ℕ → Kernel → WaitEnd × Kernel
found_child none i pid k = (failed, k)
found_child (some writes) i pid k = (returned pid writes, with_proc i reap_child k)

abbrev pub copies_at : (Proc → Option (List (ℕ × ℕ))) → Option Proc → Option (List (ℕ × ℕ))
copies_at copies none = none
copies_at copies (some p) = copies p

abbrev pub pid_at : Option Proc → ℕ
pid_at none = 0
pid_at (some p) = p.pid

abbrev pub killed_at : Option Proc → Bool
killed_at none = false
killed_at (some p) = p.killed

-- `found` is the first child that has exited. With another child and not killed, the process
-- prepares to sleep on its own address `chan`.
abbrev pub wait_at : (Proc → Option (List (ℕ × ℕ))) → ℕ → ℕ → Option ℕ → Kernel → WaitEnd × Kernel
wait_at copies chan i (some j) k =
    found_child (copies_at copies (get_elem? k.procs j)) j (pid_at (get_elem? k.procs j)) k
wait_at copies chan i none k =
    if any (is_child i) k.procs && not (killed_at (get_elem? k.procs i))
    then (sleeps, sleep_prepare i chan k)
    else (failed, k)

unfoldable pub wait_pass : (Proc → Option (List (ℕ × ℕ))) → ℕ → ℕ → Kernel → WaitEnd × Kernel
unfolding find_index any with_proc freeproc sleep_prepare get_elem?
wait_pass copies chan i k = wait_at copies chan i (find_index (is_zombie_child i) k.procs) k

-- One `copyout`, which is left out for a null address.
unfoldable pub copy_out : (ℕ → Bool) → ℕ → ℕ → Option (List (ℕ × ℕ)) → Option (List (ℕ × ℕ))
copy_out writable addr value none = none
copy_out writable addr value (some writes) =
    if addr == 0
    then some writes
    else if writable addr
    then some (writes ++ (addr, value) ∷ [])
    else none

unfoldable pub kwait_copies : (ℕ → Bool) → ℕ → Proc → Option (List (ℕ × ℕ))
unfolding copy_out
kwait_copies writable addr p = copy_out writable addr p.xstate (some [])

unfoldable pub waitx_copies : (ℕ → Bool) → ℕ → ℕ → ℕ → ℕ → Proc → Option (List (ℕ × ℕ))
unfolding copy_out waitx_times
waitx_copies writable addr rtime wtime retime p =
    let (running_time, waiting_time, response_time) = waitx_times p in
    copy_out writable retime response_time (
      copy_out writable wtime waiting_time
        (copy_out writable rtime running_time (copy_out writable addr p.xstate (some []))))

-- One scan of `kwait`, and one of `waitx`, by process `i` whose address is `chan`.
unfoldable pub kwait : (ℕ → Bool) → ℕ → ℕ → ℕ → Kernel → WaitEnd × Kernel
unfolding wait_pass kwait_copies
kwait writable addr chan i k = wait_pass (kwait_copies writable addr) chan i k

unfoldable pub waitx : (ℕ → Bool) → ℕ → ℕ → ℕ → ℕ → ℕ → ℕ → Kernel → WaitEnd × Kernel
unfolding wait_pass waitx_copies
waitx writable addr rtime wtime retime chan i k =
    wait_pass (waitx_copies writable addr rtime wtime retime) chan i k
