-- ===== src/Shell/Snoop.antt =====
-- The builtin snoop, c-shell/src/snoop.c: what its tokens ask for, and the statistics of the system
-- calls of the traced process. A reading of the clock and a duration are of a type that is a
-- parameter, with the difference and the sum that the code computes in `double`. A system call
-- number is the 64-bit word of a `long`.
pub mod Names
pub mod Counts
pub mod Report
pub mod Requests
pub mod Traced
use mini_project.Common.{
  ℕ, suc, ◌+◌, Bool, true, false, not, Option, none, some, List, [], ◌∷◌, ◌++◌, ◌==◌, ltb,
  if◌then◌else◌, length, any, update_first, sort_by,
}

-- `name` is `get_syscall_name sys_num`, or made of the number.
pub record SysStat (D : Type 0) : Type 0 where
  pub sys_num : ℕ
  pub total_time : D
  pub calls : ℕ
  pub first_seen_order : ℕ

abbrev pub max_syscalls : ℕ
max_syscalls = 1024

-- A stop of the traced process, as the tracing loop sees it: `ptrace` fails, the process has ended,
-- it has stopped by SIGTRAP (with the registers, if they can be read, and the clock), or otherwise.
pub data Stop (D : Type 0) : Type 0 where
  untraceable gone other_stop : Stop D
  trap : Option (ℕ × D) → Stop D

-- `in_syscall` is 1 when there is an entry that waits for its exit.
pub record Trace (D : Type 0) : Type 0 where
  pub sys_stats : List (SysStat D)
  pub first_seen_counter : ℕ
  pub entry : Option (ℕ × D)

-- `current_sys_num >= 0` on a `long`.
abbrev pub is_call : ℕ → Bool
is_call num = ltb num 9223372036854775808

module _ {D : Type 0} where
  abbrev pub is_of : ℕ → SysStat D → Bool
  is_of sys_num st = st.sys_num == sys_num

  abbrev pub new_stat : ℕ → D → ℕ → SysStat D
  new_stat sys_num duration order = record {
    sys_num = sys_num;
    total_time = duration;
    calls = 1;
    first_seen_order = order;
  }

  -- `compare_sys_stats`, as whether the first does not come behind the second.
  abbrev pub stat_le : SysStat D → SysStat D → Bool
  stat_le a b =
      if a.calls == b.calls
      then not (ltb b.first_seen_order a.first_seen_order)
      else ltb b.calls a.calls

  abbrev pub trace_start : Trace D
  trace_start = record { sys_stats = []; first_seen_counter = 0; entry = none }

module _ {D : Type 0} (elapsed plus : D → D → D) where
  abbrev pub count_call : D → SysStat D → SysStat D
  count_call duration st = record st {
    calls = st.calls + 1;
    total_time = plus st.total_time duration;
  }

  -- A call that is not in the table is dropped when the table is full.
  unfoldable pub add_syscall_time : ℕ → D → Trace D → Trace D
  unfolding any update_first
  add_syscall_time sys_num duration t =
      if any (is_of sys_num) t.sys_stats
      then record t { sys_stats = update_first (is_of sys_num) (count_call duration) t.sys_stats }
      else if ltb (length t.sys_stats) max_syscalls
      then record t {
        sys_stats = t.sys_stats ++ new_stat sys_num duration t.first_seen_counter ∷ [];
        first_seen_counter = t.first_seen_counter + 1;
      }
      else t

  abbrev pub record_exit : ℕ → D → D → Trace D → Trace D
  record_exit num start now t =
      if is_call num then add_syscall_time num (elapsed now start) t else t

  -- The stops come in turns as entries and exits.
  abbrev pub on_trap : ℕ → D → Option (ℕ × D) → Trace D → Trace D
  on_trap num now none t = record t { entry = some (num, now) }
  on_trap num now (some (current, start)) t =
      record_exit current start now (record t { entry = none })

  unfoldable pub trace_loop : List (Stop D) → Trace D → Trace D
  unfolding add_syscall_time
  trace_loop [] t = t
  trace_loop (untraceable ∷ stops) t = t
  trace_loop (gone ∷ stops) t = t
  trace_loop (other_stop ∷ stops) t = trace_loop stops t
  trace_loop (trap none ∷ stops) t = trace_loop stops t
  trace_loop (trap (some (num, now)) ∷ stops) t = trace_loop stops (on_trap num now t.entry t)

  -- The statistics as they are printed for a traced process.
  unfoldable pub trace_report : List (Stop D) → List (SysStat D)
  unfolding trace_loop sort_by
  trace_report stops = sort_by stat_le (trace_loop stops trace_start).sys_stats
