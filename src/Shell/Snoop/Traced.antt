-- ===== src/Shell/Snoop/Traced.antt =====
-- What `snoop` of c-shell/src/snoop.c reports of a process whose system calls are known.
use mini_project.Common.{ℕ, ◌+◌, Option, none, some, List, [], ◌∷◌, ◌==◌, if◌then◌else◌}
use mini_project.Shell.Snoop.{Stop, gone, other_stop, trap, is_call}
use mini_project.Shell.Snoop.Counts.{one_if, Counts}

-- What happens to a process: a system call, with its number and the clock at its entry and at its
-- exit, or a stop by a signal that is not SIGTRAP.
pub data Happening (D : Type 0) : Type 0 where
  call : ℕ → D → D → Happening D
  signal : Happening D

module _ {D : Type 0} where
  -- The stops of the process until it has ended, when the kernel stops it at the entry and at the
  -- exit of each call and by no other SIGTRAP; it may end in a call that does not return.
  unfoldable pub stops_of : List (Happening D) → Option (ℕ × D) → List (Stop D)
  stops_of [] none = gone ∷ []
  stops_of [] (some entry) = trap (some entry) ∷ gone ∷ []
  stops_of (call num start end ∷ hs) last =
      trap (some (num, start)) ∷ trap (some (num, end)) ∷ stops_of hs last
  stops_of (signal ∷ hs) last = other_stop ∷ stops_of hs last

  -- How often a call was made that has returned.
  unfoldable pub times : ℕ → List (Happening D) → ℕ
  times n [] = 0
  times n (call num start end ∷ hs) = one_if (num == n) + times n hs
  times n (signal ∷ hs) = times n hs

  -- A negative number is not that of a call.
  abbrev pub call_times : List (Happening D) → ℕ → ℕ
  call_times hs n = if is_call n then times n hs else 0
