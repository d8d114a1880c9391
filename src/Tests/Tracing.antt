-- ===== src/Tests/Tracing.antt =====
-- A traced process of `snoop`, and the mapped files of `spy`.
use mini_project.Common.{ℕ, ◌+◌, ◌-◌, some, List, [], ◌∷◌, ◌≡◌, refl}
use mini_project.Shell.Token.{Bytes}
use mini_project.Shell.Spy.{mem_files}
use mini_project.Shell.Spy.Maps.{AreMapped, mem_files-AreMapped}
use mini_project.Shell.Snoop.{Stop, gone, trap, trace_report}
use mini_project.Shell.Snoop.Counts.{Counts}
use mini_project.Shell.Snoop.Traced.{Happening, call, signal}

abbrev minus : ℕ → ℕ → ℕ
minus a b = a - b

abbrev plus : ℕ → ℕ → ℕ
plus a b = a + b

-- A read of 2 units of time, a write of 5, another read of 1, and the exit.
abbrev stops : List (Stop ℕ)
stops =
    trap (some (1, 10))
    ∷ trap (some (1, 15))
    ∷ trap (some (0, 20))
    ∷ trap (some (0, 22))
    ∷ trap (some (0, 30))
    ∷ trap (some (0, 31))
    ∷ trap (some (231, 40))
    ∷ gone
    ∷ []

read_first :
    trace_report minus plus stops
    ≡ record { sys_num = 0; total_time = 3; calls = 2; first_seen_order = 1 }
      ∷ record { sys_num = 1; total_time = 5; calls = 1; first_seen_order = 0 }
      ∷ []
unfolding trace_report
read_first = refl

-- The same calls, with a signal after the first, and the exit that does not return.
abbrev happened : List (Happening ℕ)
happened = call 1 10 15 ∷ signal ∷ call 0 20 22 ∷ call 0 30 31 ∷ []

-- Two lines of `maps` for one file.
abbrev map_lines : List Bytes
map_lines = (b'7' ∷ b' ' ∷ b'/' ∷ b'a' ∷ b'\n' ∷ []) ∷ (b'8' ∷ b' ' ∷ b'/' ∷ b'a' ∷ b'\n' ∷ []) ∷ []

listed_once : mem_files [] map_lines ≡ (b'/' ∷ b'a' ∷ []) ∷ []
unfolding mem_files
listed_once = refl

mem_files-AreMapped_example : AreMapped map_lines (mem_files [] map_lines)
mem_files-AreMapped_example = mem_files-AreMapped map_lines
