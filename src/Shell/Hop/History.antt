-- ===== src/Shell/Hop/History.antt =====
-- The history file of c-shell/src/hop.c: `save_history` and `load_history`. A file is its bytes,
-- none of which is 0; `none` is a file that cannot be opened. The numbers of the file are natural:
-- a line with a sign, which `save_history` does not write, counts as one without two numbers.
pub mod RoundTrip
use mini_project.Common.{
  ℕ, zero, suc, ◌+◌, ◌-◌, Bool, true, false, ◌&&◌, ◌||◌, Option, none, some, List, [], ◌∷◌, ◌++◌,
  ◌==◌, leb, if◌then◌else◌, take,
}
use mini_project.Shell.Token.{Bytes}
use mini_project.Shell.Builtins.{isdigit}
use mini_project.Shell.Decimal.{print_nat, read_digits}
use mini_project.Shell.Hop.{Entry, max_entries}

-- `fprintf` with "%d %ld %s\n".
unfoldable pub print_entry : Entry → Bytes
unfolding print_nat
print_entry e =
    print_nat e.frequency ++ (b' ' ∷ (print_nat e.last_access ++ (b' ' ∷ (e.path ++ b'\n' ∷ []))))

unfoldable pub save_history : List Entry → Bytes
unfolding print_entry
save_history [] = []
save_history (e ∷ db) = print_entry e ++ save_history db

abbrev pub last_line : Bytes → List Bytes
last_line [] = []
last_line (c ∷ s) = (c ∷ s) ∷ []

abbrev pub line_room : ℕ
line_room = 4223

-- The calls of `fgets` with a buffer of PATH_MAX + 128 bytes: `line` is what the current one has
-- read, and `room` what it still has room for.
unfoldable pub fgets_from : Bytes → ℕ → Bytes → List Bytes
fgets_from line room [] = last_line line
fgets_from line zero (c ∷ s) = elim (c == b'\n') [
  | true ↦ line ∷ (c ∷ []) ∷ fgets_from [] line_room s
  | false ↦ line ∷ fgets_from (c ∷ []) (line_room - 1) s
]
fgets_from line (suc room) (c ∷ s) = elim (c == b'\n') [
  | true ↦ (line ++ c ∷ []) ∷ fgets_from [] line_room s
  | false ↦ fgets_from (line ++ c ∷ []) room s
]

-- `isspace`.
abbrev pub is_space : ℕ → Bool
is_space c = c == b' ' || leb 9 c && leb c 13

abbrev pub is_blank : ℕ → Bool
is_blank c = c == b' ' || c == b'\t'

abbrev pub is_digit_or_dash : ℕ → Bool
is_digit_or_dash c = isdigit c || c == b'-'

unfoldable pub skip : (ℕ → Bool) → Bytes → Bytes
skip test [] = []
skip test (c ∷ s) = let rest = skip test s in if test c then rest else c ∷ s

-- One number of `sscanf`, and what stands behind it.
abbrev pub number_at : Bytes → Option (ℕ × Bytes)
number_at [] = none
number_at (c ∷ s) = if isdigit c then some (read_digits 0 (c ∷ s)) else none

abbrev pub second_number : Option (ℕ × Bytes) → Option (ℕ × ℕ)
second_number none = none
second_number (some (freq, rest)) = elim (number_at (skip is_space rest)) [
  | none ↦ none
  | some (last, more) ↦ some (freq, last)
]

-- `sscanf` with "%d %ld", when it gives 2.
unfoldable pub scan_numbers : Bytes → Option (ℕ × ℕ)
unfolding read_digits skip
scan_numbers line = second_number (number_at (skip is_space line))

abbrev pub is_end : ℕ → Bool
is_end c = c == b'\n' || c == b'\r'

abbrev pub keep_end : ℕ → Bytes → Bytes
keep_end c [] = if is_end c then [] else c ∷ []
keep_end c (d ∷ s) = c ∷ d ∷ s

-- Without the newlines and carriage returns at the end.
unfoldable pub strip_end : Bytes → Bytes
strip_end [] = []
strip_end (c ∷ s) = keep_end c (strip_end s)

-- The path behind the two numbers.
unfoldable pub path_part : Bytes → Bytes
unfolding skip strip_end
path_part line =
    strip_end
      (skip is_blank (skip is_digit_or_dash (skip is_blank (skip isdigit (skip is_blank line)))))

abbrev pub entry_of : Option (ℕ × ℕ) → Bytes → Option Entry
entry_of none p = none
entry_of (some (freq, last)) [] = none
entry_of (some (freq, last)) (c ∷ p) =
    some (record { path = take 4095 (c ∷ p); frequency = freq; last_access = last })

unfoldable pub load_line : Bytes → Option Entry
unfolding scan_numbers path_part
load_line line = entry_of (scan_numbers line) (path_part line)

-- `room` is what is left of `db`.
unfoldable pub load_lines : ℕ → List Bytes → List Entry
unfolding load_line
load_lines zero lines = []
load_lines (suc room) [] = []
load_lines (suc room) (line ∷ lines) = elim (load_line line) [
  | none ↦ load_lines (suc room) lines
  | some e ↦ e ∷ load_lines room lines
]

unfoldable pub load_history : Option Bytes → List Entry → List Entry
unfolding load_lines fgets_from
load_history none db = db
load_history (some file) db = load_lines max_entries (fgets_from [] line_room file)

abbrev pub history_name : Bytes
history_name = b'/' ∷ b'h' ∷ b'o' ∷ b'p' ∷ b'_' ∷ b'h' ∷ b'i' ∷ b's' ∷ b't' ∷ []

-- What stands before the last slash; `none` without a slash.
unfoldable pub before_last_slash : Bytes → Option Bytes
before_last_slash [] = none
before_last_slash (c ∷ s) = elim (before_last_slash s) [
  | none ↦ (if c == b'/' then some [] else none)
  | some dir ↦ some (c ∷ dir)
]

-- `snprintf` with PATH_MAX.
abbrev pub home_history : Bytes → Bytes
home_history home_dir = take 4095 (home_dir ++ history_name)

-- `exe_path` is what `readlink` gives, without its end; an empty answer is as none.
unfoldable pub find_history : Option Bytes → Bytes → Bytes
unfolding before_last_slash
find_history none home_dir = home_history home_dir
find_history (some []) home_dir = home_history home_dir
find_history (some (c ∷ s)) home_dir = elim (before_last_slash (c ∷ s)) [
  | none ↦ home_history home_dir
  | some dir ↦ take 4081 dir ++ history_name
]

-- The paths of `hop` and its database.
pub record HopStart : Type 0 where
  pub hop_shell_home : Bytes
  pub history_path : Bytes
  pub db : List Entry

-- `read` opens a file to read it. The database is empty before.
unfoldable pub hop_init : (Bytes → Option Bytes) → Option Bytes → Bytes → HopStart
unfolding find_history load_history
hop_init read exe_path home_dir =
    let path = find_history exe_path home_dir in
    record {
      hop_shell_home = take 4095 home_dir;
      history_path = path;
      db = load_history (read path) [];
    }
