-- ===== src/Shell/Peek/Sources.antt =====
-- What c-shell/src/peek.c prints: `process_source` and `peek`.
use mathlib.Core.List.{reverse}
use mini_project.Common.{
  ℕ, suc, Bool, true, false, Option, none, some, List, [], ◌∷◌, ◌++◌, ◌==◌, ltb, if◌then◌else◌,
  length, map,
}
use mini_project.Shell.Token.{Bytes, TokenCategory, op_word, Token}
use mini_project.Shell.Builtins.{same}
use mini_project.Shell.Peek.{chunk, read_lines, read_lines_backward}

pub data Printed : Type 0 where
  plain : Bytes → Printed
  numbered : ℕ → Bytes → Printed
  no_such_file is_a_directory incorrect_flag : Printed

-- `stat` gives whether a file is a directory, `open` its bytes.
pub record PeekFiles : Type 0 where
  pub stat : Bytes → Option Bool
  pub open_file : Bytes → Option Bytes
  pub can_read : ℕ → Bool
  pub tty : Bool

-- A line and the next number to be given.
unfoldable pub print_line : Bytes → ℕ → Printed × ℕ
print_line [] num = (plain [], num)
print_line (c ∷ s) num = (numbered (suc num) (c ∷ s), suc num)

unfoldable pub print_numbered : List Bytes → ℕ → List Printed × ℕ
unfolding print_line
print_numbered [] num = ([], num)
print_numbered (line ∷ la) num =
    let (p, num') = print_line line num in
    let (ps, num'') = print_numbered la num' in (p ∷ ps, num'')

-- The array `nums`: 0 for an empty line.
unfoldable pub count_lines : List Bytes → ℕ → List ℕ × ℕ
count_lines [] num = ([], num)
count_lines ([] ∷ la) num = let (nums, num') = count_lines la num in (0 ∷ nums, num')
count_lines ((c ∷ s) ∷ la) num =
    let (nums, num') = count_lines la (suc num) in (suc num ∷ nums, num')

abbrev print_with : ℕ → Bytes → Printed
print_with num [] = plain []
print_with num (c ∷ s) = numbered num (c ∷ s)

-- The loop from the last index of `la` and `nums` to the first.
unfoldable pub print_back : List Bytes → List ℕ → List Printed
print_back [] nums = []
print_back la [] = []
print_back (line ∷ la) (num ∷ nums) = print_back la nums ++ print_with num line ∷ []

-- All lines, in the way the flags ask for.
unfoldable pub print_lines : Bool → Bool → List Bytes → ℕ → List Printed × ℕ
unfolding print_numbered count_lines print_back
print_lines true true la num = let (nums, num') = count_lines la num in (print_back la nums, num')
print_lines true false la num = (map plain (reverse la), num)
print_lines false true la num = print_numbered la num
print_lines false false la num = (map plain la, num)

-- What one call of `getline` reads, and what it leaves.
unfoldable pub first_line : Bytes → Bytes × Bytes
first_line [] = ([], [])
first_line (c ∷ s) =
    let (line, rest) = first_line s in if c == b'\n' then (c ∷ [], s) else (c ∷ line, rest)

-- On a terminal one line is read, else all.
unfoldable pub read_stdin : Bool → Bytes → List Bytes × Bytes
unfolding read_lines first_line
read_stdin true stdin = let (line, rest) = first_line stdin in (read_lines line, rest)
read_stdin false stdin = (read_lines stdin, [])

-- What is printed, what is left of standard input, and the number of the last line.
abbrev pub Source : Type 0
Source = List Printed × Bytes × ℕ

abbrev pub from_stdin : Bool → Bool → Bool → Bytes → ℕ → Source
from_stdin tty r_flag n_flag stdin num =
    let (la, stdin') = read_stdin tty stdin in
    let (ps, num') = print_lines r_flag n_flag la num in (ps, stdin', num')

-- With `-r` alone the file is read backwards, else forwards.
abbrev pub from_bytes : (ℕ → Bool) → Bool → Bool → Bytes → ℕ → List Printed × ℕ
from_bytes can_read true false bytes num =
    (map plain (read_lines_backward chunk can_read bytes), num)
from_bytes can_read r_flag n_flag bytes num = print_lines r_flag n_flag (read_lines bytes) num

abbrev pub from_open : (ℕ → Bool) → Bool → Bool → Option Bytes → Bytes → ℕ → Source
from_open can_read r_flag n_flag none stdin num = (no_such_file ∷ [], stdin, num)
from_open can_read r_flag n_flag (some bytes) stdin num =
    let (ps, num') = from_bytes can_read r_flag n_flag bytes num in (ps, stdin, num')

abbrev pub from_file : PeekFiles → Bool → Bool → Option Bool → Bytes → Bytes → ℕ → Source
from_file fs r_flag n_flag none name stdin num = (no_such_file ∷ [], stdin, num)
from_file fs r_flag n_flag (some true) name stdin num = (is_a_directory ∷ [], stdin, num)
from_file fs r_flag n_flag (some false) name stdin num =
    from_open fs.can_read r_flag n_flag (fs.open_file name) stdin num

unfoldable pub process_source : PeekFiles → Bool → Bool → Option Bytes → Bytes → ℕ → Source
unfolding read_stdin print_lines read_lines_backward read_lines same
process_source fs r_flag n_flag none stdin num = from_stdin fs.tty r_flag n_flag stdin num
process_source fs r_flag n_flag (some name) stdin num =
    if same name (b'-' ∷ [])
    then from_stdin fs.tty r_flag n_flag stdin num
    else from_file fs r_flag n_flag (fs.stat name) name stdin num

unfoldable pub process_all : PeekFiles → Bool → Bool → List Bytes → Bytes → ℕ → Source
unfolding process_source
process_all fs r_flag n_flag [] stdin num = ([], stdin, num)
process_all fs r_flag n_flag (name ∷ names) stdin num =
    let (ps, stdin', num') = process_source fs r_flag n_flag (some name) stdin num in
    let (more, stdin'', num'') = process_all fs r_flag n_flag names stdin' num' in
    (ps ++ more, stdin'', num'')

pub record PeekArgs : Type 0 where
  pub n_flag : Bool
  pub r_flag : Bool
  pub files : List Bytes

-- The letters behind a dash, or `none` for an incorrect flag.
unfoldable pub read_flags : Bytes → PeekArgs → Option PeekArgs
read_flags [] a = some a
read_flags (c ∷ s) a =
    let with_n = read_flags s (record a { n_flag = true }) in
    elim (c == b'n') [
      | true ↦ with_n
      | false ↦ elim (c == b'r') [ true ↦ read_flags s (record a { r_flag = true }) | false ↦ none ]
    ]

-- The array `files` has 256 places.
abbrev add_source : Bytes → PeekArgs → Option PeekArgs
add_source arg a =
    some (if ltb (length a.files) 256 then record a { files = a.files ++ arg ∷ [] } else a)

unfoldable pub read_arg : Bytes → PeekArgs → Option PeekArgs
unfolding read_flags
read_arg [] a = add_source [] a
read_arg (c ∷ []) a = add_source (c ∷ []) a
read_arg (c ∷ d ∷ s) a = if c == b'-' then read_flags (d ∷ s) a else add_source (c ∷ d ∷ s) a

abbrev read_token : TokenCategory → Bytes → PeekArgs → Option PeekArgs
read_token op_word text a = read_arg text a
read_token _ text a = some a

unfoldable pub read_args : List Token → PeekArgs → Option PeekArgs
unfolding read_arg
read_args [] a = some a
read_args (t ∷ ts) a = elim (read_token t.type t.text a) [ none ↦ none | some a' ↦ read_args ts a' ]

abbrev no_args : PeekArgs
no_args = record { n_flag = false; r_flag = false; files = [] }

abbrev process_named : PeekFiles → Bool → Bool → List Bytes → Bytes → Source
process_named fs r_flag n_flag [] stdin = process_source fs r_flag n_flag none stdin 0
process_named fs r_flag n_flag (f ∷ files) stdin = process_all fs r_flag n_flag (f ∷ files) stdin 0

abbrev peek_args : PeekFiles → Option PeekArgs → Bytes → List Printed × Bytes
peek_args fs none stdin = (incorrect_flag ∷ [], stdin)
peek_args fs (some a) stdin =
    let (ps, stdin', num) = process_named fs a.r_flag a.n_flag a.files stdin in (ps, stdin')

-- What is printed, and what is left of standard input.
unfoldable pub peek : PeekFiles → List Token → Bytes → List Printed × Bytes
unfolding process_all read_args
peek fs [] stdin = peek_args fs (some no_args) stdin
peek fs (name ∷ ts) stdin = peek_args fs (read_args ts no_args) stdin
