-- ===== src/Shell/Peek.antt =====
-- The builtin peek, c-shell/src/peek.c. A file is its bytes, none of which is 0; an array of lines
-- is a list. What is left of standard input is passed from one source to the next. A `read` inside a
-- file gives as many bytes as it is asked for.
pub mod Backward
pub mod Forward
pub mod Sources
pub mod Numbers
use mathlib.Core.List.{reverse}
use mini_project.Common.{
  ℕ, zero, suc, ◌+◌, ◌-◌, Bool, true, false, not, ◌&&◌, ◌||◌, Option, none, some, List, [], ◌∷◌,
  ◌++◌, ◌==◌, ltb, if◌then◌else◌, length, take, drop,
}
use mini_project.Shell.Token.{Bytes, TokenCategory, op_word, Token}
use mini_project.Shell.Builtins.{same}

abbrev pub chunk : ℕ
chunk = 4096

abbrev pub is_newline : ℕ → Bool
is_newline c = c == b'\n'

-- The last line when it does not end.
abbrev pub unended : Bytes → List Bytes
unended [] = []
unended (c ∷ s) = (c ∷ s) ∷ []

-- The calls of `getline`; `line` is what the current one has read.
unfoldable pub getlines : Bytes → Bytes → List Bytes
getlines line [] = unended line
getlines line (c ∷ s) = elim (is_newline c) [
  | true ↦ line ∷ getlines [] s
  | false ↦ getlines (line ++ c ∷ []) s
]

unfoldable pub read_lines : Bytes → List Bytes
unfolding getlines
read_lines bytes = getlines [] bytes

-- The backward reader: `seg` is `word` from `i + 1` to `end`.
pub record Scan : Type 0 where
  pub seg : Bytes
  pub lo : Option Bytes
  pub la : List Bytes

abbrev pub leftover : Option Bytes → Bytes
leftover none = []
leftover (some lo) = lo

-- One byte of a chunk.
unfoldable pub scan_byte : ℕ → Scan → Scan
scan_byte c s =
    if is_newline c
    then record { seg = []; lo = none; la = s.la ++ (s.seg ++ leftover s.lo) ∷ [] }
    else record s { seg = c ∷ s.seg }

-- The loop over a chunk goes from its last byte to its first.
unfoldable pub scan_chunk : Bytes → Scan → Scan
unfolding scan_byte
scan_chunk [] s = s
scan_chunk (c ∷ word) s = scan_byte c (scan_chunk word s)

abbrev pub end_seg : Bytes → Option Bytes → Option Bytes
end_seg [] lo = lo
end_seg (c ∷ seg) lo = some (c ∷ seg ++ leftover lo)

-- What is left of the chunk goes to `lo`.
unfoldable pub end_chunk : Scan → Scan
end_chunk s = record { seg = []; lo = end_seg s.seg s.lo; la = s.la }

-- `pos` bytes of the file are still to be read, at most `size` at a time; `can_read` is whether the
-- read at a position gives anything. The first argument is fuel.
unfoldable pub read_chunks : ℕ → ℕ → (ℕ → Bool) → Bytes → ℕ → Scan → Scan
unfolding scan_chunk end_chunk
read_chunks zero size can_read bytes pos s = s
read_chunks (suc fuel) size can_read bytes zero s = s
read_chunks (suc fuel) size can_read bytes (suc pos) s =
    let toread = if ltb size (suc pos) then size else suc pos in
    let pos' = suc pos - toread in
    let word = take toread (drop pos' bytes) in
    let later = read_chunks fuel size can_read bytes pos' (end_chunk (scan_chunk word s)) in
    if can_read pos' then later else s

abbrev pub push_leftover : Scan → List Bytes
push_leftover s = elim s.lo [ none ↦ s.la | some lo ↦ s.la ++ lo ∷ [] ]

abbrev pub scan_start : Scan
scan_start = record { seg = []; lo = none; la = [] }

unfoldable pub read_lines_backward : ℕ → (ℕ → Bool) → Bytes → List Bytes
unfolding read_chunks
read_lines_backward size can_read bytes =
    push_leftover (read_chunks (length bytes) size can_read bytes (length bytes) scan_start)
