-- ===== src/Shell/Peek/Numbers.antt =====
-- The numbers that `peek -n` of c-shell/src/peek.c gives to lines.
use mathlib.Core.List.{reverse, reverse-cons}
use mini_project.Common.{
  ℕ, suc, Bool, true, false, Option, none, some, Bool-cases, inl, inr, if◌then◌else◌, List, [], ◌∷◌,
  ◌++◌, ◌≡◌, refl, sym, ap, ◌∙◌,
}
use mini_project.Shell.Token.{Bytes}
use mini_project.Shell.Builtins.{same}
use mini_project.Shell.Peek.{read_lines}
use mini_project.Shell.Peek.Sources.{
  Printed, plain, PeekFiles, Source, read_stdin, from_stdin, from_open, from_file, process_source,
  numbered, print_numbered, count_lines, print_back, print_lines,
}

count_lines-print_numbered :
    (la : List Bytes) (num : ℕ) → (count_lines la num).1 ≡ (print_numbered la num).1
unfolding count_lines print_numbered
count_lines-print_numbered [] num = refl
count_lines-print_numbered ([] ∷ la) num = count_lines-print_numbered la num
count_lines-print_numbered ((c ∷ s) ∷ la) num = count_lines-print_numbered la (suc num)

print_back-reverse :
    (la : List Bytes) (num : ℕ)
    → print_back la (count_lines la num).0 ≡ reverse (print_numbered la num).0
unfolding count_lines print_numbered print_back
print_back-reverse [] num = refl
print_back-reverse ([] ∷ la) num =
    ap (λ ps. ps ++ plain [] ∷ []) (print_back-reverse la num)
    ∙ sym (reverse-cons (plain []) (print_numbered la num).0)
print_back-reverse ((c ∷ s) ∷ la) num =
    ap (λ ps. ps ++ numbered (suc num) (c ∷ s) ∷ []) (print_back-reverse la (suc num))
    ∙ sym (reverse-cons (numbered (suc num) (c ∷ s)) (print_numbered la (suc num)).0)

-- A source with its lines printed in reverse.
abbrev pub backwards : Source → Source
backwards (ps, stdin, num) = (reverse ps, stdin, num)

print_lines-reverse :
    (la : List Bytes) (num : ℕ)
    → print_lines true true la num
      ≡ (reverse (print_lines false true la num).0, (print_lines false true la num).1)
unfolding print_lines
print_lines-reverse la num = rw (print_back-reverse la num, count_lines-print_numbered la num) refl

from_stdin-backwards :
    (tty : Bool) (stdin : Bytes) (num : ℕ)
    → from_stdin tty true true stdin num ≡ backwards (from_stdin tty false true stdin num)
from_stdin-backwards tty stdin num =
    ap (λ (r : List Printed × ℕ). (r.0, (read_stdin tty stdin).1, r.1))
      (print_lines-reverse (read_stdin tty stdin).0 num)

from_open-backwards :
    (can_read : ℕ → Bool) (file : Option Bytes) (stdin : Bytes) (num : ℕ)
    → from_open can_read true true file stdin num
      ≡ backwards (from_open can_read false true file stdin num)
from_open-backwards can_read none stdin num = refl
from_open-backwards can_read (some bytes) stdin num =
    ap (λ (r : List Printed × ℕ). (r.0, stdin, r.1)) (print_lines-reverse (read_lines bytes) num)

from_file-backwards :
    (fs : PeekFiles) (stat : Option Bool) (name stdin : Bytes) (num : ℕ)
    → from_file fs true true stat name stdin num
      ≡ backwards (from_file fs false true stat name stdin num)
from_file-backwards fs none name stdin num = refl
from_file-backwards fs (some true) name stdin num = refl
from_file-backwards fs (some false) name stdin num =
    from_open-backwards fs.can_read (fs.open_file name) stdin num

-- From every source, errors included, `-r` with `-n` prints the same numbered lines as `-n` alone,
-- from the last to the first, reads as much of standard input and goes on at the same number.
pub process_source-backwards :
    (fs : PeekFiles) (source : Option Bytes) (stdin : Bytes) (num : ℕ)
    → process_source fs true true source stdin num
      ≡ backwards (process_source fs false true source stdin num)
unfolding process_source
process_source-backwards fs none stdin num = from_stdin-backwards fs.tty stdin num
process_source-backwards fs (some name) stdin num = elim (Bool-cases (same name (b'-' ∷ []))) [
  | inl e ↦ rw (e, if◌then◌else◌) (from_stdin-backwards fs.tty stdin num)
  | inr e ↦ rw (e, if◌then◌else◌) (from_file-backwards fs (fs.stat name) name stdin num)
]
