-- ===== src/Tests/Listing.antt =====
-- The listings of reveal and the sources of peek.
use mathlib.Core.List.{Perm}
use mini_project.Common.{
  true, false, ◌||◌, if◌then◌else◌, none, some, List, [], ◌∷◌, ◌≡◌, refl, All, IsSortedBy,
  filter_by, arith,
}
use mini_project.Shell.Token.{Bytes, op_word, Token}
use mini_project.Shell.Builtins.{same}
use mini_project.Shell.Peek.{read_lines, read_lines_backward}
use mini_project.Shell.Peek.Backward.{reversed, split, read_lines_backward-split}
use mini_project.Shell.Peek.Sources.{PeekFiles, process_source}
use mini_project.Shell.Peek.Numbers.{backwards, process_source-backwards}
use mini_project.Shell.Reveal.{
  RevealFiles, name_le, is_shown, list_of, reveal_list_dir, reveal, listing,
}
use mini_project.Shell.Reveal.Order.{reveal_list_dir-IsSortedBy}
use mini_project.Shell.Reveal.Depth.{dot, dots, HasHeight, IsContent, Lines, reveal_list_dir-Lines}

-- Two lines, each with its end.
abbrev two_lines : Bytes
two_lines = b'a' ∷ b'\n' ∷ b'b' ∷ b'\n' ∷ []

forwards : read_lines two_lines ≡ (b'a' ∷ []) ∷ (b'b' ∷ []) ∷ []
unfolding read_lines
forwards = refl

-- The backward reader finds an empty line behind the last newline.
extra_line : read_lines_backward 2 (λ pos. true) two_lines ≡ [] ∷ (b'b' ∷ []) ∷ (b'a' ∷ []) ∷ []
unfolding read_lines_backward
extra_line = refl

read_lines_backward-split_example :
    read_lines_backward 2 (λ pos. true) two_lines ≡ reversed (split two_lines)
read_lines_backward-split_example =
    read_lines_backward-split 2 (λ pos. true) two_lines (omega arith) (λ pos. refl)

abbrev one_file : PeekFiles
one_file = record {
  stat = λ name. some false;
  open_file = λ name. some two_lines;
  can_read = λ pos. true;
  tty = false;
}

process_source-backwards_example :
    process_source one_file true true (some (b'f' ∷ [])) [] 0
    ≡ backwards (process_source one_file false true (some (b'f' ∷ [])) [] 0)
process_source-backwards_example = process_source-backwards one_file (some (b'f' ∷ [])) [] 0

-- `/` holds the directory `d` and the files `.h` and `c`; `d` holds nothing
-- else than itself and its parent.
abbrev small_tree : RevealFiles
small_tree = record {
  getcwd = some (b'/' ∷ []);
  realpath = λ path. some path;
  is_dir = λ path. same path (b'/' ∷ []) || same path (b'/' ∷ b'/' ∷ b'd' ∷ []);
  oldpwd = none;
  shell_home = b'/' ∷ [];
  names = λ path.
      if same path (b'/' ∷ [])
      then some (dot ∷ (b'd' ∷ []) ∷ dots ∷ (b'.' ∷ b'h' ∷ []) ∷ (b'c' ∷ []) ∷ [])
      else some (dots ∷ dot ∷ []);
}

-- `reveal -t`
abbrev reveal_command : List Token
reveal_command =
    record { type = op_word; text = [] } ∷ record { type = op_word; text = b'-' ∷ b't' ∷ [] } ∷ []

revealed :
    reveal 2 small_tree reveal_command ≡ listing (some ((b'c' ∷ []) ∷ (b'd' ∷ b'/' ∷ []) ∷ []))
unfolding reveal
revealed = refl

reveal_list_dir-IsSortedBy_example :
    let shown = filter_by (is_shown false) (list_of (small_tree.names (b'/' ∷ []))) in
    (lines : List Bytes) × (reveal_list_dir 1 small_tree false false (b'/' ∷ []) [] ≡ some lines)
    × Perm lines shown
    × IsSortedBy name_le lines
    × All (λ name. is_shown false name ≡ true) shown
reveal_list_dir-IsSortedBy_example = reveal_list_dir-IsSortedBy 0 small_tree false (b'/' ∷ []) []

small_tree-HasHeight : HasHeight small_tree 2 (b'/' ∷ [])
unfolding same
small_tree-HasHeight = (
  (λ a b e. elim (a refl) [ ]),
  (
    (λ a b e. ((λ c d f. elim (d refl) [ ]), ((λ c d f. elim (c refl) [ ]), tt))),
    (
      (λ a b e. elim (b refl) [ ]),
      ((λ a b e. elim (no_dir e) [ ]), ((λ a b e. elim (no_dir e) [ ]), tt)),
    ),
  ),
)
  where
    no_dir : false ≡ true → ⊥
    no_dir e = cc

reveal_list_dir-Lines_example :
    (names lines : List Bytes) × (reveal_list_dir 2 small_tree false true (b'/' ∷ []) []
      ≡ some lines)
    × IsContent small_tree false (b'/' ∷ []) names
    × Lines small_tree false (b'/' ∷ []) [] names lines
reveal_list_dir-Lines_example =
    reveal_list_dir-Lines small_tree false 2 (b'/' ∷ []) [] small_tree-HasHeight
