-- ===== src/Shell/Spy.antt =====
-- The builtin spy, c-shell/src/spy.c. What /proc tells of a process is an argument: the links `cwd`
-- and `exe` and those below `fd` by name, the lines that `fgets` reads from `maps`, and the names in
-- `fd`. A link that is longer than its buffer is cut by `readlink`, which gives the text here.
pub mod Maps
pub mod Descriptors
use mini_project.Common.{
  ℕ, suc, Bool, true, false, not, ◌&&◌, ◌||◌, Option, none, some, List, [], ◌∷◌, ◌++◌, ◌==◌, ltb,
  leb, if◌then◌else◌, length, take, any, filter_by, sort_by,
}
use mini_project.Shell.Token.{Bytes, Token}
use mini_project.Shell.Hop.{is_prefix}
use mini_project.Shell.Builtins.{text_of, is_all_digits, atoi, same}

-- What `st_mode` says; `unknown` is none of the kinds that are tested.
pub data FileKind : Type 0 where
  dir chr sock reg blk fifo lnk unknown : FileKind

pub record ProcFiles : Type 0 where
  pub exists : ℕ → Bool
  pub cwd_link : ℕ → Option Bytes
  pub exe_link : ℕ → Option Bytes
  pub fd_link : ℕ → Bytes → Option Bytes
  pub lstat_fd : ℕ → Bytes → Option FileKind
  pub maps : ℕ → List Bytes
  pub fd_names : ℕ → List Bytes
  pub lstat : Bytes → Option FileKind
  pub stat : Bytes → Option FileKind

abbrev known : Option FileKind → Option FileKind
known (some unknown) = none
known kind = kind

-- "/dev/pts/", "/dev/tty", "pipe:", "anon_inode" and "socket:".
abbrev dev_pts : Bytes
dev_pts = b'/' ∷ b'd' ∷ b'e' ∷ b'v' ∷ b'/' ∷ b'p' ∷ b't' ∷ b's' ∷ b'/' ∷ []

abbrev dev_tty : Bytes
dev_tty = b'/' ∷ b'd' ∷ b'e' ∷ b'v' ∷ b'/' ∷ b't' ∷ b't' ∷ b'y' ∷ []

abbrev pipe_mark : Bytes
pipe_mark = b'p' ∷ b'i' ∷ b'p' ∷ b'e' ∷ b':' ∷ []

abbrev inode_mark : Bytes
inode_mark = b'a' ∷ b'n' ∷ b'o' ∷ b'n' ∷ b'_' ∷ b'i' ∷ b'n' ∷ b'o' ∷ b'd' ∷ b'e' ∷ []

abbrev socket_mark : Bytes
socket_mark = b's' ∷ b'o' ∷ b'c' ∷ b'k' ∷ b'e' ∷ b't' ∷ b':' ∷ []

unfoldable pub type_by_text : Bytes → FileKind
unfolding is_prefix
type_by_text target =
    if is_prefix dev_pts target || is_prefix dev_tty target
    then chr
    else if is_prefix pipe_mark target || is_prefix inode_mark target
    then fifo
    else if is_prefix socket_mark target
    then sock
    else reg

abbrev first_known : Option FileKind → Option FileKind → FileKind → FileKind
first_known (some kind) by_stat by_text = kind
first_known none (some kind) by_text = kind
first_known none none by_text = by_text

-- The first argument is what `lstat` says of the path, the second the target of the link.
unfoldable pub get_file_type : ProcFiles → Option FileKind → Bytes → FileKind
unfolding type_by_text
get_file_type fs by_lstat target =
    first_known (known by_lstat) (known (fs.stat target)) (type_by_text target)

-- The second column of a line: `cwd`, `txt`, `mem` or a number.
pub data Column : Type 0 where
  cwd txt mem : Column
  fd : Bytes → Column

pub record SpyLine : Type 0 where
  pub column : Column
  pub type : FileKind
  pub path : Bytes

abbrev link_line : ProcFiles → Column → Option Bytes → List SpyLine
link_line fs column none = []
link_line fs column (some target) =
    record { column = column; type = get_file_type fs (fs.lstat target) target; path = target } ∷ []

unfoldable pub without_newline : Bytes → Bytes
without_newline [] = []
without_newline (c ∷ []) = if c == b'\n' then [] else c ∷ []
without_newline (c ∷ d ∷ s) = c ∷ without_newline (d ∷ s)

-- What `strchr` finds, without the newline.
unfoldable pub from_slash : Bytes → Option Bytes
unfolding without_newline
from_slash [] = none
from_slash (c ∷ s) =
    let later = from_slash s in if c == b'/' then some (without_newline (c ∷ s)) else later

abbrev pub max_mem_files : ℕ
max_mem_files = 512

-- A path in the array `seen`.
abbrev pub stored_path : Bytes → Bytes
stored_path path = take 511 path

abbrev pub is_seen : List Bytes → Bytes → Bool
is_seen seen path = any (λ s. same s path) seen

abbrev pub is_new : List Bytes → Bytes → Bool
is_new seen path = not (is_seen seen path) && ltb (length seen) max_mem_files

-- The mapped files that are printed; `seen` is the array.
unfoldable pub mem_files : List Bytes → List Bytes → List Bytes
unfolding from_slash any same
mem_files seen [] = []
mem_files seen (line ∷ lines) = elim (from_slash line) [
  | none ↦ mem_files seen lines
  | some path ↦ elim (is_new seen path) [
    | true ↦ path ∷ mem_files (seen ++ stored_path path ∷ []) lines
    | false ↦ mem_files seen lines
  ]
]

abbrev mem_lines : ProcFiles → List Bytes → List SpyLine
mem_lines fs [] = []
mem_lines fs (path ∷ paths) =
    record { column = mem; type = get_file_type fs (fs.lstat path) path; path = path }
    ∷ mem_lines fs paths

abbrev pub is_number : Bytes → Bool
is_number name = is_all_digits (some name)

-- `compare_num_fds`, as whether the first does not come behind the second.
abbrev pub fd_le : Bytes → Bytes → Bool
fd_le a b = leb (atoi a) (atoi b)

-- The array `fd_names`, sorted.
unfoldable pub sorted_fds : List Bytes → List Bytes
unfolding is_all_digits atoi sort_by filter_by
sorted_fds names = sort_by fd_le (take 512 (filter_by is_number names))

abbrev fd_line : ProcFiles → ℕ → Bytes → Option Bytes → List SpyLine
fd_line fs pid name none = []
fd_line fs pid name (some target) =
    record {
      column = fd name;
      type = get_file_type fs (fs.lstat_fd pid name) target;
      path = target;
    }
    ∷ []

unfoldable pub fd_lines : ProcFiles → ℕ → List Bytes → List SpyLine
unfolding get_file_type
fd_lines fs pid [] = []
fd_lines fs pid (name ∷ names) = fd_line fs pid name (fs.fd_link pid name) ++ fd_lines fs pid names

pub data Spied : Type 0 where
  invalid_syntax no_such_process : Spied
  table : ℕ → List SpyLine → Spied

unfoldable pub spy_pid : ProcFiles → ℕ → Spied
unfolding get_file_type mem_files sorted_fds fd_lines
spy_pid fs pid =
    if fs.exists pid
    then table pid (
        link_line fs cwd (fs.cwd_link pid)
        ++ (link_line fs txt (fs.exe_link pid)
            ++ (mem_lines fs (mem_files [] (fs.maps pid))
                ++ fd_lines fs pid (sorted_fds (fs.fd_names pid)))))
    else no_such_process

abbrev spy_text : ProcFiles → Option Bytes → Spied
spy_text fs none = invalid_syntax
spy_text fs (some s) = if is_all_digits (some s) then spy_pid fs (atoi s) else invalid_syntax

-- `self` is the shell's own process.
unfoldable pub spy_cmd : ProcFiles → ℕ → List Token → Spied
unfolding spy_pid is_all_digits atoi
spy_cmd fs self (name ∷ t ∷ []) = spy_text fs (text_of t.type t.text)
spy_cmd fs self (name ∷ t ∷ u ∷ ts) = invalid_syntax
spy_cmd fs self _ = spy_pid fs self
