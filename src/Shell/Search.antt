-- ===== src/Shell/Search.antt =====
-- The search for an executable file: the part of `execute_cmd_internal` and `execute_stage_child`
-- in c-shell/src/execute.c that sets `exec_path`, and c-shell/src/locate.c. The file system is
-- the calls that the code makes: `access` with X_OK, `stat`, `getcwd` and `getenv("PATH")`.
pub mod Candidates
use mini_project.Common.{
  ℕ, Bool, true, false, not, ◌&&◌, ◌||◌, Option, none, some, List, [], ◌∷◌, ◌++◌, ◌==◌,
  if◌then◌else◌, length, take,
}
use mini_project.Shell.Token.{Bytes, TokenCategory, op_word, Token}

-- `stat` gives whether the file is a directory.
pub record Files : Type 0 where
  pub access : Bytes → Bool
  pub stat : Bytes → Option Bool
  pub getcwd : Option Bytes
  pub env_path : Option Bytes

abbrev not_dir : Option Bool → Bool
not_dir none = false
not_dir (some is_dir) = not is_dir

-- `execute_is_executable` and `locate_is_executable` have the same body.
unfoldable pub is_executable : Files → Bytes → Bool
is_executable fs path = if fs.access path then not_dir (fs.stat path) else false

-- `snprintf` into a buffer of PATH_MAX + 512 bytes, the last of which is the terminator.
unfoldable pub print : Bytes → Bytes
print s = take 4607 s

abbrev pub join : Bytes → Bytes → Bytes
join dir name = dir ++ b'/' ∷ name

unfoldable pub contains : ℕ → Bytes → Bool
contains c [] = false
contains c (d ∷ s) = if d == c then true else contains c s

unfoldable pub flush : Bytes → List Bytes → List Bytes
flush [] rest = rest
flush (c ∷ s) rest = (c ∷ s) ∷ rest

-- The calls of `strtok_r` with ":": the parts between colons, without the empty ones.
unfoldable pub strtok : Bytes → Bytes → List Bytes
unfolding flush
strtok part [] = flush part []
strtok part (c ∷ s) = elim (c == b':') [
  | true ↦ flush part (strtok [] s)
  | false ↦ strtok (part ++ c ∷ []) s
]

-- An unset or empty PATH has no part.
unfoldable pub path_dirs : Option Bytes → List Bytes
unfolding strtok
path_dirs none = []
path_dirs (some path) = strtok [] path

unfoldable pub dir_candidate : Option Bytes → Bytes → Bytes → Bytes
unfolding print
dir_candidate none [] name = print name
dir_candidate (some cwd) [] name = print (join cwd name)
dir_candidate cwd (c ∷ dir) name = print (join (c ∷ dir) name)

unfoldable pub search_path : Files → Bytes → List Bytes → Option Bytes
unfolding dir_candidate
search_path fs name [] = none
search_path fs name (dir ∷ dirs) =
    let candidate = dir_candidate fs.getcwd dir name in
    if is_executable fs candidate then some candidate else search_path fs name dirs

unfoldable pub search_cwd : Files → Bytes → Option Bytes → Option Bytes
unfolding print
search_cwd fs name none = none
search_cwd fs name (some cwd) =
    let candidate = print (join cwd name) in
    if is_executable fs candidate then some candidate else none

abbrev pub or_else : Option Bytes → Option Bytes → Option Bytes
or_else none b = b
or_else (some a) b = some a

-- The command without the mark `%`, and whether it had one.
unfoldable pub strip_mark : Bytes → Bool × Bytes
strip_mark [] = (false, [])
strip_mark (c ∷ s) = if c == b'%' then (true, s) else (false, c ∷ s)

unfoldable pub find_in_dirs : Files → Bool → Bytes → Option Bytes
unfolding search_path search_cwd path_dirs
find_in_dirs fs skip_cwd name =
    let in_cwd = if skip_cwd then none else search_cwd fs name fs.getcwd in
    or_else in_cwd (search_path fs name (path_dirs fs.env_path))

-- The path that is executed for `argv[0]`, or `none` for "command not found".
unfoldable pub find_executable : Files → Bytes → Option Bytes
unfolding strip_mark contains find_in_dirs
find_executable fs raw_cmd =
    let (skip_cwd, name) = strip_mark raw_cmd in
    if not skip_cwd && contains b'/' name
    then if is_executable fs name then some name else none
    else find_in_dirs fs skip_cwd name

-- `locate`: with no working directory the buffer `cwd` is not written, and the code reads it for
-- an empty or relative part of PATH only; `cwd` is then an argument.
unfoldable pub locate_candidate : Bytes → Bytes → Bytes → Bytes
unfolding print
locate_candidate cwd [] cmd = print (join cwd cmd)
locate_candidate cwd (c ∷ dir) cmd =
    if c == b'/' then print (join (c ∷ dir) cmd) else print (join cwd (join (c ∷ dir) cmd))

unfoldable pub locate_dirs : Files → Bytes → Bytes → List Bytes → List Bytes
unfolding locate_candidate
locate_dirs fs cwd cmd [] = []
locate_dirs fs cwd cmd (dir ∷ dirs) =
    let rest = locate_dirs fs cwd cmd dirs in
    let candidate = locate_candidate cwd dir cmd in
    if is_executable fs candidate then candidate ∷ rest else rest

unfoldable pub locate_cwd : Files → Bytes → Option Bytes → List Bytes
unfolding print
locate_cwd fs cmd none = []
locate_cwd fs cmd (some cwd) =
    let candidate = print (join cwd cmd) in
    if is_executable fs candidate then candidate ∷ [] else []

abbrev pub buffer : Bytes → Option Bytes → Bytes
buffer garbage none = garbage
buffer garbage (some cwd) = cwd

-- The paths that are printed; "command not found" is printed when there is none.
unfoldable pub locate_single : Files → Bytes → Bytes → List Bytes
unfolding locate_cwd locate_dirs path_dirs
locate_single fs garbage cmd =
    locate_cwd fs cmd fs.getcwd
    ++ locate_dirs fs (buffer garbage fs.getcwd) cmd (path_dirs fs.env_path)

abbrev located : Files → Bytes → TokenCategory → Bytes → List (Bytes × List Bytes)
located fs garbage op_word text = (text, locate_single fs garbage text) ∷ []
located fs garbage _ text = []

unfoldable pub locate_args : Files → Bytes → List Token → List (Bytes × List Bytes)
locate_args fs garbage [] = []
locate_args fs garbage (t ∷ ts) = located fs garbage t.type t.text ++ locate_args fs garbage ts

-- The arguments with the paths printed for each; the empty list stands for "invalid syntax", which
-- is printed when there is no argument.
unfoldable pub locate : Files → Bytes → List Token → List (Bytes × List Bytes)
unfolding locate_args
locate fs garbage [] = []
locate fs garbage (name ∷ ts) = locate_args fs garbage ts
