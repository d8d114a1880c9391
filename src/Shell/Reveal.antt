-- ===== src/Shell/Reveal.antt =====
-- The builtin reveal, c-shell/src/reveal.c. A listing with `-t` goes down the directories on fuel;
-- `none` is a listing for which the fuel was not enough.
pub mod Order
pub mod Depth
use mini_project.Common.{
  ℕ, zero, suc, Bool, true, false, not, ◌&&◌, ◌||◌, Option, none, some, List, [], ◌∷◌, ◌++◌, ◌==◌,
  ltb, if◌then◌else◌, take, filter_by, sort_by,
}
use mini_project.Shell.Token.{Bytes, TokenCategory, op_word, Token}
use mini_project.Shell.Builtins.{same}

-- `stat` and `S_ISDIR`; `opendir` fails with `none`, and `readdir` gives the names else.
pub record RevealFiles : Type 0 where
  pub getcwd : Option Bytes
  pub realpath : Bytes → Option Bytes
  pub is_dir : Bytes → Bool
  pub oldpwd : Option Bytes
  pub shell_home : Bytes
  pub names : Bytes → Option (List Bytes)

-- `snprintf` into a buffer of PATH_MAX bytes.
abbrev pub print_path : Bytes → Bytes
print_path s = take 4095 s

abbrev option_path : Option Bytes → Option Bytes
option_path none = none
option_path (some s) = some (print_path s)

abbrev resolve_parent : RevealFiles → Option Bytes → Option Bytes
resolve_parent fs none = none
resolve_parent fs (some cwd) =
    option_path (fs.realpath (take 4099 (cwd ++ b'/' ∷ b'.' ∷ b'.' ∷ [])))

abbrev resolve_dir : RevealFiles → Option Bytes → Option Bytes
resolve_dir fs none = none
resolve_dir fs (some path) = if fs.is_dir path then some (print_path path) else none

unfoldable pub resolve_target : RevealFiles → Option Bytes → Option Bytes
unfolding same
resolve_target fs none = fs.getcwd
resolve_target fs (some arg) =
    if same arg (b'.' ∷ [])
    then fs.getcwd
    else if same arg (b'~' ∷ [])
    then some (print_path fs.shell_home)
    else if same arg (b'.' ∷ b'.' ∷ [])
    then resolve_parent fs fs.getcwd
    else if same arg (b'-' ∷ [])
    then option_path fs.oldpwd
    else resolve_dir fs (fs.realpath arg)

-- `cmp_names`, as whether `strcmp` is not positive.
unfoldable pub name_le : Bytes → Bytes → Bool
name_le [] t = true
name_le (c ∷ s) [] = false
name_le (c ∷ s) (d ∷ t) = let rest = name_le s t in if c == d then rest else ltb c d

abbrev hidden : Bytes → Bool
hidden [] = false
hidden (c ∷ s) = c == b'.'

-- Neither `.` nor `..`, and not hidden unless `-a` is given.
unfoldable pub is_shown : Bool → Bytes → Bool
unfolding same
is_shown flag_a name =
    not (same name (b'.' ∷ []) || same name (b'.' ∷ b'.' ∷ [])) && (flag_a || not (hidden name))

abbrev pub list_of : Option (List Bytes) → List Bytes
list_of none = []
list_of (some names) = names

-- The array `names`, sorted.
unfoldable pub shown_names : RevealFiles → Bool → Bytes → List Bytes
unfolding is_shown name_le sort_by filter_by
shown_names fs flag_a dir_path =
    sort_by name_le (filter_by (is_shown flag_a) (list_of (fs.names dir_path)))

abbrev pub full_path : Bytes → Bytes → Bytes
full_path dir_path name = print_path (dir_path ++ b'/' ∷ name)

abbrev pub join_lines : Option (List Bytes) → Option (List Bytes) → Option (List Bytes)
join_lines none more = none
join_lines (some lines) none = none
join_lines (some lines) (some more) = some (lines ++ more)

-- One name; `list_dir` lists a directory below a prefix.
abbrev pub list_name :
    (Bytes → Bytes → Option (List Bytes))
    → RevealFiles
    → Bool
    → Bytes
    → Bytes
    → Bytes
    → Option (List Bytes)
list_name list_dir fs false dir_path prefix name = some (name ∷ [])
list_name list_dir fs true dir_path prefix name =
    if fs.is_dir (full_path dir_path name)
    then join_lines (some ((prefix ++ (name ++ b'/' ∷ [])) ∷ []))
        (list_dir (full_path dir_path name) (print_path (prefix ++ (name ++ b'/' ∷ []))))
    else some ((prefix ++ name) ∷ [])

unfoldable pub list_names :
    (Bytes → Bytes → Option (List Bytes))
    → RevealFiles
    → Bool
    → Bytes
    → Bytes
    → List Bytes
    → Option (List Bytes)
list_names list_dir fs flag_t dir_path prefix [] = some []
list_names list_dir fs flag_t dir_path prefix (name ∷ names) =
    join_lines (list_name list_dir fs flag_t dir_path prefix name)
      (list_names list_dir fs flag_t dir_path prefix names)

-- The lines that are printed for a directory.
unfoldable pub reveal_list_dir : ℕ → RevealFiles → Bool → Bool → Bytes → Bytes → Option (List Bytes)
unfolding list_names shown_names
reveal_list_dir zero fs flag_a flag_t dir_path prefix = none
reveal_list_dir (suc fuel) fs flag_a flag_t dir_path prefix =
    list_names (λ dir prefix'. reveal_list_dir fuel fs flag_a flag_t dir prefix') fs flag_t dir_path
      prefix (shown_names fs flag_a dir_path)

pub record RevealArgs : Type 0 where
  pub flag_a : Bool
  pub flag_t : Bool
  pub target : Option Bytes

-- The letters behind a dash; `none` is "invalid syntax".
unfoldable pub flag_letters : Bytes → RevealArgs → Option RevealArgs
flag_letters [] a = some a
flag_letters (c ∷ s) a = elim (c == b'a') [
  | true ↦ flag_letters s (record a { flag_a = true })
  | false ↦ elim (c == b't') [ true ↦ flag_letters s (record a { flag_t = true }) | false ↦ none ]
]

-- Only one path is allowed.
abbrev set_target : Bytes → Option Bytes → RevealArgs → Option RevealArgs
set_target arg none a = some (record a { target = some arg })
set_target arg (some path) a = none

unfoldable pub reveal_arg : Bytes → RevealArgs → Option RevealArgs
unfolding flag_letters
reveal_arg [] a = set_target [] a.target a
reveal_arg (c ∷ []) a = set_target (c ∷ []) a.target a
reveal_arg (c ∷ d ∷ s) a =
    if c == b'-' then flag_letters (d ∷ s) a else set_target (c ∷ d ∷ s) a.target a

abbrev reveal_token : TokenCategory → Bytes → RevealArgs → Option RevealArgs
reveal_token op_word text a = reveal_arg text a
reveal_token _ text a = some a

unfoldable pub reveal_args : List Token → RevealArgs → Option RevealArgs
unfolding reveal_arg
reveal_args [] a = some a
reveal_args (t ∷ ts) a = elim (reveal_token t.type t.text a) [
  | none ↦ none
  | some a' ↦ reveal_args ts a'
]

pub data Revealed : Type 0 where
  invalid_syntax no_such_directory : Revealed
  listing : Option (List Bytes) → Revealed

abbrev reveal_dir : ℕ → RevealFiles → RevealArgs → Option Bytes → Revealed
reveal_dir fuel fs a none = no_such_directory
reveal_dir fuel fs a (some resolved) =
    if fs.is_dir resolved
    then listing (reveal_list_dir fuel fs a.flag_a a.flag_t resolved [])
    else no_such_directory

abbrev reveal_read : ℕ → RevealFiles → Option RevealArgs → Revealed
reveal_read fuel fs none = invalid_syntax
reveal_read fuel fs (some a) = reveal_dir fuel fs a (resolve_target fs a.target)

abbrev no_reveal_args : RevealArgs
no_reveal_args = record { flag_a = false; flag_t = false; target = none }

unfoldable pub reveal : ℕ → RevealFiles → List Token → Revealed
unfolding reveal_args resolve_target reveal_list_dir
reveal fuel fs [] = reveal_read fuel fs (some no_reveal_args)
reveal fuel fs (name ∷ ts) = reveal_read fuel fs (reveal_args ts no_reveal_args)
