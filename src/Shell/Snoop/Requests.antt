-- ===== src/Shell/Snoop/Requests.antt =====
-- What the tokens of `snoop` in c-shell/src/snoop.c ask for, up to the start of the tracing.
use mini_project.Common.{
  ℕ, Bool, ◌&&◌, Option, none, some, List, [], ◌∷◌, ◌++◌, if◌then◌else◌, take,
}
use mini_project.Shell.Token.{Bytes, Token}
use mini_project.Shell.Search.{Files, is_executable, contains, path_dirs}
use mini_project.Shell.Builtins.{text_of, is_all_digits, atoi, same}

-- `null_read` is a call of `strcmp` on a null pointer. The arguments of a program are the texts of
-- the tokens, `none` for the null pointer of an operator.
pub data SnoopRequest : Type 0 where
  invalid_syntax null_read no_such_process command_not_found : SnoopRequest
  attach_to : ℕ → SnoopRequest
  trace_program : Bytes → List (Option Bytes) → SnoopRequest

-- The first executable candidate in the directories of PATH, in a buffer of 512 bytes.
unfoldable pub search_dirs : Files → Bytes → List Bytes → Option Bytes
unfolding is_executable
search_dirs fs raw_cmd [] = none
search_dirs fs raw_cmd (dir ∷ dirs) =
    let candidate = take 511 (dir ++ b'/' ∷ raw_cmd) in
    let later = search_dirs fs raw_cmd dirs in
    if is_executable fs candidate then some candidate else later

unfoldable pub find_program : Files → Bytes → Option Bytes
unfolding is_executable contains path_dirs search_dirs
find_program fs raw_cmd =
    if contains b'/' raw_cmd
    then if is_executable fs raw_cmd then some raw_cmd else none
    else search_dirs fs raw_cmd (path_dirs fs.env_path)

abbrev texts : List Token → List (Option Bytes)
texts [] = []
texts (t ∷ ts) = text_of t.type t.text ∷ texts ts

abbrev program_request : Option Bytes → List Token → SnoopRequest
program_request none ts = command_not_found
program_request (some path) ts = trace_program path (take 255 (texts ts))

-- `/proc/<pid>` is there, and PTRACE_ATTACH succeeds.
abbrev attach_request : (ℕ → Bool) → (ℕ → Bool) → Bytes → SnoopRequest
attach_request in_proc attaches s =
    let pid = atoi s in if in_proc pid && attaches pid then attach_to pid else no_such_process

abbrev attach_text : (ℕ → Bool) → (ℕ → Bool) → Option Bytes → SnoopRequest
attach_text in_proc attaches none = invalid_syntax
attach_text in_proc attaches (some s) =
    if is_all_digits (some s) then attach_request in_proc attaches s else invalid_syntax

-- The tokens behind `-p`.
unfoldable pub attach_option : (ℕ → Bool) → (ℕ → Bool) → List Token → SnoopRequest
unfolding is_all_digits atoi
attach_option in_proc attaches (t ∷ []) = attach_text in_proc attaches (text_of t.type t.text)
attach_option in_proc attaches _ = invalid_syntax

abbrev first_option :
    Files → (ℕ → Bool) → (ℕ → Bool) → Option Bytes → Token → List Token → SnoopRequest
first_option fs in_proc attaches none t ts = null_read
first_option fs in_proc attaches (some s) t ts =
    if same s (b'-' ∷ b'p' ∷ [])
    then attach_option in_proc attaches ts
    else program_request (find_program fs s) (t ∷ ts)

unfoldable pub snoop_request : Files → (ℕ → Bool) → (ℕ → Bool) → List Token → SnoopRequest
unfolding attach_option find_program same
snoop_request fs in_proc attaches (name ∷ t ∷ ts) =
    first_option fs in_proc attaches (text_of t.type t.text) t ts
snoop_request fs in_proc attaches _ = invalid_syntax
