-- ===== src/Shell/Main/Prompt.antt =====
-- The prompt of c-shell/src/main.c: `get_display_path` and `print_prompt`. The buffer of the path
-- has PATH_MAX bytes.
pub mod Shown
use mini_project.Common.{
  ℕ, ◌≤◌, Bool, true, false, not, Option, none, some, List, [], ◌∷◌, ◌++◌, ◌≡◌, refl, ap, ◌∙◌, sym,
  ◌==◌, inl, inr, arith, if◌then◌else◌, Bool-cases, length, take,
}
use mini_project.Shell.Token.{Bytes}
use mini_project.Shell.Builtins.{same}

-- What stands behind `prefix`, when `strncmp` finds it at the head.
unfoldable pub behind : Bytes → Bytes → Option Bytes
behind [] s = some s
behind (c ∷ p) [] = none
behind (c ∷ p) (d ∷ s) = if c == d then behind p s else none

-- A path in the home directory is written with a tilde.
abbrev pub with_tilde : Bytes → Option Bytes → Bytes
with_tilde cwd none = cwd
with_tilde cwd (some []) = cwd
with_tilde cwd (some (c ∷ s)) = if c == b'/' then b'~' ∷ c ∷ s else cwd

unfoldable pub get_display_path : Bytes → Option Bytes → Bytes
unfolding same behind
get_display_path home_dir none = b'?' ∷ []
get_display_path home_dir (some cwd) =
    if same cwd home_dir then b'~' ∷ [] else take 4095 (with_tilde cwd (behind home_dir cwd))

unfoldable pub print_prompt : Bytes → Bytes → Bytes → Option Bytes → Bytes
unfolding get_display_path
print_prompt username hostname home_dir cwd =
    b'<'
    ∷ (username ++ b'@' ∷ (hostname ++ b':' ∷ (get_display_path home_dir cwd ++ b'>' ∷ b' ' ∷ [])))
