-- ===== src/Shell/Builtins/Resume.antt =====
-- `resume_cmd` of c-shell/src/resume.c: what the tokens ask for, and then the call.
pub mod Requests
use mini_project.Common.{
  ℕ, Bool, true, false, not, ◌||◌, Option, none, some, List, [], ◌∷◌, ◌==◌, if◌then◌else◌,
}
use mini_project.Shell.Token.{Bytes, Token}
use mini_project.Shell.Jobs.Types.{JobTable, Os, Event}
use mini_project.Shell.Jobs.Resume.{Round, jobs_resume_bg, jobs_resume_fg}
use mini_project.Shell.Builtins.{text_of, is_all_digits, atoi, same}

-- `null_read` is a call of `strcmp` on a null pointer.
pub data Request : Type 0 where
  invalid_syntax null_read : Request
  in_bg : ℕ → Request
  in_fg : ℕ → ℕ → Request

abbrev pub bg_word : Bytes
bg_word = b'b' ∷ b'g' ∷ []

abbrev pub fg_word : Bytes
fg_word = b'f' ∷ b'g' ∷ []

-- "--timeout"
abbrev pub timeout_word : Bytes
timeout_word = b'-' ∷ b'-' ∷ b't' ∷ b'i' ∷ b'm' ∷ b'e' ∷ b'o' ∷ b'u' ∷ b't' ∷ []

unfoldable pub timeout_value : ℕ → Bytes → Request
timeout_value job_id s =
    let timeout = atoi s in if timeout == 0 then invalid_syntax else in_fg job_id timeout

unfoldable pub timeout_digits : ℕ → Option Bytes → Request
unfolding timeout_value is_all_digits
timeout_digits job_id none = invalid_syntax
timeout_digits job_id (some s) =
    if is_all_digits (some s) then timeout_value job_id s else invalid_syntax

unfoldable pub timeout_option : ℕ → Option Bytes → Option Bytes → Request
unfolding timeout_digits same
timeout_option job_id none value = null_read
timeout_option job_id (some s) value =
    if same s timeout_word then timeout_digits job_id value else invalid_syntax

-- The tokens behind `fg`.
unfoldable pub fg_options : ℕ → List Token → Request
unfolding timeout_option
fg_options job_id [] = in_fg job_id 0
fg_options job_id (option ∷ value ∷ []) =
    timeout_option job_id (text_of option.type option.text) (text_of value.type value.text)
fg_options job_id _ = invalid_syntax

unfoldable pub bg_options : ℕ → List Token → Request
bg_options job_id [] = in_bg job_id
bg_options job_id _ = invalid_syntax

unfoldable pub with_mode : ℕ → Option Bytes → List Token → Request
unfolding bg_options fg_options same
with_mode job_id none more = invalid_syntax
with_mode job_id (some mode) more =
    if same mode bg_word
    then bg_options job_id more
    else if same mode fg_word
    then fg_options job_id more
    else invalid_syntax

unfoldable pub with_target : Option Bytes → Option Bytes → List Token → Request
unfolding with_mode is_all_digits
with_target none mode more = invalid_syntax
with_target (some []) mode more = invalid_syntax
with_target (some (c ∷ s)) mode more =
    if not (c == b'%') || not (is_all_digits (some s))
    then invalid_syntax
    else with_mode (atoi s) mode more

unfoldable pub resume_request : List Token → Request
unfolding with_target
resume_request (name ∷ target ∷ mode ∷ more) =
    with_target (text_of target.type target.text) (text_of mode.type mode.text) more
resume_request _ = invalid_syntax

-- What the resumption of a job is given: the kernel's answers, whether standard input is a
-- terminal, the rounds of its wait loop and whether the alarm fires behind the last one.
pub record Waits : Type 0 where
  pub os : Os
  pub tty : Bool
  pub rounds : List Round
  pub late : Bool

pub data ResumeResult : Type 0 where
  refused crashed : ResumeResult
  bg_done : Bool → List Event → ResumeResult
  fg_done : Option Bool → List Event → ResumeResult

abbrev pub resume_as : Request → Waits → JobTable → ResumeResult × JobTable
resume_as invalid_syntax w t = (refused, t)
resume_as null_read w t = (crashed, t)
resume_as (in_bg job_id) w t =
    let (ok, events, t') = jobs_resume_bg w.os job_id t in (bg_done ok events, t')
resume_as (in_fg job_id timeout) w t =
    let (ok, events, t') = jobs_resume_fg w.os w.tty timeout w.rounds w.late job_id t in
    (fg_done ok events, t')

unfoldable pub resume_cmd : List Token → Waits → JobTable → ResumeResult × JobTable
resume_cmd list w t = resume_as (resume_request list) w t
