-- ===== src/Shell/Builtins/Ping.antt =====
-- `ping_cmd` of c-shell/src/ping.c.
pub mod Signals
use mini_project.Common.{
  ℕ, ◌%◌, Bool, true, false, not, Option, none, some, List, [], ◌∷◌, ◌==◌, if◌then◌else◌,
}
use mini_project.Shell.Token.{Bytes, Token}
use mini_project.Shell.Jobs.Types.{JobTable, Os, Event}
use mini_project.Shell.Jobs.Table.{jobs_send_signal_to_job, jobs_send_signal_to_pid}
use mini_project.Shell.Builtins.{text_of, is_all_digits, atoi}

-- `null_read` is a read through a null pointer; `sent` carries the two values that are printed.
pub data PingResult : Type 0 where
  invalid_syntax null_read no_such_process : PingResult
  sent : ℕ → Bytes → PingResult

abbrev pub Answer : Type 0
Answer = PingResult × List Event × JobTable

abbrev pub reply : ℕ → Bytes → Bool → PingResult
reply raw_sig target true = sent raw_sig target
reply raw_sig target false = no_such_process

unfoldable pub ping_job : Os → ℕ → Bytes → Bytes → JobTable → Answer
unfolding is_all_digits
ping_job os raw_sig target number t =
    if is_all_digits (some number)
    then (let (found, events, t') = jobs_send_signal_to_job os (atoi number) (raw_sig % 64) t in
        (reply raw_sig target found, events, t'))
    else (invalid_syntax, [], t)

unfoldable pub ping_pid : Os → ℕ → Bytes → JobTable → Answer
unfolding is_all_digits
ping_pid os raw_sig target t =
    if is_all_digits (some target)
    then (let (found, events, t') = jobs_send_signal_to_pid os (atoi target) (raw_sig % 64) t in
        (reply raw_sig target found, events, t'))
    else (invalid_syntax, [], t)

unfoldable pub ping_target : Os → ℕ → Option Bytes → JobTable → Answer
unfolding ping_job ping_pid
ping_target os raw_sig none t = (null_read, [], t)
ping_target os raw_sig (some []) t = ping_pid os raw_sig [] t
ping_target os raw_sig (some (c ∷ s)) t =
    if c == b'%' then ping_job os raw_sig (c ∷ s) s t else ping_pid os raw_sig (c ∷ s) t

unfoldable pub ping_signal : Os → Option Bytes → Option Bytes → JobTable → Answer
unfolding ping_target is_all_digits
ping_signal os target none t = (invalid_syntax, [], t)
ping_signal os target (some s) t =
    if is_all_digits (some s) then ping_target os (atoi s) target t else (invalid_syntax, [], t)

unfoldable pub ping_cmd : Os → List Token → JobTable → Answer
unfolding ping_signal
ping_cmd os (name ∷ target ∷ sig ∷ []) t =
    ping_signal os (text_of target.type target.text) (text_of sig.type sig.text) t
ping_cmd os _ t = (invalid_syntax, [], t)
