-- ===== src/Tests/Builtins.antt =====
-- Calls of `resume` and `ping`.
use mini_project.Common.{List, [], ◌∷◌, ◌≡◌, ◌≢◌, ◌↔◌, refl}
use mini_project.Shell.Token.{Bytes, op_lt, op_word, Token}
use mini_project.Shell.Jobs.Types.{Os, no_change, letter, initial_table}
use mini_project.Shell.Jobs.Refresh.{jobs_refresh_states}
use mini_project.Shell.Builtins.Resume.{invalid_syntax, null_read, resume_request}
use mini_project.Shell.Builtins.Resume.Requests.{Asks, resume_request-Asks_iff}
use mini_project.Shell.Builtins.Ping.{ping_cmd}
use mini_project.Shell.Builtins.Ping.Signals.{PingOutcome, ping_cmd-PingOutcome}

abbrev word : Bytes → Token
word text = record { type = op_word; text = text }

abbrev less : Token
less = record { type = op_lt; text = [] }

-- `resume %1 fg < a`
abbrev with_input : List Token
with_input =
    word (b'r' ∷ [])
    ∷ word (b'%' ∷ b'1' ∷ [])
    ∷ word (b'f' ∷ b'g' ∷ [])
    ∷ less
    ∷ word (b'a' ∷ [])
    ∷ []

reads_null : resume_request with_input ≡ null_read
unfolding resume_request
reads_null = refl

null_is_no_refusal : null_read ≢ invalid_syntax
null_is_no_refusal e = cc

resume_request-Asks_iff_example :
    (resume_request with_input ≡ null_read) ↔ Asks with_input null_read
resume_request-Asks_iff_example = resume_request-Asks_iff with_input null_read null_is_no_refusal

abbrev asleep : Os
asleep = record { wait = λ pid. no_change; stat = λ pid. letter b'S' }

-- `ping %1 9`
abbrev kill_first : List Token
kill_first = word (b'p' ∷ []) ∷ word (b'%' ∷ b'1' ∷ []) ∷ word (b'9' ∷ []) ∷ []

ping_cmd-PingOutcome_example :
    PingOutcome kill_first initial_table
      (jobs_refresh_states asleep initial_table)
      (ping_cmd asleep kill_first initial_table)
ping_cmd-PingOutcome_example = ping_cmd-PingOutcome asleep kill_first initial_table
