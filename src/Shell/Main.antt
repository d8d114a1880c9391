-- ===== src/Shell/Main.antt =====
-- The loop of c-shell/src/main.c. One round is one call of `fgets` and what follows it. `line` is
-- the buffer of that name, which a call without a line leaves as it is, and holds no byte 0.
pub mod Rounds
pub mod Ending
pub mod Prompt
use mini_project.Common.{
  ℕ, ◌+◌, Bool, true, false, not, ◌&&◌, ◌||◌, Option, none, some, List, [], ◌∷◌, ◌++◌, ◌==◌, ltb,
  if◌then◌else◌, length,
}
use mini_project.Shell.Token.{Bytes, Token}
use mini_project.Shell.Lexer.{LineResult, tokens, lex_error, out_of_fuel, lex_line}
use mini_project.Shell.Parser.{parse_tokens}
use mini_project.Shell.Hop.{Dirs}
use mini_project.Shell.Jobs.Types.{JobTable, Os, Event}
use mini_project.Shell.Jobs.Table.{jobs_has_stopped, jobs_send_sighup_all}
use mini_project.Shell.Jobs.Report.{jobs_check_completed}
use mini_project.Shell.Execute.CommandLine.{ShellState, Turn, Said, execute_command_line}

abbrev pub max_input_len : ℕ
max_input_len = 1024

-- What `fgets` gives: a line, or none, with `errno` being EINTR or not. The end of the input leaves
-- `errno` as it was, so that `end_of_file` is an end at which no EINTR has been left over.
pub data Input : Type 0 where
  got_line : Bytes → Input
  interrupted end_of_file : Input

-- The answers during a round: those to the report before the prompt, whether SIGINT or SIGTSTP has
-- come since the last round, those at the end of the input, and those for the commands.
pub record MainRound : Type 0 where
  pub check : Os
  pub signalled : Bool
  pub input : Input
  pub at_end : Os
  pub turns : ℕ → Turn

pub record MainState (Place : Type 0) : Type 0 where
  pub line : Bytes
  pub accum_line : Bytes
  pub eof_warned : Bool
  pub prompt_interrupted : Bool
  pub shell : ShellState Place

pub data Output : Type 0 where
  prompt newline stopped_jobs invalid_syntax : Output
  by_jobs : List Event → Output
  by_commands : List Said → Output

-- Whether the loop goes on, what it prints, and the state.
abbrev pub Round : Type 0 → Type 0
Round Place = Bool × List Output × MainState Place

-- Whether a byte is the last one of a line.
unfoldable pub ends_in : ℕ → Bytes → Bool
ends_in c [] = false
ends_in c (d ∷ []) = d == c
ends_in c (d ∷ e ∷ s) = ends_in c (e ∷ s)

unfoldable pub without_last : Bytes → Bytes
without_last [] = []
without_last (d ∷ []) = []
without_last (d ∷ e ∷ s) = d ∷ without_last (e ∷ s)

-- The line that is handed on, without its end.
unfoldable pub chomp : Bytes → Bytes
unfolding ends_in without_last
chomp s = if ends_in b'\n' s then without_last s else s

-- A line that does not fit into the rest of the buffer is dropped.
unfoldable pub append_line : Bytes → Bytes → Bytes
append_line accum line =
    if ltb (length accum + length line) (max_input_len + 1) then accum ++ line else accum

abbrev pub empty : Bytes → Bool
empty [] = true
empty (c ∷ s) = false

module _ {Place : Type 0} (dirs : Dirs Place) (shell_home : Bytes) (tty : Bool) where
  abbrev pub with_jobs : JobTable → MainState Place → MainState Place
  with_jobs t s = record s { shell = record s.shell { jobs = t } }

  -- The report and the prompt, when no line is half typed.
  unfoldable pub greet : Os → MainState Place → List Output × MainState Place
  unfolding jobs_check_completed
  greet os s =
      let (events, t) = jobs_check_completed os s.shell.jobs in
      if empty s.accum_line then (by_jobs events ∷ prompt ∷ [], with_jobs t s) else ([], s)

  -- A read that a signal has interrupted.
  unfoldable pub interrupt : MainState Place → Round Place
  interrupt s =
      if s.prompt_interrupted
      then (true, newline ∷ [], record s { prompt_interrupted = false; accum_line = [] })
      else (true, [], s)

  abbrev pub run_parsed :
      (ℕ → Turn) → Bool → List Token → MainState Place → List Output × MainState Place
  run_parsed turns false list s = (invalid_syntax ∷ [], s)
  run_parsed turns true [] s = ([], s)
  run_parsed turns true (k ∷ ks) s =
      let (said, shell) = execute_command_line dirs shell_home turns (k ∷ ks) s.shell in
      (by_commands said ∷ [], record s { shell = shell })

  -- The lexer is never out of fuel.
  abbrev pub run_lexed : (ℕ → Turn) → LineResult → MainState Place → List Output × MainState Place
  run_lexed turns lex_error s = (invalid_syntax ∷ [], s)
  run_lexed turns out_of_fuel s = ([], s)
  run_lexed turns (tokens v) s = run_parsed turns (parse_tokens v.items) v.items s

  -- A whole line is taken out of the buffer and run.
  unfoldable pub run_line : (ℕ → Turn) → MainState Place → List Output × MainState Place
  unfolding lex_line chomp parse_tokens execute_command_line
  run_line turns s =
      run_lexed turns (lex_line (chomp s.accum_line))
        (record s { eof_warned = false; accum_line = [] })

  -- From the test of `line[0]` to the end of the round.
  unfoldable pub take_line : (ℕ → Turn) → MainState Place → Round Place
  unfolding run_line append_line ends_in
  take_line turns s =
      let accum = append_line s.accum_line s.line in
      let s' = record s { accum_line = accum } in
      if empty accum || (not (ends_in b'\n' accum) && tty)
      then (true, [], s')
      else (let (outputs, s'') = run_line turns s' in (true, outputs, s''))

  -- The end of the input on an empty line: one warning, and then the end.
  unfoldable pub leave : Os → MainState Place → Round Place
  unfolding jobs_has_stopped jobs_send_sighup_all
  leave os s =
      let (stopped, t) = jobs_has_stopped os s.shell.jobs in
      if stopped && not s.eof_warned
      then (true, stopped_jobs ∷ [], with_jobs t (record s { eof_warned = true }))
      else (
        false,
        by_jobs (jobs_send_sighup_all t) ∷ by_jobs (jobs_send_sighup_all t) ∷ newline ∷ [],
        with_jobs t s,
      )

  -- On a terminal the end of the input behind half a line does nothing.
  unfoldable pub end_input : MainRound → MainState Place → Round Place
  unfolding take_line leave
  end_input r s =
      if empty s.accum_line
      then leave r.at_end s
      else if tty
      then (true, [], s)
      else take_line r.turns s

  abbrev pub on_input : MainRound → Input → MainState Place → Round Place
  on_input r (got_line line) s = take_line r.turns (record s { line = line })
  on_input r interrupted s = interrupt s
  on_input r end_of_file s = end_input r s

  unfoldable pub main_round : MainRound → MainState Place → Round Place
  unfolding greet take_line interrupt end_input
  main_round r s =
      let (outputs, s') = greet r.check s in
      let (goes_on, more, s'') =
        on_input r r.input
          (record s' { prompt_interrupted = s'.prompt_interrupted || r.signalled }) in
      (goes_on, outputs ++ more, s'')

  -- The rounds up to the one that ends the loop; the first component is whether it has not ended.
  unfoldable pub main_loop : List MainRound → MainState Place → Round Place
  unfolding main_round
  main_loop [] s = (true, [], s)
  main_loop (r ∷ rs) s =
      let (goes_on, outputs, s') = main_round r s in
      let (later, more, s'') = main_loop rs s' in
      if goes_on then (later, outputs ++ more, s'') else (false, outputs, s')
