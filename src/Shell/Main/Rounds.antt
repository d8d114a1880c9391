-- ===== src/Shell/Main/Rounds.antt =====
-- What the rounds of the loop in c-shell/src/main.c keep, and how they end.
use mini_project.Common.{
  ℕ, ◌+◌, ◌≤◌, Bool, true, false, not, ◌&&◌, ◌||◌, List, [], ◌∷◌, ◌++◌, ltb, if_elim, if_cases,
  length, length-append, arith,
}
use mini_project.Shell.Token.{Bytes, Token}
use mini_project.Shell.Lexer.{LineResult, tokens, lex_error, out_of_fuel, lex_line}
use mini_project.Shell.Parser.{parse_tokens}
use mini_project.Shell.Hop.{Dirs}
use mini_project.Shell.Jobs.Types.{Os}
use mini_project.Shell.Jobs.Refresh.{jobs_refresh_states}
use mini_project.Shell.Jobs.Table.{jobs_has_stopped}
use mini_project.Shell.Jobs.Report.{jobs_check_completed}
use mini_project.Shell.Jobs.Invariant.Reachable.{Reachable, refresh, check, after}
use mini_project.Shell.Execute.CommandLine.{Turn}
use mini_project.Shell.Execute.Refinement.{execute_command_line-Reachable}
use mini_project.Shell.Main.{
  max_input_len, Input, got_line, interrupted, end_of_file, MainRound, MainState, Output, Round,
  ends_in, chomp, append_line, empty, greet, interrupt, run_parsed, run_lexed, run_line, take_line,
  leave, end_input, on_input, main_round, main_loop,
}

append_line-bound :
    (accum line : Bytes)
    → length accum ≤ max_input_len
    → length (append_line accum line) ≤ max_input_len
unfolding append_line
append_line-bound accum line h =
    if_cases (λ s. length s ≤ max_input_len) (ltb (length accum + length line) (max_input_len + 1))
      (accum ++ line) accum (λ fits. let sum = length-append accum line in ground arith) (λ e. h)

module _ {Place : Type 0} (dirs : Dirs Place) (shell_home : Bytes) (tty : Bool) where
  -- The job table is reached by the operations on it, and the buffer holds what it has room for.
  pub record IsSound (s : MainState Place) : Type 0 where
    pub reached : Reachable s.shell.jobs
    pub fits : length s.accum_line ≤ max_input_len

  abbrev Keeps : Round Place → Type 0
  Keeps r = IsSound r.2

  greet-IsSound :
      (os : Os) (s : MainState Place) → IsSound s → IsSound (greet dirs shell_home tty os s).1
  unfolding greet jobs_check_completed
  greet-IsSound os s h =
      if_elim (λ (r : List Output × MainState Place). IsSound r.1) (empty s.accum_line)
        (record { reached = after h.reached (check os s.shell.jobs); fits = h.fits }) h

  interrupt-Keeps : (s : MainState Place) → IsSound s → Keeps (interrupt dirs shell_home tty s)
  unfolding interrupt
  interrupt-Keeps s h =
      if_elim Keeps s.prompt_interrupted (record { reached = h.reached; fits = omega arith }) h

  run_parsed-IsSound :
      (turns : ℕ → Turn) (valid : Bool) (list : List Token) (s : MainState Place)
      → IsSound s
      → IsSound (run_parsed dirs shell_home tty turns valid list s).1
  run_parsed-IsSound turns false list s h = h
  run_parsed-IsSound turns true [] s h = h
  run_parsed-IsSound turns true (k ∷ ks) s h = record {
    reached = execute_command_line-Reachable dirs shell_home turns (k ∷ ks) s.shell h.reached;
    fits = h.fits;
  }

  run_lexed-IsSound :
      (turns : ℕ → Turn) (r : LineResult) (s : MainState Place)
      → IsSound s
      → IsSound (run_lexed dirs shell_home tty turns r s).1
  run_lexed-IsSound turns lex_error s h = h
  run_lexed-IsSound turns out_of_fuel s h = h
  run_lexed-IsSound turns (tokens v) s h =
      run_parsed-IsSound turns (parse_tokens v.items) v.items s h

  take_line-Keeps :
      (turns : ℕ → Turn) (s : MainState Place)
      → IsSound s
      → Keeps (take_line dirs shell_home tty turns s)
  unfolding take_line run_line
  take_line-Keeps turns s h =
      let accum = append_line s.accum_line s.line in
      if_elim Keeps (empty accum || (not (ends_in b'\n' accum) && tty))
        (record { reached = h.reached; fits = append_line-bound s.accum_line s.line h.fits })
        (run_lexed-IsSound turns (lex_line (chomp accum)) _
          (record { reached = h.reached; fits = omega arith }))

  leave-Keeps : (os : Os) (s : MainState Place) → IsSound s → Keeps (leave dirs shell_home tty os s)
  unfolding leave jobs_has_stopped
  leave-Keeps os s h =
      let left : Reachable (jobs_refresh_states os s.shell.jobs) =
        after h.reached (refresh os s.shell.jobs) in
      if_elim Keeps ((jobs_has_stopped os s.shell.jobs).0 && not s.eof_warned)
        (record { reached = left; fits = h.fits }) (record { reached = left; fits = h.fits })

  end_input-Keeps :
      (r : MainRound) (s : MainState Place) → IsSound s → Keeps (end_input dirs shell_home tty r s)
  unfolding end_input
  end_input-Keeps r s h =
      if_elim Keeps (empty s.accum_line) (leave-Keeps r.at_end s h)
        (if_elim Keeps tty h (take_line-Keeps r.turns s h))

  on_input-Keeps :
      (r : MainRound) (i : Input) (s : MainState Place)
      → IsSound s
      → Keeps (on_input dirs shell_home tty r i s)
  on_input-Keeps r (got_line line) s h =
      take_line-Keeps r.turns _ (record { reached = h.reached; fits = h.fits })
  on_input-Keeps r interrupted s h = interrupt-Keeps s h
  on_input-Keeps r end_of_file s h = end_input-Keeps r s h

  main_round-Keeps :
      (r : MainRound) (s : MainState Place) → IsSound s → Keeps (main_round dirs shell_home tty r s)
  unfolding main_round
  main_round-Keeps r s h =
      let h' = greet-IsSound r.check s h in
      on_input-Keeps r r.input _ (record { reached = h'.reached; fits = h'.fits })

  -- Whatever is typed and whatever the operating system answers, the shell keeps its job table
  -- within what the operations of the table reach, and its line within the buffer of 1025 bytes.
  pub main_loop-IsSound :
      (rs : List MainRound) (s : MainState Place)
      → IsSound s
      → IsSound (main_loop dirs shell_home tty rs s).2
  unfolding main_loop
  main_loop-IsSound [] s h = h
  main_loop-IsSound (r ∷ rs) s h =
      let h' = main_round-Keeps r s h in
      if_elim Keeps (main_round dirs shell_home tty r s).0 (main_loop-IsSound rs _ h') h'
