-- ===== src/Shell/Execute/CommandLine.antt =====
-- `execute_pipeline_fg` of c-shell/src/execute.c with the builtins that it calls, and the loop of
-- `execute_command_line` in c-shell/src/jobs.c.
use mini_project.Common.{
  ℕ, ◌+◌, Bool, true, false, Option, none, some, List, [], ◌∷◌, ◌++◌, ◌==◌, if◌then◌else◌,
}
use mini_project.Shell.Token.{Bytes, Token}
use mini_project.Shell.Commands.{Command, commands, num_stages, reconstruct_cmd_str}
use mini_project.Shell.Search.{locate}
use mini_project.Shell.Hop.{Dirs, HopState, Line, hop}
use mini_project.Shell.Builtins.Resume.{Waits, ResumeResult, resume_cmd}
use mini_project.Shell.Builtins.Ping.{PingResult, ping_cmd}
use mini_project.Shell.Jobs.Types.{JobTable, Os, Event}
use mini_project.Shell.Jobs.Refresh.{sigchld_handler}
use mini_project.Shell.Jobs.Table.{jobs_alloc_id, jobs_set_fg_active}
use mini_project.Shell.Jobs.Report.{jobs_check_completed, jobs_refresh_and_print_activities}
use mini_project.Shell.Execute.{
  Builtin, do_hop, do_locate, do_activities, do_resume, do_ping, World, Notice, Answer, fg,
  stage_builtin, execute_cmd_internal,
}
use mini_project.Shell.Execute.Pipeline.{run_pipeline_fg}
use mini_project.Shell.Execute.Background.{execute_pipeline_bg}

-- What the shell keeps between commands.
pub record ShellState (Place : Type 0) : Type 0 where
  pub jobs : JobTable
  pub places : HopState Place

-- The answers while one command runs: those to its start, the runs of the SIGCHLD handler before
-- the table is used, those to a builtin, and those to the report behind it.
pub record Turn : Type 0 where
  pub world : World
  pub signals : List Os
  pub waits : Waits
  pub now : ℕ
  pub garbage : Bytes
  pub report : Os

-- What is printed and done, in order.
pub data Said : Type 0 where
  by_execute : List Notice → Said
  by_hop : List Line → Said
  by_locate : List (Bytes × List Bytes) → Said
  by_jobs : List Event → Said
  by_resume : ResumeResult → Said
  by_ping : PingResult → List Event → Said
  runs : Builtin → List Token → Said

unfoldable pub run_signals : List Os → JobTable → JobTable
run_signals [] t = t
run_signals (os ∷ more) t = run_signals more (sigchld_handler os t)

-- A builtin on the job table; the others read files and print, or trace a process of their own.
unfoldable pub jobs_builtin : Turn → Builtin → List Token → JobTable → Said × JobTable
unfolding resume_cmd ping_cmd jobs_refresh_and_print_activities locate
jobs_builtin turn do_activities list t =
    let (events, t') = jobs_refresh_and_print_activities turn.waits.os t in (by_jobs events, t')
jobs_builtin turn do_resume list t =
    let (result, t') = resume_cmd list turn.waits t in (by_resume result, t')
jobs_builtin turn do_ping list t =
    let (result, events, t') = ping_cmd turn.waits.os list t in (by_ping result events, t')
jobs_builtin turn do_locate list t = (by_locate (locate turn.world.files turn.garbage list), t)
jobs_builtin turn b list t = (runs b list, t)

module _ {Place : Type 0} (dirs : Dirs Place) (shell_home : Bytes) where
  abbrev on_jobs : Said × JobTable → ShellState Place → Said × ShellState Place
  on_jobs (said, t) s = (said, record s { jobs = t })

  unfoldable pub run_builtin :
      Turn → Builtin → List Token → ShellState Place → Said × ShellState Place
  unfolding hop jobs_builtin
  run_builtin turn do_hop list s =
      let (lines, places) = hop dirs shell_home turn.now list s.places in
      (by_hop lines, record s { places = places })
  run_builtin turn b list s = on_jobs (jobs_builtin turn b list s.jobs) s

  abbrev pub Result : Type 0
  Result = Bool × Said × ShellState Place

  abbrev pub executed : Answer → ShellState Place → Result
  executed (ok, notices, t) s = (ok, by_execute notices, record s { jobs = t })

  abbrev pub run_named_fg :
      Turn → Option Bytes → Option Builtin → List Token → ShellState Place → Result
  run_named_fg turn full none list s =
      executed (execute_cmd_internal turn.world fg full list s.jobs) s
  run_named_fg turn full (some b) list s =
      let (said, s') = run_builtin turn b list s in (true, said, s')

  unfoldable pub execute_pipeline_fg : Turn → Option Bytes → List Token → ShellState Place → Result
  unfolding run_builtin execute_cmd_internal run_pipeline_fg stage_builtin num_stages
  execute_pipeline_fg turn full [] s = (true, by_execute [], s)
  execute_pipeline_fg turn full (k ∷ list) s =
      if num_stages (k ∷ list) == 1
      then run_named_fg turn full (stage_builtin (k ∷ list)) (k ∷ list) s
      else executed (run_pipeline_fg turn.world full (k ∷ list) s.jobs) s

  abbrev set_jobs : (JobTable → JobTable) → ShellState Place → ShellState Place
  set_jobs f s = record s { jobs = f s.jobs }

  -- One command of a line: whether the line goes on, what is said, and the state.
  unfoldable pub run_command :
      Turn → Bool → List Token → ShellState Place → Bool × List Said × ShellState Place
  unfolding execute_pipeline_fg execute_pipeline_bg reconstruct_cmd_str jobs_check_completed
  run_command turn true list s =
      let (job_id, t) = jobs_alloc_id (run_signals turn.signals s.jobs) in
      let (ok, notices, t') =
        execute_pipeline_bg turn.world job_id (some (reconstruct_cmd_str list 512)) list t in
      (true, by_execute notices ∷ [], record s { jobs = t' })
  run_command turn false list s =
      let active = set_jobs (λ t. run_signals turn.signals (jobs_set_fg_active true t)) s in
      let (ok, said, s') =
        execute_pipeline_fg turn (some (reconstruct_cmd_str list 512)) list active in
      let (events, t) = jobs_check_completed turn.report (jobs_set_fg_active false s'.jobs) in
      (ok, said ∷ by_jobs events ∷ [], record s' { jobs = t })

  -- The commands from number `n`, up to one that fails in the foreground.
  unfoldable pub run_commands :
      (ℕ → Turn) → ℕ → List Command → ShellState Place → List Said × ShellState Place
  unfolding run_command
  run_commands turns n [] s = ([], s)
  run_commands turns n (c ∷ cs) s =
      let (ok, said, s') = run_command (turns n) c.is_bg c.tokens s in
      let (more, s'') = run_commands turns (n + 1) cs s' in
      if ok then (said ++ more, s'') else (said, s')

  unfoldable pub execute_command_line :
      (ℕ → Turn) → List Token → ShellState Place → List Said × ShellState Place
  unfolding run_commands commands
  execute_command_line turns list s = run_commands turns 0 (commands list) s
