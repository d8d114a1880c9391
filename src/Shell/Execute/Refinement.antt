-- ===== src/Shell/Execute/Refinement.antt =====
-- The commands of c-shell/src/execute.c and the loop of `execute_command_line` use the job table
-- only through the operations of c-shell/src/jobs.c, and each as it is meant.
use mini_project.Common.{
  ℕ, ◌+◌, ◌-◌, Bool, true, false, Option, none, some, List, [], ◌∷◌, if_elim, ◌==◌, length,
}
use mini_project.Shell.Token.{Bytes, Token}
use mini_project.Shell.Commands.{
  Command, commands, num_stages, reconstruct_cmd_str, pipeline_stages,
}
use mini_project.Shell.Hop.{Dirs}
use mini_project.Shell.Builtins.Resume.{
  Request, in_bg, in_fg, invalid_syntax, null_read, Waits, resume_as, resume_request, resume_cmd,
}
use mini_project.Shell.Builtins.Ping
use mini_project.Shell.Builtins.Ping.Signals.{
  PingOutcome, refused, crashed, nobody, to_group, to_process, ping_cmd-PingOutcome,
}
use mini_project.Shell.Jobs.Types.{JobTable, Os}
use mini_project.Shell.Jobs.Refresh.{sigchld_handler}
use mini_project.Shell.Jobs.Table.{jobs_alloc_id, jobs_set_fg_active}
use mini_project.Shell.Jobs.Report.{jobs_refresh_and_print_activities}
use mini_project.Shell.Jobs.Invariant.Adding.{start_job, park_job}
use mini_project.Shell.Jobs.Invariant.Reachable.{
  waste_id, start, park, foreground, refresh, child_signal, check, resume_bg, resume_fg, Reachable,
  after,
}
use mini_project.Shell.Execute.{
  Builtin, do_hop, do_reveal, do_peek, do_locate, do_activities, do_resume, do_ping, do_spy,
  do_snoop, World, Program, Prepared, nothing, ready, fg, display, first_arg, Answer, park_when,
  wait_fg, run_forked, run_prepared, prepare, execute_cmd_internal, stage_builtin,
}
use mini_project.Shell.Execute.Pipeline.{
  first_pid, first_stage, fork_stages, all_pipes, any_stops, run_stages_fg, run_parsed_fg,
  run_pipeline_fg,
}
use mini_project.Shell.Execute.Outcomes.{
  BgAnswer, no_command, failed, started, execute_pipeline_bg-BgAnswer,
}
use mini_project.Shell.Execute.CommandLine.{
  ShellState, Turn, Said, run_signals, jobs_builtin, run_builtin, run_named_fg, execute_pipeline_fg,
  run_command, run_commands, execute_command_line,
}

abbrev Kept : Answer → Type 0
Kept a = Reachable a.2

park_when-Kept :
    (stopped : Bool) (pgid : ℕ) (pids : List (ℕ × Bytes)) (disp : Bytes) (t : JobTable)
    → Reachable t
    → Kept (park_when stopped pgid pids disp t)
unfolding park_when park_job
park_when-Kept false pgid pids disp t h = h
park_when-Kept true pgid pids disp t h = after h (park pgid pids (some disp) t)

module _ (w : World) (full : Option Bytes) (t : JobTable) (h : Reachable t) where
  run_forked-Kept :
      (name : Bytes) (p : Program) (o : Option ℕ) → Kept (run_forked w fg full name p o t)
  unfolding run_forked wait_fg
  run_forked-Kept name p none = h
  run_forked-Kept name p (some pid) =
      park_when-Kept (w.stops 0) pid ((pid, name) ∷ []) (display full name) t h

  run_prepared-Kept : (p : Prepared) → Kept (run_prepared w fg full p t)
  unfolding run_prepared
  run_prepared-Kept nothing = h
  run_prepared-Kept (Prepared.refused r) = h
  run_prepared-Kept (ready p) = run_forked-Kept (first_arg p.argv) p (w.fork 0)

  execute_cmd_internal-Kept : (list : List Token) → Kept (execute_cmd_internal w fg full list t)
  unfolding execute_cmd_internal
  execute_cmd_internal-Kept list = run_prepared-Kept (prepare w list).1

  run_stages_fg-Kept : (stages : List (List Token)) → Kept (run_stages_fg w full stages t)
  unfolding run_stages_fg wait_fg
  run_stages_fg-Kept stages =
      let pids = fork_stages w 0 stages in
      if_elim Kept (all_pipes w 0 (length stages - 1))
        (park_when-Kept (any_stops w 0 (length stages)) (first_pid pids) pids
          (display full (first_stage stages)) t h)
        h

  run_parsed_fg-Kept : (o : Option (List (List Token))) → Kept (run_parsed_fg w full o t)
  run_parsed_fg-Kept none = h
  run_parsed_fg-Kept (some stages) = run_stages_fg-Kept stages

  run_pipeline_fg-Kept : (list : List Token) → Kept (run_pipeline_fg w full list t)
  unfolding run_pipeline_fg
  run_pipeline_fg-Kept list = run_parsed_fg-Kept (pipeline_stages list)

resume_as-Reachable :
    (r : Request) (w : Waits) (t : JobTable) → Reachable t → Reachable (resume_as r w t).1
resume_as-Reachable invalid_syntax w t h = h
resume_as-Reachable null_read w t h = h
resume_as-Reachable (in_bg job_id) w t h = after h (resume_bg w.os job_id t)
resume_as-Reachable (in_fg job_id timeout) w t h =
    after h (resume_fg w.os w.tty timeout w.rounds w.late job_id t)

PingOutcome-Reachable :
    {list : List Token} {t u : JobTable} {a : Ping.Answer}
    → PingOutcome list t u a
    → Reachable t
    → Reachable u
    → Reachable a.2
PingOutcome-Reachable refused h k = h
PingOutcome-Reachable (crashed name target sig e f) h k = h
PingOutcome-Reachable nobody h k = k
PingOutcome-Reachable (to_group job_id raw sig i j target e m f b) h k = k
PingOutcome-Reachable (to_process pid raw sig target e f b) h k = k

jobs_builtin-Reachable :
    (turn : Turn) (b : Builtin) (list : List Token) (t : JobTable)
    → Reachable t
    → Reachable (jobs_builtin turn b list t).1
unfolding jobs_builtin jobs_refresh_and_print_activities resume_cmd
jobs_builtin-Reachable turn do_activities list t h = after h (refresh turn.waits.os t)
jobs_builtin-Reachable turn do_resume list t h =
    resume_as-Reachable (resume_request list) turn.waits t h
jobs_builtin-Reachable turn do_ping list t h =
    PingOutcome-Reachable (ping_cmd-PingOutcome turn.waits.os list t) h
      (after h (refresh turn.waits.os t))
jobs_builtin-Reachable turn do_locate list t h = h
jobs_builtin-Reachable turn _ list t h = h

run_signals-Reachable :
    (signals : List Os) (t : JobTable) → Reachable t → Reachable (run_signals signals t)
unfolding run_signals
run_signals-Reachable [] t h = h
run_signals-Reachable (os ∷ more) t h =
    run_signals-Reachable more (sigchld_handler os t) (after h (child_signal os t))

BgAnswer-Reachable :
    (w : World) (full : Option Bytes) (list : List Token) (t : JobTable) {a : Answer}
    → BgAnswer w (jobs_alloc_id t).0 full list (jobs_alloc_id t).1 a
    → Reachable t
    → Reachable a.2
unfolding jobs_alloc_id start_job
BgAnswer-Reachable w full list t (no_command n) h = after h (waste_id t)
BgAnswer-Reachable w full list t (failed files n f) h = after h (waste_id t)
BgAnswer-Reachable w full list t (started before pids cmd s r) h =
    after h (start (first_pid pids) pids cmd t)

module _ {Place : Type 0} (dirs : Dirs Place) (shell_home : Bytes) where
  run_builtin-Reachable :
      (turn : Turn) (b : Builtin) (list : List Token) (s : ShellState Place)
      → Reachable s.jobs
      → Reachable (run_builtin dirs shell_home turn b list s).1.jobs
  unfolding run_builtin
  run_builtin-Reachable turn do_hop list s h = h
  run_builtin-Reachable turn do_reveal list s h =
      jobs_builtin-Reachable turn do_reveal list s.jobs h
  run_builtin-Reachable turn do_peek list s h = jobs_builtin-Reachable turn do_peek list s.jobs h
  run_builtin-Reachable turn do_locate list s h =
      jobs_builtin-Reachable turn do_locate list s.jobs h
  run_builtin-Reachable turn do_activities list s h =
      jobs_builtin-Reachable turn do_activities list s.jobs h
  run_builtin-Reachable turn do_resume list s h =
      jobs_builtin-Reachable turn do_resume list s.jobs h
  run_builtin-Reachable turn do_ping list s h = jobs_builtin-Reachable turn do_ping list s.jobs h
  run_builtin-Reachable turn do_spy list s h = jobs_builtin-Reachable turn do_spy list s.jobs h
  run_builtin-Reachable turn do_snoop list s h = jobs_builtin-Reachable turn do_snoop list s.jobs h

  abbrev Ends : Bool × Said × ShellState Place → Type 0
  Ends r = Reachable r.2.jobs

  run_named_fg-Ends :
      (turn : Turn) (full : Option Bytes) (o : Option Builtin) (list : List Token)
      (s : ShellState Place)
      → Reachable s.jobs
      → Ends (run_named_fg dirs shell_home turn full o list s)
  run_named_fg-Ends turn full none list s h =
      execute_cmd_internal-Kept turn.world full s.jobs h list
  run_named_fg-Ends turn full (some b) list s h = run_builtin-Reachable turn b list s h

  execute_pipeline_fg-Ends :
      (turn : Turn) (full : Option Bytes) (list : List Token) (s : ShellState Place)
      → Reachable s.jobs
      → Ends (execute_pipeline_fg dirs shell_home turn full list s)
  unfolding execute_pipeline_fg
  execute_pipeline_fg-Ends turn full [] s h = h
  execute_pipeline_fg-Ends turn full (k ∷ list) s h =
      if_elim Ends (num_stages (k ∷ list) == 1)
        (run_named_fg-Ends turn full (stage_builtin (k ∷ list)) (k ∷ list) s h)
        (run_pipeline_fg-Kept turn.world full s.jobs h (k ∷ list))

  run_command-Reachable :
      (turn : Turn) (is_bg : Bool) (list : List Token) (s : ShellState Place)
      → Reachable s.jobs
      → Reachable (run_command dirs shell_home turn is_bg list s).2.jobs
  unfolding run_command
  run_command-Reachable turn true list s h =
      let t = run_signals turn.signals s.jobs in
      BgAnswer-Reachable turn.world (some (reconstruct_cmd_str list 512)) list t
        (execute_pipeline_bg-BgAnswer turn.world (jobs_alloc_id t).0
          (some (reconstruct_cmd_str list 512)) list (jobs_alloc_id t).1)
        (run_signals-Reachable turn.signals s.jobs h)
  run_command-Reachable turn false list s h =
      let active = run_signals turn.signals (jobs_set_fg_active true s.jobs) in
      let full = some (reconstruct_cmd_str list 512) in
      let at_start : Reachable active =
        run_signals-Reachable turn.signals _ (after h (foreground true s.jobs)) in
      let ran = execute_pipeline_fg-Ends turn full list (record s { jobs = active }) at_start in
      after (after ran (foreground false _)) (check turn.report _)

  run_commands-Reachable :
      (turns : ℕ → Turn) (n : ℕ) (cs : List Command) (s : ShellState Place)
      → Reachable s.jobs
      → Reachable (run_commands dirs shell_home turns n cs s).1.jobs
  unfolding run_commands
  run_commands-Reachable turns n [] s h = h
  run_commands-Reachable turns n (c ∷ cs) s h =
      let (ok, said, s') = run_command dirs shell_home (turns n) c.is_bg c.tokens s in
      let h' : Reachable s'.jobs = run_command-Reachable (turns n) c.is_bg c.tokens s h in
      if_elim (λ (r : List Said × ShellState Place). Reachable r.1.jobs) ok
        (run_commands-Reachable turns (n + 1) cs s' h') h'

  -- Whatever the operating system answers, a line of commands takes a job table that the operations
  -- of the job table reach to another that they reach.
  pub execute_command_line-Reachable :
      (turns : ℕ → Turn) (list : List Token) (s : ShellState Place)
      → Reachable s.jobs
      → Reachable (execute_command_line dirs shell_home turns list s).1.jobs
  unfolding execute_command_line
  execute_command_line-Reachable turns list s h = run_commands-Reachable turns 0 (commands list) s h
