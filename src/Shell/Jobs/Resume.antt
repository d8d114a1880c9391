-- ===== src/Shell/Jobs/Resume.antt =====
-- `jobs_resume_bg` and `jobs_resume_fg` of c-shell/src/jobs.c. The wait loop of the latter is a
-- recursion over the rounds that it makes: each says whether the timeout has fired, what a run of
-- `sigchld_handler` since the round before has seen, if there was one, and what `waitpid` answers.
-- Sleeping between rounds has no effect on the state; a signal that arrives in the midst of a
-- round counts to the next.
pub mod Outcome
pub mod Finish
pub mod Ends
use mini_project.Common.{
  get_elem?, modify, ℕ, zero, suc, ◌+◌, Bool, true, false, not, ◌||◌, ◌&&◌, Option, none, some,
  List, [], ◌∷◌, ◌++◌, ◌==◌, ltb, if◌then◌else◌,
}
use mini_project.Shell.Jobs.Types.{
  ProcState, proc_running, proc_stopped, proc_exited, ProcInfo, JobEntry, JobTable, WaitResult,
  wait_exited, wait_signaled, wait_stopped, wait_continued, no_change, no_child, other_error, Os,
  Event, kill_group, say_running, say_stopped, say_command, say_no_such_job, say_timed_out,
  give_terminal, take_terminal, set_alarm, sigcont, sigterm, is_exited,
}
use mini_project.Shell.Jobs.Refresh.{sigchld_handler}
use mini_project.Shell.Jobs.Table.{jobs_get_by_id, jobs_set_fg_active}

unfoldable pub wake_state : ProcState → ProcState
wake_state proc_stopped = proc_running
wake_state proc_running = proc_running
wake_state proc_exited = proc_exited

unfoldable pub wake_procs : List ProcInfo → List ProcInfo
unfolding wake_state
wake_procs [] = []
wake_procs (p ∷ ps) = record p { state = wake_state p.state } ∷ wake_procs ps

-- The job as continued.
unfoldable pub continue_job : JobEntry → JobEntry
unfolding wake_procs
continue_job j = record j { is_stopped = false; procs = wake_procs j.procs }

abbrev pub with_job : ℕ → (JobEntry → JobEntry) → JobTable → JobTable
with_job i f t = record t { jobs_list = modify i f t.jobs_list }

-- The entry at an index; the code holds a pointer that is never null here.
abbrev pub job_events_at : (JobEntry → List Event) → Option JobEntry → List Event
job_events_at f none = []
job_events_at f (some j) = f j

unfoldable pub resume_bg_at : Option ℕ → JobTable → Bool × List Event × JobTable
unfolding continue_job get_elem? modify
resume_bg_at none t = (false, say_no_such_job ∷ [], t)
resume_bg_at (some i) t = (
  true,
  job_events_at (λ j. kill_group j.pgid sigcont ∷ say_running j.job_id j.full_cmd ∷ [])
      (get_elem? t.jobs_list i),
  with_job i continue_job t,
)

unfoldable pub jobs_resume_bg : Os → ℕ → JobTable → Bool × List Event × JobTable
unfolding resume_bg_at
jobs_resume_bg os job_id t = let (found, t') = jobs_get_by_id os job_id t in resume_bg_at found t'

pub record Round : Type 0 where
  pub timed_out : Bool
  pub handler : Option Os
  pub wait : ℕ → WaitResult

-- What one pass of the wait loop over the processes counts.
pub record Count : Type 0 where
  pub alive : ℕ
  pub any_stopped : Bool

unfoldable pub count_alive : ProcState → Count → Count
count_alive proc_stopped c = record { alive = c.alive + 1; any_stopped = true }
count_alive proc_running c = record c { alive = c.alive + 1 }
count_alive proc_exited c = record c { alive = c.alive + 1 }

-- A process that is not known to have exited, at the answer of `waitpid`.
unfoldable pub wait_proc : WaitResult → ProcState → Count → ProcState × Count
unfolding count_alive
wait_proc (wait_exited raw) st c = (proc_exited, c)
wait_proc (wait_signaled raw) st c = (proc_exited, c)
wait_proc (wait_stopped raw) st c = (proc_stopped, record c { any_stopped = true })
wait_proc (wait_continued raw) st c = (st, c)
wait_proc no_child st c = (proc_exited, c)
wait_proc no_change st c = (st, count_alive st c)
wait_proc other_error st c = (st, count_alive st c)

unfoldable pub wait_one : (ℕ → WaitResult) → ProcInfo → Count → ProcState × Count
unfolding wait_proc is_exited
wait_one wait p c = if is_exited p.state then (p.state, c) else wait_proc (wait p.pid) p.state c

unfoldable pub wait_procs : (ℕ → WaitResult) → List ProcInfo → Count → List ProcInfo × Count
unfolding wait_one
wait_procs wait [] c = ([], c)
wait_procs wait (p ∷ ps) c =
    let (st, c') = wait_one wait p c in
    let (ps', c'') = wait_procs wait ps c' in (record p { state = st } ∷ ps', c'')

pub data WaitEnd : Type 0 where
  timed_out : WaitEnd
  ended : Bool → Bool → WaitEnd
  still_waiting : WaitEnd

abbrev pub procs_at : ℕ → JobTable → List ProcInfo
procs_at i t = elim (get_elem? t.jobs_list i) [ none ↦ [] | some j ↦ j.procs ]

unfoldable pub run_handler : Option Os → JobTable → JobTable
run_handler none t = t
run_handler (some os) t = sigchld_handler os t

-- Where the loop breaks: at its head if the timeout has fired, with the table `t'`; else behind
-- the pass, with the table `t''`, if nothing is alive or something is stopped; else not yet.
unfoldable pub pass_end :
    Bool → Bool → Bool → JobTable → JobTable → WaitEnd × JobTable → WaitEnd × JobTable
pass_end true none_alive any_stopped t' t'' rest = (timed_out, t')
pass_end false true any_stopped t' t'' rest = (ended any_stopped true, t'')
pass_end false false true t' t'' rest = (ended true false, t'')
pass_end false false false t' t'' rest = rest

-- `ended any_stopped all_done` is how the loop breaks after a pass.
unfoldable pub wait_loop : ℕ → List Round → JobTable → WaitEnd × JobTable
unfolding run_handler pass_end
wait_loop i [] t = (still_waiting, t)
wait_loop i (r ∷ rs) t =
    let t' = run_handler r.handler t in
    let (ps, c) = wait_procs r.wait (procs_at i t') (record { alive = 0; any_stopped = false }) in
    let t'' = with_job i (λ j. record j { procs = ps }) t' in
    pass_end r.timed_out (c.alive == 0) c.any_stopped t' t'' (wait_loop i rs t'')

unfoldable pub close_job : JobEntry → JobEntry
close_job j = record j { active = false; finished = true }

-- What follows the loop; `late` is whether the timeout fires behind it, before the flag is read.
unfoldable pub resume_end : WaitEnd → Bool → ℕ → JobTable → Option Bool × List Event × JobTable
unfolding close_job get_elem? modify
resume_end still_waiting late i t = (none, [], t)
resume_end timed_out late i t = (
  some true,
  job_events_at (λ j. kill_group j.pgid sigterm ∷ say_timed_out ∷ []) (get_elem? t.jobs_list i),
  with_job i close_job t,
)
resume_end (ended any_stopped all_done) late i t =
    if late
    then (
      some true,
      job_events_at (λ j. kill_group j.pgid sigterm ∷ say_timed_out ∷ []) (get_elem? t.jobs_list i),
      with_job i close_job t,
    )
    else if any_stopped
    then (
      some false,
      job_events_at (λ j. say_stopped j.job_id j.full_cmd ∷ []) (get_elem? t.jobs_list i),
      with_job i (λ j. record j { is_stopped = true }) t,
    )
    else if all_done
    then (some true, [], with_job i close_job t)
    else (some true, [], t)

abbrev pub when : Bool → List Event → List Event
when b es = if b then es else []

abbrev pub start_events : Bool → ℕ → JobEntry → List Event
start_events tty timeout j =
    say_command j.full_cmd
    ∷ (when tty (give_terminal j.pgid ∷ [])
        ++ (kill_group j.pgid sigcont ∷ when (ltb 0 timeout) (set_alarm timeout ∷ [])))

abbrev pub stop_events : Bool → ℕ → List Event
stop_events tty timeout = when (ltb 0 timeout) (set_alarm 0 ∷ []) ++ when tty (take_terminal ∷ [])

-- `none` is a wait that has not ended within the rounds given. The timeout can fire only if one
-- was asked for.
unfoldable pub resume_fg_at :
    Bool → ℕ → List Round → Bool → Option ℕ → JobTable → Option Bool × List Event × JobTable
unfolding continue_job resume_end jobs_set_fg_active
resume_fg_at tty timeout rounds late none t = (some false, say_no_such_job ∷ [], t)
resume_fg_at tty timeout rounds late (some i) t =
    let started = job_events_at (start_events tty timeout) (get_elem? t.jobs_list i) in
    let t₁ = jobs_set_fg_active true (with_job i continue_job t) in
    let (end, t₂) = wait_loop i rounds t₁ in
    let (result, events, t₃) = resume_end end late i (jobs_set_fg_active false t₂) in
    (result, started ++ (stop_events tty timeout ++ events), t₃)

unfoldable pub jobs_resume_fg :
    Os → Bool → ℕ → List Round → Bool → ℕ → JobTable → Option Bool × List Event × JobTable
unfolding resume_fg_at
jobs_resume_fg os tty timeout rounds late job_id t =
    let (found, t') = jobs_get_by_id os job_id t in resume_fg_at tty timeout rounds late found t'
