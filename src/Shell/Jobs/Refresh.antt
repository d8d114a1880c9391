-- ===== src/Shell/Jobs/Refresh.antt =====
-- `jobs_refresh_states` and `sigchld_handler` of c-shell/src/jobs.c: what the shell learns of its
-- children. A pass over the processes of a job carries the fields that it sets in a `Sweep`.
pub mod Steady
use mini_project.Common.{ℕ, Bool, true, false, not, ◌||◌, ◌&&◌, List, [], ◌∷◌, ◌==◌, if◌then◌else◌}
use mini_project.Shell.Jobs.Types.{
  ProcState, proc_running, proc_stopped, proc_exited, ProcInfo, JobEntry, JobTable, WaitResult,
  wait_exited, wait_signaled, wait_stopped, wait_continued, no_change, no_child, other_error,
  ProcStat, no_file, no_letter, letter, Os, is_exited, is_proc_stopped,
}

-- The job's fields that a pass over its processes sets.
pub record Sweep : Type 0 where
  pub finished : Bool
  pub exit_status : ℕ
  pub is_signaled : Bool
  pub any_alive : Bool
  pub any_stopped : Bool

-- The leader's end finishes the job.
unfoldable pub note_end : Bool → Bool → ℕ → Sweep → Sweep
note_end leader signaled raw s =
    if leader then record s { finished = true; exit_status = raw; is_signaled = signaled } else s

-- The look into /proc/<pid>/stat.
unfoldable pub inspect : ProcStat → ProcState → ProcState
inspect no_file st = proc_exited
inspect no_letter st = st
inspect (letter c) st =
    if c == b'T' || c == b't' then proc_stopped else if c == b'Z' then proc_exited else st

unfoldable pub note_alive : ProcState → Sweep → Sweep
unfolding is_exited is_proc_stopped
note_alive st s =
    if is_exited st
    then s
    else record s { any_alive = true; any_stopped = s.any_stopped || is_proc_stopped st }

-- The state after `waitpid` and after the look into /proc, and what it adds to the sweep.
unfoldable pub look : ProcStat → ProcState → Sweep → Sweep × ProcState
unfolding inspect note_alive
look stat st s = let st' = inspect stat st in (note_alive st' s, st')

-- One process that is not known to have exited.
unfoldable pub poll : Bool → WaitResult → ProcStat → ProcState → Sweep → Sweep × ProcState
unfolding look note_end
poll leader (wait_exited raw) stat st s = (note_end leader false raw s, proc_exited)
poll leader (wait_signaled raw) stat st s = (note_end leader true raw s, proc_exited)
poll leader (wait_stopped raw) stat st s = look stat proc_stopped s
poll leader (wait_continued raw) stat st s = look stat proc_running s
poll leader no_child stat st s = (s, proc_exited)
poll leader no_change stat st s = look stat st s
poll leader other_error stat st s = look stat st s

unfoldable pub refresh_proc : Os → ℕ → ProcInfo → Sweep → Sweep × ProcInfo
unfolding poll is_exited
refresh_proc os pgid p s =
    if is_exited p.state
    then (s, p)
    else (let (s', st) = poll (p.pid == pgid) (os.wait p.pid) (os.stat p.pid) p.state s in
        (s', record p { state = st }))

unfoldable pub refresh_procs : Os → ℕ → List ProcInfo → Sweep → Sweep × List ProcInfo
refresh_procs os pgid [] s = (s, [])
refresh_procs os pgid (p ∷ ps) s =
    let (s', p') = refresh_proc os pgid p s in
    let (s'', ps') = refresh_procs os pgid ps s' in (s'', p' ∷ ps')

abbrev pub start_sweep : JobEntry → Sweep
start_sweep j = record {
  finished = j.finished;
  exit_status = j.exit_status;
  is_signaled = j.is_signaled;
  any_alive = false;
  any_stopped = false;
}

-- The end of a round: the job's stop flag, and the slot given up if the job was reported.
unfoldable pub settle : JobEntry → List ProcInfo → Sweep → JobEntry
settle j ps s = record j {
  procs = ps;
  finished = s.finished;
  exit_status = s.exit_status;
  is_signaled = s.is_signaled;
  is_stopped = s.any_stopped;
  active = if not s.any_alive && (j.reported || s.any_stopped) then false else j.active;
}

unfoldable pub refresh_job : Os → JobEntry → JobEntry
unfolding refresh_procs refresh_proc settle
refresh_job os j =
    if j.active
    then (let (s, ps) = refresh_procs os j.pgid j.procs (start_sweep j) in settle j ps s)
    else j

unfoldable pub refresh_jobs : Os → List JobEntry → List JobEntry
unfolding refresh_job
refresh_jobs os [] = []
refresh_jobs os (j ∷ js) = refresh_job os j ∷ refresh_jobs os js

unfoldable pub jobs_refresh_states : Os → JobTable → JobTable
unfolding refresh_jobs
jobs_refresh_states os t = record t { jobs_list = refresh_jobs os t.jobs_list }

-- `sigchld_handler` at one process: any status is taken over, whatever was known before.
unfoldable pub handle_proc : WaitResult → Bool → ProcInfo → JobEntry → JobEntry × ProcInfo
handle_proc (wait_exited raw) leader p j = (
  if leader then record j { finished = true; exit_status = raw; is_signaled = false } else j,
  record p { state = proc_exited },
)
handle_proc (wait_signaled raw) leader p j = (
  if leader then record j { finished = true; exit_status = raw; is_signaled = true } else j,
  record p { state = proc_exited },
)
handle_proc (wait_stopped raw) leader p j =
    (record j { is_stopped = true }, record p { state = proc_stopped })
handle_proc (wait_continued raw) leader p j =
    (record j { is_stopped = false }, record p { state = proc_running })
handle_proc no_change leader p j = (j, p)
handle_proc no_child leader p j = (j, p)
handle_proc other_error leader p j = (j, p)

unfoldable pub handle_procs : Os → List ProcInfo → JobEntry → JobEntry × List ProcInfo
unfolding handle_proc
handle_procs os [] j = (j, [])
handle_procs os (p ∷ ps) j =
    let (j', p') = handle_proc (os.wait p.pid) (p.pid == j.pgid) p j in
    let (j'', ps') = handle_procs os ps j' in (j'', p' ∷ ps')

unfoldable pub handle_job : Os → JobEntry → JobEntry
unfolding handle_procs
handle_job os j =
    if j.active && not j.finished
    then (let (j', ps) = handle_procs os j.procs j in record j' { procs = ps })
    else j

unfoldable pub handle_jobs : Os → List JobEntry → List JobEntry
unfolding handle_job
handle_jobs os [] = []
handle_jobs os (j ∷ js) = handle_job os j ∷ handle_jobs os js

unfoldable pub sigchld_handler : Os → JobTable → JobTable
unfolding handle_jobs
sigchld_handler os t = record t { jobs_list = handle_jobs os t.jobs_list }
