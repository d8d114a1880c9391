-- ===== src/Shell/Jobs/Table.antt =====
-- The operations of c-shell/src/jobs.c that add to the job table and look into it. A loop that
-- stops at the first slot that passes a test is `update_first` or `find_index`; a pointer into
-- `jobs_list` is its index. The arrays `pids` and `cmd_names` are one list of pairs.
pub mod Added
pub mod Lookup
use mini_project.Common.{
  any, find_index, get_elem?, modify, update_first, ℕ, zero, suc, ◌+◌, Bool, true, false, not, ◌||◌,
  ◌&&◌, Option, none, some, List, [], ◌∷◌, ◌==◌, ltb, if◌then◌else◌, length, take,
}
use mini_project.Shell.Token.{Bytes}
use mini_project.Shell.Jobs.Types.{
  ProcState, proc_running, proc_stopped, proc_exited, ProcInfo, JobEntry, JobTable, Os, Event,
  kill_group, kill_process, sighup, max_pids_per_job, is_exited,
}
use mini_project.Shell.Jobs.Refresh.{jobs_refresh_states}

-- `return next_job_id++`.
unfoldable pub jobs_alloc_id : JobTable → ℕ × JobTable
jobs_alloc_id t = (t.next_job_id, record t { next_job_id = t.next_job_id + 1 })

unfoldable pub jobs_set_fg_active : Bool → JobTable → JobTable
jobs_set_fg_active active t = record t { fg_active = active }

-- `strncpy` into a buffer of `size` bytes, and the terminator.
abbrev copy_name : ℕ → Bytes → Bytes
copy_name size s = take size s

-- The stored processes: at most `max_pids_per_job` of those given.
unfoldable pub start_procs : ℕ → List (ℕ × Bytes) → List ProcInfo
start_procs zero pids = []
start_procs (suc n) [] = []
start_procs (suc n) ((pid, name) ∷ pids) =
    record { pid = pid; cmd_name = copy_name 255 name; state = proc_running } ∷ start_procs n pids

copy_cmd : Option Bytes → Bytes
copy_cmd none = []
copy_cmd (some cmd) = copy_name 511 cmd

unfoldable pub new_entry : ℕ → ℕ → List (ℕ × Bytes) → Option Bytes → JobEntry
unfolding start_procs copy_cmd
new_entry job_id pgid pids full_cmd = record {
  job_id = job_id;
  pgid = pgid;
  procs = start_procs max_pids_per_job pids;
  active = true;
  finished = false;
  reported = false;
  is_stopped = false;
  full_cmd = copy_cmd full_cmd;
  exit_status = 0;
  is_signaled = false;
}

abbrev pub is_free : JobEntry → Bool
is_free j = not j.active

-- Nothing is added when no slot is free.
unfoldable pub jobs_add_pipeline : ℕ → ℕ → List (ℕ × Bytes) → Option Bytes → JobTable → JobTable
unfolding update_first new_entry
jobs_add_pipeline job_id pgid pids full_cmd t = record t {
  jobs_list = update_first is_free (λ _. new_entry job_id pgid pids full_cmd) t.jobs_list;
}

unfoldable pub jobs_add : ℕ → ℕ → Bytes → Option Bytes → JobTable → JobTable
unfolding jobs_add_pipeline
jobs_add job_id pid cmd_name full_cmd t =
    jobs_add_pipeline job_id pid ((pid, cmd_name) ∷ []) full_cmd t

unfoldable pub stop_procs : List ProcInfo → List ProcInfo
stop_procs [] = []
stop_procs (p ∷ ps) = record p { state = proc_stopped } ∷ stop_procs ps

abbrev pub has_id : ℕ → JobEntry → Bool
has_id job_id j = j.active && j.job_id == job_id

unfoldable pub jobs_add_stopped : ℕ → ℕ → List (ℕ × Bytes) → Option Bytes → JobTable → JobTable
unfolding jobs_add_pipeline stop_procs
jobs_add_stopped job_id pgid pids full_cmd t =
    let t' = jobs_add_pipeline job_id pgid pids full_cmd t in
    record t' {
      jobs_list =
          update_first (has_id job_id)
            (λ j. record j { is_stopped = true; procs = stop_procs j.procs }) t'.jobs_list;
    }

unfoldable pub jobs_has_stopped : Os → JobTable → Bool × JobTable
unfolding any
jobs_has_stopped os t =
    let t' = jobs_refresh_states os t in (any (λ j. j.active && j.is_stopped) t'.jobs_list, t')

-- The comparison with 1 is that of signed 32-bit numbers: a group of -1 is not above it.
abbrev has_group : JobEntry → Bool
has_group j = ltb 1 j.pgid && ltb j.pgid 2147483648

sighup_each : List JobEntry → List Event
sighup_each [] = []
sighup_each (j ∷ js) =
    let rest = sighup_each js in
    if j.active && has_group j then kill_group j.pgid sighup ∷ rest else rest

unfoldable pub jobs_send_sighup_all : JobTable → List Event
unfolding sighup_each
jobs_send_sighup_all t = sighup_each t.jobs_list

abbrev pub lives : ProcInfo → Bool
lives p = not (is_exited p.state)

abbrev pub matches_live : ℕ → JobEntry → Bool
matches_live job_id j = has_id job_id j && any lives j.procs

-- The index of the first active job of that number with a live process.
unfoldable pub jobs_get_by_id : Os → ℕ → JobTable → Option ℕ × JobTable
unfolding find_index any is_exited
jobs_get_by_id os job_id t =
    let t' = jobs_refresh_states os t in (find_index (matches_live job_id) t'.jobs_list, t')

abbrev pub tracks : ℕ → JobEntry → Bool
tracks pid j = j.active && any (λ p. p.pid == pid && lives p) j.procs

unfoldable pub jobs_pid_is_tracked : Os → ℕ → JobTable → Bool × JobTable
unfolding any is_exited
jobs_pid_is_tracked os pid t =
    let t' = jobs_refresh_states os t in (any (tracks pid) t'.jobs_list, t')

-- The group of a job by index, as `-job->pgid` in a call of `kill`.
unfoldable pub signal_group : Option JobEntry → ℕ → List Event
signal_group none sig = []
signal_group (some j) sig = kill_group j.pgid sig ∷ []

unfoldable pub signal_found : Option ℕ → ℕ → JobTable → Bool × List Event
unfolding get_elem? signal_group
signal_found none sig t = (false, [])
signal_found (some i) sig t = (true, signal_group (get_elem? t.jobs_list i) sig)

unfoldable pub jobs_send_signal_to_job : Os → ℕ → ℕ → JobTable → Bool × List Event × JobTable
unfolding signal_found
jobs_send_signal_to_job os job_id sig t =
    let (found, t') = jobs_get_by_id os job_id t in
    let (sent, events) = signal_found found sig t' in (sent, events, t')

unfoldable pub jobs_send_signal_to_pid : Os → ℕ → ℕ → JobTable → Bool × List Event × JobTable
jobs_send_signal_to_pid os pid sig t =
    let (tracked, t') = jobs_pid_is_tracked os pid t in
    if tracked then (true, kill_process pid sig ∷ [], t') else (false, [], t')
