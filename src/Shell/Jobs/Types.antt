-- ===== src/Shell/Jobs/Types.antt =====
-- The types of c-shell/include/jobs.h, and what the operating system tells the job table.
-- `procs` holds the first `num_procs` entries of the array, so `num_procs` is its length. Process
-- ids and job ids are the natural numbers that `fork` and `jobs_alloc_id` hand out.
use mini_project.Common.{ℕ, zero, suc, Bool, true, false, List, [], ◌∷◌}
use mini_project.Shell.Token.{Bytes}

pub data ProcState : Type 0 where
  proc_running proc_stopped proc_exited : ProcState

pub record ProcInfo : Type 0 where
  pub pid : ℕ
  pub cmd_name : Bytes
  pub state : ProcState

pub record JobEntry : Type 0 where
  pub job_id : ℕ
  pub pgid : ℕ
  pub procs : List ProcInfo
  pub active : Bool
  pub finished : Bool
  pub reported : Bool
  pub is_stopped : Bool
  pub full_cmd : Bytes
  pub exit_status : ℕ
  pub is_signaled : Bool

abbrev pub max_pids_per_job : ℕ
max_pids_per_job = 64

abbrev pub max_bg_jobs : ℕ
max_bg_jobs = 256

-- The static variables of jobs.c.
pub record JobTable : Type 0 where
  pub jobs_list : List JobEntry
  pub next_job_id : ℕ
  pub fg_active : Bool

-- What `waitpid` with WNOHANG says of one process: a status with its raw value, nothing new, or
-- an error; `no_child` is ECHILD.
pub data WaitResult : Type 0 where
  wait_exited wait_signaled wait_stopped wait_continued : ℕ → WaitResult
  no_change no_child other_error : WaitResult

-- What /proc/<pid>/stat says: it cannot be opened, it holds no state letter, or the letter.
pub data ProcStat : Type 0 where
  no_file no_letter : ProcStat
  letter : ℕ → ProcStat

-- The answers of the operating system during one pass over the table. A pass asks at most once
-- about a process.
pub record Os : Type 0 where
  pub wait : ℕ → WaitResult
  pub stat : ℕ → ProcStat

unfoldable pub is_exited : ProcState → Bool
is_exited proc_exited = true
is_exited _ = false

unfoldable pub is_proc_stopped : ProcState → Bool
is_proc_stopped proc_stopped = true
is_proc_stopped _ = false

-- A slot of the static array before its first use.
abbrev pub free_entry : JobEntry
free_entry = record {
  job_id = 0;
  pgid = 0;
  procs = [];
  active = false;
  finished = false;
  reported = false;
  is_stopped = false;
  full_cmd = [];
  exit_status = 0;
  is_signaled = false;
}

abbrev pub free_entries : ℕ → List JobEntry
free_entries zero = []
free_entries (suc n) = free_entry ∷ free_entries n

abbrev pub initial_table : JobTable
initial_table = record { jobs_list = free_entries max_bg_jobs; next_job_id = 1; fg_active = false }

-- What the operations print and what they ask of the operating system, in order.
pub data Event : Type 0 where
  kill_group : ℕ → ℕ → Event
  kill_process : ℕ → ℕ → Event
  say_exited : Bytes → ℕ → Bool → Event
  say_job : ℕ → ℕ → Event
  say_process : ℕ → Bytes → Bool → Event
  say_running : ℕ → Bytes → Event
  say_stopped : ℕ → Bytes → Event
  say_command : Bytes → Event
  say_no_such_job say_timed_out : Event
  give_terminal : ℕ → Event
  take_terminal : Event
  set_alarm : ℕ → Event

abbrev pub sighup : ℕ
sighup = 1

abbrev pub sigterm : ℕ
sigterm = 15

abbrev pub sigcont : ℕ
sigcont = 18
