-- ===== src/Shell/Jobs/Invariant/Reachable.antt =====
-- Every table that the shell can reach: any sequence of the operations of c-shell/src/jobs.c, with
-- any answers of the operating system, from the table at the start.
use mini_project.Common.{ℕ, ◌+◌, Bool, Option, List, refl, arith}
use mini_project.Shell.Token.{Bytes}
use mini_project.Shell.Jobs.Types.{JobTable, Os, initial_table}
use mini_project.Shell.Jobs.Refresh.{jobs_refresh_states, sigchld_handler}
use mini_project.Shell.Jobs.Table.{jobs_alloc_id, jobs_set_fg_active}
use mini_project.Shell.Jobs.Report.{jobs_check_completed}
use mini_project.Shell.Jobs.Resume.{Round, jobs_resume_bg, jobs_resume_fg}
use mini_project.Shell.Jobs.Invariant.{TableOk, TableOk-tame, initial-TableOk}
use mini_project.Shell.Jobs.Invariant.Tame.{
  TameTable, TameTable-trans, jobs_refresh_states-TameTable, sigchld_handler-TameTable,
  report_slots-AllTame,
}
use mini_project.Shell.Jobs.Invariant.Waiting.{jobs_resume_bg-TameTable, jobs_resume_fg-TameTable}
use mini_project.Shell.Jobs.Invariant.Adding.{
  entries_mono, start_job, park_job, start_job-TableOk, park_job-TableOk,
}

-- One operation, as the rest of the shell uses the table.
pub data Step : JobTable → JobTable → Type 0 where
  waste_id : (t : JobTable) → Step t (jobs_alloc_id t).1
  start :
      (pgid : ℕ) (pids : List (ℕ × Bytes)) (cmd : Option Bytes) (t : JobTable)
      → Step t (start_job pgid pids cmd t)
  park :
      (pgid : ℕ) (pids : List (ℕ × Bytes)) (cmd : Option Bytes) (t : JobTable)
      → Step t (park_job pgid pids cmd t)
  foreground : (active : Bool) (t : JobTable) → Step t (jobs_set_fg_active active t)
  refresh : (os : Os) (t : JobTable) → Step t (jobs_refresh_states os t)
  child_signal : (os : Os) (t : JobTable) → Step t (sigchld_handler os t)
  check : (os : Os) (t : JobTable) → Step t (jobs_check_completed os t).1
  resume_bg : (os : Os) (job_id : ℕ) (t : JobTable) → Step t (jobs_resume_bg os job_id t).2
  resume_fg :
      (os : Os) (tty : Bool) (timeout : ℕ) (rounds : List Round) (late : Bool) (job_id : ℕ)
      (t : JobTable)
      → Step t (jobs_resume_fg os tty timeout rounds late job_id t).2

pub data Reachable : JobTable → Type 0 where
  at_start : Reachable initial_table
  after : {t u : JobTable} → Reachable t → Step t u → Reachable u

TableOk-of_tame : {t u : JobTable} → TameTable t u → TableOk t → TableOk u
TableOk-of_tame {t} {u} p h = TableOk-tame t u p.same_next p.slots_tame h

jobs_alloc_id-TableOk : (t : JobTable) → TableOk t → TableOk (jobs_alloc_id t).1
unfolding jobs_alloc_id
jobs_alloc_id-TableOk t h = record {
  slots = h.slots;
  entries = entries_mono t.next_job_id (t.next_job_id + 1) t.jobs_list (omega arith) h.entries;
  distinct = h.distinct;
}

jobs_set_fg_active-TableOk :
    (active : Bool) (t : JobTable) → TableOk t → TableOk (jobs_set_fg_active active t)
unfolding jobs_set_fg_active
jobs_set_fg_active-TableOk active t h = record {
  slots = h.slots;
  entries = h.entries;
  distinct = h.distinct;
}

jobs_check_completed-TameTable :
    (os : Os) (t : JobTable) → TameTable t (jobs_check_completed os t).1
unfolding jobs_check_completed
jobs_check_completed-TameTable os t =
    TameTable-trans (jobs_refresh_states-TameTable os t)
      (record { same_next = refl; slots_tame = report_slots-AllTame _ })

pub Step-TableOk : {t u : JobTable} → Step t u → TableOk t → TableOk u
Step-TableOk (waste_id t) h = jobs_alloc_id-TableOk t h
Step-TableOk (start pgid pids cmd t) h = start_job-TableOk pgid pids cmd t h
Step-TableOk (park pgid pids cmd t) h = park_job-TableOk pgid pids cmd t h
Step-TableOk (foreground active t) h = jobs_set_fg_active-TableOk active t h
Step-TableOk (refresh os t) h = TableOk-of_tame (jobs_refresh_states-TameTable os t) h
Step-TableOk (child_signal os t) h = TableOk-of_tame (sigchld_handler-TameTable os t) h
Step-TableOk (check os t) h = TableOk-of_tame (jobs_check_completed-TameTable os t) h
Step-TableOk (resume_bg os job_id t) h = TableOk-of_tame (jobs_resume_bg-TameTable os job_id t) h
Step-TableOk (resume_fg os tty timeout rounds late job_id t) h =
    TableOk-of_tame (jobs_resume_fg-TameTable os tty timeout rounds late job_id t) h

-- In every table that the shell reaches there are 256 slots, a slot holds at most 64 processes,
-- no two slots in use have the same job id, and a slot in use has an id that was handed out and
-- has not been reported.
pub Reachable-TableOk : {t : JobTable} → Reachable t → TableOk t
Reachable-TableOk at_start = initial-TableOk
Reachable-TableOk (after r s) = Step-TableOk s (Reachable-TableOk r)
