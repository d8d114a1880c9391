-- ===== src/Tests/Jobs.antt =====
-- Runs of the job table of c-shell/src/jobs.c.
use mathlib.Core.List.{Perm}
use mini_project.Common.{
  filter_by, find_index, get_elem?, ℕ, ◌+◌, true, false, none, some, List, [], ◌∷◌, ◌≡◌, ◌≢◌, refl,
  arith, length, All, ◌==◌, ◌++◌, if◌then◌else◌,
}
use mini_project.Shell.Token.{Bytes}
use mini_project.Shell.Jobs.Types.{
  proc_running, proc_stopped, proc_exited, JobEntry, JobTable, WaitResult, wait_exited,
  wait_stopped, no_change, no_child, letter, no_file, Os, free_entry, initial_table,
}
use mini_project.Shell.Jobs.Refresh.{jobs_refresh_states, refresh_job}
use mini_project.Shell.Jobs.Refresh.Steady.{Refreshed, refresh_job-Refreshed}
use mini_project.Shell.Jobs.Table.{is_free, jobs_get_by_id}
use mini_project.Shell.Jobs.Invariant.{TableOk}
use mini_project.Shell.Jobs.Invariant.Adding.{start_job}
use mini_project.Shell.Jobs.Invariant.Reachable.{start, at_start, after, Reachable-TableOk}
use mini_project.Shell.Jobs.Report.{
  is_completed, job_events, jobs_check_completed, jobs_refresh_and_print_activities,
}
use mini_project.Shell.Jobs.Report.Once.{count_active, jobs_check_completed-count}
use mini_project.Shell.Jobs.Report.Listing.{IsSorted, has_live, activities-IsSorted}
use mini_project.Shell.Jobs.Report.Lost.{IsLost, check_passes, check_passes-IsLost}
use mini_project.Shell.Jobs.Resume.{
  Round, wait_loop, wait_procs, resume_end, jobs_resume_bg, jobs_resume_fg,
}
use mini_project.Shell.Jobs.Resume.Ends.{waited_for, jobs_resume_fg-Answers}
use mini_project.Shell.Jobs.Resume.Finish.{FgOutcome, jobs_resume_fg-FgOutcome}
use mini_project.Shell.Jobs.Resume.Outcome.{BgOutcome, jobs_resume_bg-BgOutcome}

-- A pipeline of two processes, 100 and 101.
abbrev pipeline : List (ℕ × Bytes)
pipeline = (100, b'a' ∷ []) ∷ (101, b'b' ∷ []) ∷ []

abbrev one_job : JobTable
one_job = start_job 100 pipeline (some (b'a' ∷ b'|' ∷ b'b' ∷ [])) initial_table

-- A kernel that has nothing new to say; all processes sleep.
abbrev asleep : Os
asleep = record { wait = λ pid. no_change; stat = λ pid. letter b'S' }

-- All children have been waited for, and their directories in /proc are gone.
abbrev reaped : Os
reaped = record { wait = λ pid. no_child; stat = λ pid. no_file }

Reachable-TableOk_example : TableOk one_job
Reachable-TableOk_example =
    Reachable-TableOk
      (after at_start (start 100 pipeline (some (b'a' ∷ b'|' ∷ b'b' ∷ [])) initial_table))

first_free : find_index is_free initial_table.jobs_list ≡ some 0
unfolding find_index
first_free = refl

-- The leader runs and the second process is stopped.
abbrev half_stopped : JobEntry
half_stopped = record {
  job_id = 1;
  pgid = 100;
  procs =
      record { pid = 100; cmd_name = b'a' ∷ []; state = proc_running }
      ∷ record { pid = 101; cmd_name = b'b' ∷ []; state = proc_stopped }
      ∷ [];
  active = true;
  finished = false;
  reported = false;
  is_stopped = true;
  full_cmd = [];
  exit_status = 0;
  is_signaled = false;
}

abbrev small_table : JobTable
small_table = record {
  jobs_list = half_stopped ∷ free_entry ∷ [];
  next_job_id = 2;
  fg_active = false;
}

refresh_job-Refreshed_example : Refreshed asleep half_stopped (refresh_job asleep half_stopped)
refresh_job-Refreshed_example = refresh_job-Refreshed asleep half_stopped refl

jobs_check_completed-count_example :
    let (events, u) = jobs_check_completed asleep small_table in
    (count_active u.jobs_list + length events ≡ 1) × All (λ j. is_completed j ≡ false) u.jobs_list
jobs_check_completed-count_example =
    jobs_check_completed-count asleep small_table ((λ a. refl), ((λ a. refl), tt))

activities-IsSorted_example :
    let u = jobs_refresh_states asleep small_table in
    (ks : List JobEntry) × (jobs_refresh_and_print_activities asleep small_table
      ≡ (job_events ks, u))
    × Perm ks (filter_by has_live u.jobs_list)
    × IsSorted ks
activities-IsSorted_example = activities-IsSorted asleep small_table

jobs_resume_bg-BgOutcome_example :
    BgOutcome 1 (jobs_refresh_states asleep small_table) (jobs_resume_bg asleep 1 small_table)
jobs_resume_bg-BgOutcome_example = jobs_resume_bg-BgOutcome asleep 1 small_table

found_small : (jobs_get_by_id asleep 1 small_table).0 ≡ some 0
unfolding jobs_get_by_id jobs_refresh_states
found_small = refl

-- The leader exits and the second process is stopped by the terminal.
abbrev leader_exits : Round
leader_exits = record {
  timed_out = false;
  handler = none;
  wait = λ pid. if pid == 100 then wait_exited 0 else wait_stopped 20;
}

leader_exits_NoContinue : (pid raw : ℕ) → leader_exits.wait pid ≢ WaitResult.wait_continued raw
leader_exits_NoContinue pid raw = ground arith

jobs_resume_fg-FgOutcome_example :
    let (r, events, v) = jobs_resume_fg asleep true 0 (leader_exits ∷ []) false 1 small_table in
    FgOutcome 0 1 v r
jobs_resume_fg-FgOutcome_example =
    jobs_resume_fg-FgOutcome asleep true 0 (leader_exits ∷ []) 1 0 small_table
      (leader_exits_NoContinue, tt) (refl, tt) found_small

-- The job that this leaves, once the second process has exited and been waited for.
abbrev lost_table : JobTable
lost_table =
    jobs_refresh_states reaped
      (jobs_resume_fg asleep true 0 (leader_exits ∷ []) false 1 small_table).2

abbrev lost_entry : JobEntry
lost_entry = record {
  job_id = 1;
  pgid = 100;
  procs =
      record { pid = 100; cmd_name = b'a' ∷ []; state = proc_exited }
      ∷ record { pid = 101; cmd_name = b'b' ∷ []; state = proc_exited }
      ∷ [];
  active = true;
  finished = false;
  reported = false;
  is_stopped = false;
  full_cmd = [];
  exit_status = 0;
  is_signaled = false;
}

lost_table_slot : get_elem? lost_table.jobs_list 0 ≡ some lost_entry
unfolding jobs_resume_fg jobs_get_by_id jobs_refresh_states wait_loop resume_end wait_procs
lost_table_slot = refl

lost_entry-IsLost : IsLost lost_entry
lost_entry-IsLost = record {
  in_use = refl;
  all_exited = (refl, (refl, tt));
  unfinished = refl;
  unreported = refl;
}

check_passes-IsLost_example :
    (k : JobEntry) × (get_elem? (check_passes ((reaped, reaped) ∷ []) lost_table).jobs_list 0
      ≡ some k)
    × (k.job_id ≡ 1)
    × IsLost k
check_passes-IsLost_example =
    check_passes-IsLost ((reaped, reaped) ∷ []) lost_table 0 lost_entry lost_table_slot
      lost_entry-IsLost ((refl, (refl, tt)), tt)

-- The second process of the job is stopped, and then both are gone.
abbrev both_gone : Round
both_gone = record { timed_out = false; handler = none; wait = λ pid. no_child }

jobs_resume_fg-answers_example :
    (jobs_resume_fg asleep true 0 ([] ++ both_gone ∷ []) false 1 small_table).0 ≢ none
jobs_resume_fg-answers_example =
    jobs_resume_fg-Answers asleep true 0 [] [] both_gone false 1 small_table (λ pid. waited_for)
