-- ===== src/Shell/Jobs/Report.antt =====
-- What c-shell/src/jobs.c tells the user: `jobs_check_completed` and the `activities` listing.
pub mod Listing
pub mod Once
pub mod Lost
use mini_project.Common.{
  sort_by, any, ℕ, Bool, true, false, not, ◌&&◌, List, [], ◌∷◌, ◌++◌, leb, if◌then◌else◌,
}
use mini_project.Shell.Token.{Bytes}
use mini_project.Shell.Jobs.Types.{
  ProcInfo, JobEntry, JobTable, Os, Event, say_exited, say_job, say_process, is_exited,
  is_proc_stopped,
}
use mini_project.Shell.Jobs.Refresh.{jobs_refresh_states}
use mini_project.Shell.Jobs.Table.{lives}

-- `procs[0].cmd_name`.
unfoldable pub first_cmd : List ProcInfo → Bytes
first_cmd [] = []
first_cmd (p ∷ ps) = p.cmd_name

abbrev pub is_completed : JobEntry → Bool
is_completed j = j.active && (j.finished && (not j.reported && not j.is_stopped))

unfoldable pub exit_event : JobEntry → Event
unfolding first_cmd
exit_event j = say_exited (first_cmd j.procs) j.pgid j.is_signaled

unfoldable pub retire : JobEntry → JobEntry
retire j = if is_completed j then record j { reported = true; active = false } else j

-- The loop over the slots: what it prints, and the slots it leaves.
unfoldable pub report_events : List JobEntry → List Event
unfolding exit_event
report_events [] = []
report_events (j ∷ js) =
    let rest = report_events js in if is_completed j then exit_event j ∷ rest else rest

unfoldable pub report_slots : List JobEntry → List JobEntry
unfolding retire
report_slots [] = []
report_slots (j ∷ js) = retire j ∷ report_slots js

unfoldable pub jobs_check_completed : Os → JobTable → List Event × JobTable
unfolding report_events report_slots
jobs_check_completed os t =
    let t' = jobs_refresh_states os t in
    (report_events t'.jobs_list, record t' { jobs_list = report_slots t'.jobs_list })

abbrev pub is_listed : JobEntry → Bool
is_listed j = j.active && any lives j.procs

-- The array `active_jobs`.
unfoldable pub listed : List JobEntry → List JobEntry
unfolding any is_exited
listed [] = []
listed (j ∷ js) = let rest = listed js in if is_listed j then j ∷ rest else rest

-- `compare_job_ptrs`, as whether the first job does not come behind the second.
abbrev pub job_le : JobEntry → JobEntry → Bool
job_le j k = leb j.job_id k.job_id

unfoldable pub sort_jobs : List JobEntry → List JobEntry
unfolding sort_by
sort_jobs js = sort_by job_le js

unfoldable pub process_events : List ProcInfo → List Event
unfolding is_exited is_proc_stopped
process_events [] = []
process_events (p ∷ ps) =
    let rest = process_events ps in
    if is_exited p.state
    then rest
    else say_process p.pid p.cmd_name (is_proc_stopped p.state) ∷ rest

unfoldable pub job_events : List JobEntry → List Event
unfolding process_events
job_events [] = []
job_events (j ∷ js) = say_job j.job_id j.pgid ∷ (process_events j.procs ++ job_events js)

unfoldable pub jobs_refresh_and_print_activities : Os → JobTable → List Event × JobTable
unfolding listed sort_jobs job_events
jobs_refresh_and_print_activities os t =
    let t' = jobs_refresh_states os t in (job_events (sort_jobs (listed t'.jobs_list)), t')
