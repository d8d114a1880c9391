-- ===== src/Shell/Jobs/Report/Once.antt =====
-- `jobs_check_completed` of c-shell/src/jobs.c: each job is reported once, and the report frees
-- its slot.
use mini_project.Common.{
  ℕ, ◌+◌, true, false, List, [], ◌∷◌, ◌≡◌, refl, ◌∙◌, arith, length, All, if◌then◌else◌, Bool-cases,
  inl, inr,
}
use mini_project.Shell.Jobs.Types.{JobEntry, JobTable, Os}
use mini_project.Shell.Jobs.Refresh.{refresh_job, refresh_jobs, jobs_refresh_states}
use mini_project.Shell.Jobs.Refresh.Steady.{refresh_job-Refreshed}
use mini_project.Shell.Jobs.Report.{
  is_completed, retire, report_events, report_slots, jobs_check_completed,
}

-- The number of slots in use.
abbrev pub count_active : List JobEntry → ℕ
count_active [] = 0
count_active (j ∷ js) = (if j.active then 1 else 0) + count_active js

-- A slot in use has not been reported.
abbrev pub IsUnreported : JobEntry → Type 0
IsUnreported j = j.active ≡ true → j.reported ≡ false

report-count :
    (js : List JobEntry)
    → count_active (report_slots js) + length (report_events js) ≡ count_active js
unfolding report_slots report_events retire
report-count [] = refl
report-count (j ∷ js) = ground (arith, report-count js)

report_slots-completed : (js : List JobEntry) → All (λ j. is_completed j ≡ false) (report_slots js)
unfolding report_slots retire
report_slots-completed [] = tt
report_slots-completed (j ∷ js) = (ground arith, report_slots-completed js)

refresh_job-active :
    (os : Os) (j : JobEntry) → IsUnreported j → (refresh_job os j).active ≡ j.active
refresh_job-active os j h = elim (Bool-cases j.active) [
  | inl a ↦ ground (arith, refresh_job-Refreshed os j a, h a)
  | inr a ↦ unfold refresh_job in ground arith
]

refresh_jobs-count :
    (os : Os) (js : List JobEntry)
    → All IsUnreported js
    → count_active (refresh_jobs os js) ≡ count_active js
unfolding refresh_jobs
refresh_jobs-count os [] h = refl
refresh_jobs-count os (j ∷ js) h =
    let here = refresh_job-active os j h.0 in
    let later = refresh_jobs-count os js h.1 in rw (here, later)

-- Between two prompts each line of the report frees one slot and nothing else frees one, and no
-- job that is finished and can be reported is left in the table.
pub jobs_check_completed-count :
    (os : Os) (t : JobTable)
    → All IsUnreported t.jobs_list
    → let (events, u) = jobs_check_completed os t in
      (count_active u.jobs_list + length events ≡ count_active t.jobs_list)
      × All (λ j. is_completed j ≡ false) u.jobs_list
unfolding jobs_check_completed jobs_refresh_states
jobs_check_completed-count os t h = (
  report-count (refresh_jobs os t.jobs_list) ∙ refresh_jobs-count os t.jobs_list h,
  report_slots-completed (refresh_jobs os t.jobs_list),
)
