-- ===== src/Shell/Jobs/Resume/Outcome.antt =====
-- How `jobs_resume_bg` and `jobs_resume_fg` of c-shell/src/jobs.c leave the job that they resume.
use mini_project.Common.{
  Found, get_elem?, modify, ℕ, zero, suc, Bool, true, false, Option, none, some, List, [], ◌∷◌, ◌≡◌,
  refl, arith, All,
}
use mini_project.Shell.Jobs.Types.{
  ProcInfo, JobEntry, JobTable, Os, Event, kill_group, say_running, say_no_such_job, sigcont,
  is_proc_stopped,
}
use mini_project.Shell.Jobs.Refresh.{jobs_refresh_states}
use mini_project.Shell.Jobs.Refresh.Steady.{any_stopped_proc}
use mini_project.Shell.Jobs.Resume.{
  wake_procs, continue_job, with_job, resume_bg_at, jobs_resume_bg,
}
use mini_project.Shell.Jobs.Table.{matches_live, jobs_get_by_id}
use mini_project.Shell.Jobs.Table.Lookup.{jobs_get_by_id-Found}

wake_procs-stopped : (ps : List ProcInfo) → any_stopped_proc (wake_procs ps) ≡ false
unfolding wake_procs is_proc_stopped
wake_procs-stopped [] = refl
wake_procs-stopped (p ∷ ps) = ground (arith, wake_procs-stopped ps)

pub get_elem?-modify :
    (f : JobEntry → JobEntry) (i : ℕ) (js : List JobEntry) {j : JobEntry}
    → get_elem? js i ≡ some j
    → get_elem? (modify i f js) i ≡ some (f j)
unfolding get_elem? modify
get_elem?-modify f i [] e = cc
get_elem?-modify f zero (x ∷ xs) e = ground arith
get_elem?-modify f (suc i) (x ∷ xs) e = get_elem?-modify f i xs e

-- What `jobs_resume_bg` does with the table `u` that its lookup leaves.
pub data BgOutcome (job_id : ℕ) (u : JobTable) : Bool × List Event × JobTable → Type 0 where
  unknown :
      All (λ j. matches_live job_id j ≡ false) u.jobs_list
      → BgOutcome job_id u (false, say_no_such_job ∷ [], u)
  resumed :
      (i : ℕ) (j k : JobEntry) (v : JobTable)
      → get_elem? u.jobs_list i ≡ some j
      → matches_live job_id j ≡ true
      → get_elem? v.jobs_list i ≡ some k
      → k.is_stopped ≡ false
      → any_stopped_proc k.procs ≡ false
      → BgOutcome job_id u
          (true, kill_group j.pgid sigcont ∷ say_running j.job_id j.full_cmd ∷ [], v)

resume_bg_at-BgOutcome :
    (job_id : ℕ) (u : JobTable) (found : Option ℕ)
    → Found (matches_live job_id) u.jobs_list found
    → BgOutcome job_id u (resume_bg_at found u)
unfolding resume_bg_at
resume_bg_at-BgOutcome job_id u none h = unknown h
resume_bg_at-BgOutcome job_id u (some i) (j, e, m) = rw e (
    resumed i j (continue_job j) (with_job i continue_job u) e m
      (get_elem?-modify continue_job i u.jobs_list e) (unfold continue_job in refl)
      (unfold continue_job in wake_procs-stopped j.procs))

-- `jobs_resume_bg` fails exactly by printing that there is no such job, when no slot in use has
-- the number and a live process, and then changes nothing but what the refresh changed.
-- Otherwise it sends SIGCONT to the group of such a job, prints its line, and leaves the job with
-- no process marked as stopped.
pub jobs_resume_bg-BgOutcome :
    (os : Os) (job_id : ℕ) (t : JobTable)
    → BgOutcome job_id (jobs_refresh_states os t) (jobs_resume_bg os job_id t)
unfolding jobs_resume_bg jobs_get_by_id
jobs_resume_bg-BgOutcome os job_id t =
    resume_bg_at-BgOutcome job_id (jobs_refresh_states os t) (jobs_get_by_id os job_id t).0
      (jobs_get_by_id-Found os job_id t)
