-- ===== src/Shell/Jobs/Invariant/Tame.antt =====
-- The operations of c-shell/src/jobs.c that add no job keep every slot's identity.
use mini_project.Common.{
  modify, ℕ, zero, suc, Bool, true, List, [], ◌∷◌, ◌≡◌, refl, ◌∙◌, ap, arith, length, ◌==◌,
}
use mini_project.Shell.Jobs.Types.{ProcInfo, JobEntry, JobTable, WaitResult, Os}
use mini_project.Shell.Jobs.Refresh.{
  Sweep, start_sweep, refresh_proc, refresh_procs, refresh_job, refresh_jobs, jobs_refresh_states,
  handle_proc, handle_procs, handle_job, handle_jobs, sigchld_handler,
}
use mini_project.Shell.Jobs.Report.{retire, report_slots}
use mini_project.Shell.Jobs.Resume.{wake_procs, continue_job, close_job, with_job}
use mini_project.Shell.Jobs.Invariant.{IsTame, AllTame, IsTame-refl, AllTame-refl, AllTame-trans}

length-refresh_procs :
    (os : Os) (pgid : ℕ) (ps : List ProcInfo) (s : Sweep)
    → length (refresh_procs os pgid ps s).1 ≡ length ps
unfolding refresh_procs
length-refresh_procs os pgid [] s = refl
length-refresh_procs os pgid (p ∷ ps) s =
    ap suc (length-refresh_procs os pgid ps (refresh_proc os pgid p s).0)

pub refresh_job-IsTame : (os : Os) (j : JobEntry) → IsTame j (refresh_job os j)
unfolding refresh_job
refresh_job-IsTame os j = ground (arith, length-refresh_procs os j.pgid j.procs (start_sweep j))

refresh_jobs-AllTame : (os : Os) (js : List JobEntry) → AllTame js (refresh_jobs os js)
unfolding refresh_jobs
refresh_jobs-AllTame os [] = tt
refresh_jobs-AllTame os (j ∷ js) = (refresh_job-IsTame os j, refresh_jobs-AllTame os js)

handle_proc-keeps :
    (r : WaitResult) (leader : Bool) (p : ProcInfo) (j : JobEntry)
    → let k = (handle_proc r leader p j).0 in
      (k.job_id ≡ j.job_id) × (k.active ≡ j.active) × (k.reported ≡ j.reported)
unfolding handle_proc
handle_proc-keeps r leader p j = ground arith

handle_procs-keeps :
    (os : Os) (ps : List ProcInfo) (j : JobEntry)
    → let (k, qs) = handle_procs os ps j in
      (k.job_id ≡ j.job_id)
      × (k.active ≡ j.active)
      × (k.reported ≡ j.reported)
      × (length qs ≡ length ps)
unfolding handle_procs
handle_procs-keeps os [] j = (refl, refl, refl, refl)
handle_procs-keeps os (p ∷ ps) j =
    let (a, b, c) = handle_proc-keeps (os.wait p.pid) (p.pid == j.pgid) p j in
    let k = (handle_proc (os.wait p.pid) (p.pid == j.pgid) p j).0 in
    let (a', b', c', n) = handle_procs-keeps os ps k in (a' ∙ a, b' ∙ b, c' ∙ c, ap suc n)

pub handle_job-IsTame : (os : Os) (j : JobEntry) → IsTame j (handle_job os j)
unfolding handle_job
handle_job-IsTame os j = ground (arith, handle_procs-keeps os j.procs j)

pub retire-IsTame : (j : JobEntry) → IsTame j (retire j)
unfolding retire
retire-IsTame j = ground arith

handle_jobs-AllTame : (os : Os) (js : List JobEntry) → AllTame js (handle_jobs os js)
unfolding handle_jobs
handle_jobs-AllTame os [] = tt
handle_jobs-AllTame os (j ∷ js) = (handle_job-IsTame os j, handle_jobs-AllTame os js)

pub report_slots-AllTame : (js : List JobEntry) → AllTame js (report_slots js)
unfolding report_slots
report_slots-AllTame [] = tt
report_slots-AllTame (j ∷ js) = (retire-IsTame j, report_slots-AllTame js)

pub modify-AllTame :
    (f : JobEntry → JobEntry) (i : ℕ) (js : List JobEntry)
    → ((j : JobEntry) → IsTame j (f j))
    → AllTame js (modify i f js)
unfolding modify
modify-AllTame f i [] h = tt
modify-AllTame f zero (j ∷ js) h = (h j, AllTame-refl js)
modify-AllTame f (suc i) (j ∷ js) h = (IsTame-refl j, modify-AllTame f i js h)

length-wake_procs : (ps : List ProcInfo) → length (wake_procs ps) ≡ length ps
unfolding wake_procs
length-wake_procs [] = refl
length-wake_procs (p ∷ ps) = ap suc (length-wake_procs ps)

pub continue_job-IsTame : (j : JobEntry) → IsTame j (continue_job j)
unfolding continue_job
continue_job-IsTame j = ground (arith, length-wake_procs j.procs)

pub close_job-IsTame : (j : JobEntry) → IsTame j (close_job j)
unfolding close_job
close_job-IsTame j = ground arith

pub stop_flag-IsTame : (j : JobEntry) → IsTame j (record j { is_stopped = true })
stop_flag-IsTame j = ground arith

-- The tables of two moments: no job was added between them.
pub record TameTable (t u : JobTable) : Type 0 where
  pub same_next : u.next_job_id ≡ t.next_job_id
  pub slots_tame : AllTame t.jobs_list u.jobs_list

pub TameTable-refl : (t : JobTable) → TameTable t t
TameTable-refl t = record { same_next = refl; slots_tame = AllTame-refl t.jobs_list }

pub TameTable-trans : {t u v : JobTable} → TameTable t u → TameTable u v → TameTable t v
TameTable-trans {t} {u} {v} p q = record {
  same_next = q.same_next ∙ p.same_next;
  slots_tame = AllTame-trans t.jobs_list u.jobs_list v.jobs_list p.slots_tame q.slots_tame;
}

pub jobs_refresh_states-TameTable :
    (os : Os) (t : JobTable) → TameTable t (jobs_refresh_states os t)
unfolding jobs_refresh_states
jobs_refresh_states-TameTable os t = record {
  same_next = refl;
  slots_tame = refresh_jobs-AllTame os t.jobs_list;
}

pub sigchld_handler-TameTable : (os : Os) (t : JobTable) → TameTable t (sigchld_handler os t)
unfolding sigchld_handler
sigchld_handler-TameTable os t = record {
  same_next = refl;
  slots_tame = handle_jobs-AllTame os t.jobs_list;
}

pub with_job-TameTable :
    (f : JobEntry → JobEntry) (i : ℕ) (t : JobTable)
    → ((j : JobEntry) → IsTame j (f j))
    → TameTable t (with_job i f t)
with_job-TameTable f i t h = record {
  same_next = refl;
  slots_tame = modify-AllTame f i t.jobs_list h;
}
