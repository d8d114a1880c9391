-- ===== src/Shell/Jobs/Report/Lost.antt =====
-- A job that c-shell/src/jobs.c does not report any more: its processes are marked as exited and
-- have all been waited for, but the job is not marked as finished. `jobs_resume_fg` leaves such jobs, and so does a `waitpid` that answers
-- ECHILD in `jobs_refresh_states`.
use mini_project.Common.{
  get_elem?, ℕ, zero, suc, true, false, some, List, [], ◌∷◌, ◌≡◌, refl, ◌∙◌, ap, arith, All,
}
use mini_project.Shell.Jobs.Types.{proc_exited, ProcInfo, JobEntry, JobTable, no_child, Os}
use mini_project.Shell.Jobs.Refresh.{
  Sweep, start_sweep, refresh_proc, refresh_procs, refresh_job, refresh_jobs, jobs_refresh_states,
  handle_proc, handle_procs, handle_job, handle_jobs, sigchld_handler,
}
use mini_project.Shell.Jobs.Report.{retire, report_slots, jobs_check_completed}

-- In use, with every process known to have exited, but not finished and not reported.
pub record IsLost (j : JobEntry) : Type 0 where
  pub in_use : j.active ≡ true
  pub all_exited : All (λ p. p.state ≡ proc_exited) j.procs
  pub unfinished : j.finished ≡ false
  pub unreported : j.reported ≡ false

-- The kernel knows nothing more of these processes: they have been waited for.
abbrev pub AreReaped : Os → List ProcInfo → Type 0
AreReaped os ps = All (λ p. os.wait p.pid ≡ no_child) ps

refresh_procs-lost :
    (os : Os) (pgid : ℕ) (ps : List ProcInfo) (s : Sweep)
    → All (λ p. p.state ≡ proc_exited) ps
    → refresh_procs os pgid ps s ≡ (s, ps)
unfolding refresh_procs refresh_proc
refresh_procs-lost os pgid [] s h = refl
refresh_procs-lost os pgid (p ∷ ps) s h = ground (arith, refresh_procs-lost os pgid ps s h.1)

refresh_job-lost :
    (os : Os) (j : JobEntry) → IsLost j → refresh_job os j ≡ record j { is_stopped = false }
unfolding refresh_job
refresh_job-lost os j h =
    ground (arith, refresh_procs-lost os j.pgid j.procs (start_sweep j) h.all_exited)

handle_procs-lost :
    (os : Os) (ps : List ProcInfo) (j : JobEntry) → AreReaped os ps → handle_procs os ps j ≡ (j, ps)
unfolding handle_procs handle_proc
handle_procs-lost os [] j h = refl
handle_procs-lost os (p ∷ ps) j h = ground (arith, handle_procs-lost os ps j h.1)

handle_job-lost : (os : Os) (j : JobEntry) → AreReaped os j.procs → handle_job os j ≡ j
unfolding handle_job
handle_job-lost os j h = ground (arith, handle_procs-lost os j.procs j h)

abbrev pass_job : Os → Os → JobEntry → JobEntry
pass_job seen os j = retire (refresh_job os (handle_job seen j))

pass_job-lost :
    (seen os : Os) (j : JobEntry)
    → IsLost j
    → AreReaped seen j.procs
    → pass_job seen os j ≡ record j { is_stopped = false }
unfolding retire
pass_job-lost seen os j h r = rw (handle_job-lost seen j r, refresh_job-lost os j h) (ground arith)

-- A signal that a child has changed, and then the check before the next prompt.
pub check_pass : Os → Os → JobTable → JobTable
check_pass seen os t = (jobs_check_completed os (sigchld_handler seen t)).1

pass_slots :
    (seen os : Os) (js : List JobEntry) (i : ℕ) {j : JobEntry}
    → get_elem? js i ≡ some j
    → get_elem? (report_slots (refresh_jobs os (handle_jobs seen js))) i ≡ some (pass_job seen os j)
unfolding report_slots refresh_jobs handle_jobs get_elem?
pass_slots seen os [] i e = cc
pass_slots seen os (k ∷ ks) zero e = ground arith
pass_slots seen os (k ∷ ks) (suc i) e = pass_slots seen os ks i e

pub check_passes : List (Os × Os) → JobTable → JobTable
check_passes [] t = t
check_passes ((seen, os) ∷ rest) t = check_passes rest (check_pass seen os t)

-- A job in use whose processes are all marked as exited, and which is neither finished nor
-- reported, is not reported and does not give up its slot by any number of SIGCHLD signals, each
-- followed by a check before the prompt, as long as `waitpid` answers ECHILD for all its processes
-- in the handler: after them the slot is in use by the same job, which is lost still.
pub check_passes-IsLost :
    (passes : List (Os × Os)) (t : JobTable) (i : ℕ) (j : JobEntry)
    → get_elem? t.jobs_list i ≡ some j
    → IsLost j
    → All (λ (q : Os × Os). AreReaped q.0 j.procs) passes
    → (k : JobEntry) × (get_elem? (check_passes passes t).jobs_list i ≡ some k)
      × (k.job_id ≡ j.job_id)
      × IsLost k
unfolding check_passes check_pass jobs_check_completed jobs_refresh_states sigchld_handler
check_passes-IsLost [] t i j e h r = (j, e, refl, h)
check_passes-IsLost ((seen, os) ∷ rest) t i j e h r =
    check_passes-IsLost rest (check_pass seen os t) i (record j { is_stopped = false })
      (pass_slots seen os t.jobs_list i e ∙ ap some (pass_job-lost seen os j h r.0))
      (record {
        in_use = h.in_use;
        all_exited = h.all_exited;
        unfinished = h.unfinished;
        unreported = h.unreported;
      })
      r.1
