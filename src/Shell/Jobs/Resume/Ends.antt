-- ===== src/Shell/Jobs/Resume/Ends.antt =====
-- `jobs_resume_fg` of c-shell/src/jobs.c comes back.
use mini_project.Common.{
  ℕ, Bool, true, false, Option, none, some, List, [], ◌∷◌, ◌++◌, ◌≡◌, ◌≢◌, refl, ◌∙◌, if_elim,
}
use mini_project.Shell.Jobs.Types.{
  ProcState, ProcInfo, JobTable, WaitResult, wait_exited, wait_signaled, no_child, Os, Event,
  is_exited,
}
use mini_project.Shell.Jobs.Table.{jobs_get_by_id}
use mini_project.Shell.Jobs.Resume.{
  Round, Count, wait_proc, wait_one, wait_procs, WaitEnd, timed_out, ended, still_waiting, procs_at,
  run_handler, pass_end, wait_loop, resume_end, resume_fg_at, jobs_resume_fg,
}

-- The kernel says of a process that it has exited, was killed, or is not there.
pub data IsGone : WaitResult → Type 0 where
  exited : (raw : ℕ) → IsGone (wait_exited raw)
  signaled : (raw : ℕ) → IsGone (wait_signaled raw)
  waited_for : IsGone no_child

module _ (wait : ℕ → WaitResult) (gone : (pid : ℕ) → IsGone (wait pid)) where
  wait_proc-IsGone :
      (r : WaitResult) (st : ProcState) (c : Count) → IsGone r → (wait_proc r st c).1 ≡ c
  unfolding wait_proc
  wait_proc-IsGone _ st c (exited raw) = refl
  wait_proc-IsGone _ st c (signaled raw) = refl
  wait_proc-IsGone _ st c waited_for = refl

  wait_procs-IsGone : (ps : List ProcInfo) (c : Count) → (wait_procs wait ps c).1 ≡ c
  unfolding wait_procs wait_one
  wait_procs-IsGone [] c = refl
  wait_procs-IsGone (p ∷ ps) c =
      let one : (wait_one wait p c).1 ≡ c =
        if_elim (λ (r : ProcState × Count). r.1 ≡ c) (is_exited p.state) refl
          (wait_proc-IsGone (wait p.pid) p.state c (gone p.pid)) in
      wait_procs-IsGone ps (wait_one wait p c).1 ∙ one

-- The loop has ended.
abbrev HasEnded : WaitEnd × JobTable → Type 0
HasEnded r = r.0 ≢ still_waiting

pass_end-done :
    (late any_stopped : Bool) (t' t'' : JobTable) (rest : WaitEnd × JobTable)
    → HasEnded (pass_end late true any_stopped t' t'' rest)
unfolding pass_end
pass_end-done true any_stopped t' t'' rest e = cc
pass_end-done false any_stopped t' t'' rest e = cc

pass_end-later :
    (late none_alive any_stopped : Bool) (t' t'' : JobTable) (rest : WaitEnd × JobTable)
    → HasEnded rest
    → HasEnded (pass_end late none_alive any_stopped t' t'' rest)
unfolding pass_end
pass_end-later true none_alive any_stopped t' t'' rest h e = cc
pass_end-later false true any_stopped t' t'' rest h e = cc
pass_end-later false false true t' t'' rest h e = cc
pass_end-later false false false t' t'' rest h e = h e

wait_loop-ends :
    (i : ℕ) (rs more : List Round) (r : Round) (t : JobTable)
    → ((pid : ℕ) → IsGone (r.wait pid))
    → HasEnded (wait_loop i (rs ++ r ∷ more) t)
unfolding wait_loop
wait_loop-ends i [] more r t gone =
    rw
      (wait_procs-IsGone r.wait gone (procs_at i (run_handler r.handler t))
        (record { alive = 0; any_stopped = false }))
      (pass_end-done r.timed_out false _ _ _)
wait_loop-ends i (q ∷ rs) more r t gone =
    pass_end-later q.timed_out _ _ _ _ _ (wait_loop-ends i rs more r _ gone)

-- The call has a result.
abbrev pub Answers : Option Bool × List Event × JobTable → Type 0
Answers r = r.0 ≢ none

resume_end-Answers :
    (end : WaitEnd) (late : Bool) (i : ℕ) (t : JobTable)
    → end ≢ still_waiting
    → (resume_end end late i t).0 ≢ none
unfolding resume_end
resume_end-Answers still_waiting late i t h = λ e. h refl
resume_end-Answers timed_out late i t h = λ e. cc
resume_end-Answers (ended any_stopped all_done) late i t h =
    if_elim Answers late (λ e. cc)
      (if_elim Answers any_stopped (λ e. cc) (if_elim Answers all_done (λ e. cc) (λ e. cc)))

resume_fg_at-Answers :
    (tty : Bool) (timeout : ℕ) (rs more : List Round) (r : Round) (late : Bool) (found : Option ℕ)
    (t : JobTable)
    → ((pid : ℕ) → IsGone (r.wait pid))
    → Answers (resume_fg_at tty timeout (rs ++ r ∷ more) late found t)
unfolding resume_fg_at
resume_fg_at-Answers tty timeout rs more r late none t gone = λ e. cc
resume_fg_at-Answers tty timeout rs more r late (some i) t gone =
    resume_end-Answers _ late i _ (wait_loop-ends i rs more r _ gone)

-- `jobs_resume_fg` comes back, with or without a timeout, as soon as there is a round in which the
-- kernel says of every process of the job that it is gone, whatever happens in the rounds before it.
pub jobs_resume_fg-Answers :
    (os : Os) (tty : Bool) (timeout : ℕ) (rs more : List Round) (r : Round) (late : Bool)
    (job_id : ℕ) (t : JobTable)
    → ((pid : ℕ) → IsGone (r.wait pid))
    → (jobs_resume_fg os tty timeout (rs ++ r ∷ more) late job_id t).0 ≢ none
unfolding jobs_resume_fg
jobs_resume_fg-Answers os tty timeout rs more r late job_id t gone =
    let (found, t') = jobs_get_by_id os job_id t in
    resume_fg_at-Answers tty timeout rs more r late found t' gone
