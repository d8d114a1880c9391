-- ===== src/Shell/Jobs/Invariant/Waiting.antt =====
-- `jobs_resume_bg` and `jobs_resume_fg` of c-shell/src/jobs.c keep every slot's identity, however
-- the wait ends.
use mini_project.Common.{
  get_elem?, modify, ℕ, zero, suc, Bool, true, false, Option, none, some, List, [], ◌∷◌, ◌≡◌, refl,
  ◌∙◌, ap, arith, length, ◌==◌, if_elim,
}
use mini_project.Shell.Jobs.Types.{ProcInfo, JobEntry, JobTable, WaitResult, Os, Event}
use mini_project.Shell.Jobs.Resume.{
  continue_job, Round, Count, wait_procs, WaitEnd, timed_out, ended, still_waiting, run_handler,
  pass_end, wait_loop, close_job, resume_end, procs_at, with_job, resume_bg_at, resume_fg_at,
  jobs_resume_bg, jobs_resume_fg,
}
use mini_project.Shell.Jobs.Table.{jobs_get_by_id, jobs_set_fg_active}
use mini_project.Shell.Jobs.Invariant.{AllTame, IsTame-refl, AllTame-refl}
use mini_project.Shell.Jobs.Invariant.Tame.{
  continue_job-IsTame, close_job-IsTame, stop_flag-IsTame, TameTable, TameTable-refl,
  TameTable-trans, jobs_refresh_states-TameTable, sigchld_handler-TameTable, with_job-TameTable,
}

length-wait_procs :
    (wait : ℕ → WaitResult) (ps : List ProcInfo) (c : Count)
    → length (wait_procs wait ps c).0 ≡ length ps
unfolding wait_procs
length-wait_procs wait [] c = refl
length-wait_procs wait (p ∷ ps) c = ap suc (length-wait_procs wait ps _)

replace_procs-AllTame :
    (i : ℕ) (js : List JobEntry) (qs : List ProcInfo)
    → ((j : JobEntry) → get_elem? js i ≡ some j → length qs ≡ length j.procs)
    → AllTame js (modify i (λ j. record j { procs = qs }) js)
unfolding modify get_elem?
replace_procs-AllTame i [] qs h = tt
replace_procs-AllTame zero (j ∷ js) qs h = (
  record { same_id = refl; was_active = λ a. a; same_count = h j refl; same_reported = λ a. refl },
  AllTame-refl js,
)
replace_procs-AllTame (suc i) (j ∷ js) qs h = (IsTame-refl j, replace_procs-AllTame i js qs h)

-- The table after one pass of the wait loop.
pub after_pass : ℕ → Round → JobTable → JobTable
after_pass i r t =
    let t' = run_handler r.handler t in
    let qs = (wait_procs r.wait (procs_at i t') (record { alive = 0; any_stopped = false })).0 in
    with_job i (λ j. record j { procs = qs }) t'

run_handler-TameTable : (h : Option Os) (t : JobTable) → TameTable t (run_handler h t)
unfolding run_handler
run_handler-TameTable none t = TameTable-refl t
run_handler-TameTable (some os) t = sigchld_handler-TameTable os t

procs_at-eq :
    (i : ℕ) (t : JobTable) (j : JobEntry)
    → get_elem? t.jobs_list i ≡ some j
    → procs_at i t ≡ j.procs
procs_at-eq i t j e = ground arith

after_pass-TameTable : (i : ℕ) (r : Round) (t : JobTable) → TameTable t (after_pass i r t)
unfolding after_pass
after_pass-TameTable i r t =
    let t' = run_handler r.handler t in
    let start : Count = record { alive = 0; any_stopped = false } in
    TameTable-trans (run_handler-TameTable r.handler t) (record {
      same_next = refl;
      slots_tame = replace_procs-AllTame i t'.jobs_list _ (λ j e.
          length-wait_procs r.wait (procs_at i t') start ∙ ap length (procs_at-eq i t' j e));
    })

pass_end-TameTable :
    {t t' t'' : JobTable} (q : WaitEnd × JobTable) (timed none_alive any_stopped : Bool)
    → TameTable t t'
    → TameTable t t''
    → TameTable t q.1
    → TameTable t (pass_end timed none_alive any_stopped t' t'' q).1
unfolding pass_end
pass_end-TameTable q true none_alive any_stopped a b c = a
pass_end-TameTable q false true any_stopped a b c = b
pass_end-TameTable q false false true a b c = b
pass_end-TameTable q false false false a b c = c

pub wait_loop-TameTable :
    (i : ℕ) (rs : List Round) (t : JobTable) → TameTable t (wait_loop i rs t).1
unfolding wait_loop after_pass
wait_loop-TameTable i [] t = TameTable-refl t
wait_loop-TameTable i (r ∷ rs) t =
    let pass = after_pass-TameTable i r t in
    let c =
      (wait_procs r.wait (procs_at i (run_handler r.handler t))
        (record { alive = 0; any_stopped = false })).1 in
    pass_end-TameTable (wait_loop i rs (after_pass i r t)) r.timed_out (c.alive == 0) c.any_stopped
      (run_handler-TameTable r.handler t) pass
      (TameTable-trans pass (wait_loop-TameTable i rs (after_pass i r t)))

resume_end-TameTable :
    (e : WaitEnd) (late : Bool) (i : ℕ) (t : JobTable) → TameTable t (resume_end e late i t).2
unfolding resume_end
resume_end-TameTable still_waiting late i t = TameTable-refl t
resume_end-TameTable timed_out late i t = with_job-TameTable close_job i t close_job-IsTame
resume_end-TameTable (ended any_stopped all_done) late i t =
    let end = λ (q : Option Bool × List Event × JobTable). TameTable t q.2 in
    let closed = with_job-TameTable close_job i t close_job-IsTame in
    if_elim end late closed (
      if_elim end any_stopped (with_job-TameTable _ i t stop_flag-IsTame)
        (if_elim end all_done closed (TameTable-refl t)))

jobs_get_by_id-TameTable :
    (os : Os) (job_id : ℕ) (t : JobTable) → TameTable t (jobs_get_by_id os job_id t).1
unfolding jobs_get_by_id
jobs_get_by_id-TameTable os job_id t = jobs_refresh_states-TameTable os t

resume_bg_at-TameTable : (found : Option ℕ) (t : JobTable) → TameTable t (resume_bg_at found t).2
unfolding resume_bg_at
resume_bg_at-TameTable none t = TameTable-refl t
resume_bg_at-TameTable (some i) t = with_job-TameTable continue_job i t continue_job-IsTame

pub jobs_resume_bg-TameTable :
    (os : Os) (job_id : ℕ) (t : JobTable) → TameTable t (jobs_resume_bg os job_id t).2
unfolding jobs_resume_bg
jobs_resume_bg-TameTable os job_id t =
    TameTable-trans (jobs_get_by_id-TameTable os job_id t)
      (resume_bg_at-TameTable (jobs_get_by_id os job_id t).0 (jobs_get_by_id os job_id t).1)

fg_active-TameTable : (b : Bool) (t : JobTable) → TameTable t (jobs_set_fg_active b t)
unfolding jobs_set_fg_active
fg_active-TameTable b t = record { same_next = refl; slots_tame = AllTame-refl t.jobs_list }

resume_fg_at-TameTable :
    (tty : Bool) (timeout : ℕ) (rounds : List Round) (late : Bool) (found : Option ℕ) (t : JobTable)
    → TameTable t (resume_fg_at tty timeout rounds late found t).2
unfolding resume_fg_at
resume_fg_at-TameTable tty timeout rounds late none t = TameTable-refl t
resume_fg_at-TameTable tty timeout rounds late (some i) t =
    let t₁ = jobs_set_fg_active true (with_job i continue_job t) in
    let waited = wait_loop i rounds t₁ in
    TameTable-trans (with_job-TameTable continue_job i t continue_job-IsTame) (
      TameTable-trans (fg_active-TameTable true (with_job i continue_job t)) (
        TameTable-trans (wait_loop-TameTable i rounds t₁) (
          TameTable-trans (fg_active-TameTable false waited.1)
            (resume_end-TameTable waited.0 late i (jobs_set_fg_active false waited.1)))))

pub jobs_resume_fg-TameTable :
    (os : Os) (tty : Bool) (timeout : ℕ) (rounds : List Round) (late : Bool) (job_id : ℕ)
    (t : JobTable)
    → TameTable t (jobs_resume_fg os tty timeout rounds late job_id t).2
unfolding jobs_resume_fg
jobs_resume_fg-TameTable os tty timeout rounds late job_id t =
    TameTable-trans (jobs_get_by_id-TameTable os job_id t) (
      resume_fg_at-TameTable tty timeout rounds late (jobs_get_by_id os job_id t).0
        (jobs_get_by_id os job_id t).1)
