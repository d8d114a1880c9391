-- ===== src/Shell/Jobs/Resume/Finish.antt =====
-- How the wait of `jobs_resume_fg` in c-shell/src/jobs.c ends when no timeout fires.
use mini_project.Common.{
  Found, get_elem?, modify, ℕ, zero, suc, ◌≤◌, Bool, true, false, ◌||◌, Option, none, some, List,
  [], ◌∷◌, ◌≡◌, ◌≢◌, ◌⊎◌, refl, ◌∙◌, subst, arith, All, ◌==◌, if◌then◌else◌, Bool-cases, inl, inr,
}
use mini_project.Shell.Jobs.Types.{
  ProcState, proc_exited, ProcInfo, JobEntry, JobTable, WaitResult, wait_continued, Os, is_exited,
}
use mini_project.Shell.Jobs.Refresh.{jobs_refresh_states}
use mini_project.Shell.Jobs.Resume.{
  continue_job, Round, Count, wait_proc, wait_one, wait_procs, WaitEnd, timed_out, ended,
  still_waiting, run_handler, pass_end, wait_loop, close_job, resume_end, procs_at, with_job,
  resume_fg_at, jobs_resume_fg,
}
use mini_project.Shell.Jobs.Invariant.{AllTame}
use mini_project.Shell.Jobs.Invariant.Waiting.{wait_loop-TameTable}
use mini_project.Shell.Jobs.Resume.Outcome.{get_elem?-modify}
use mini_project.Shell.Jobs.Table.Lookup.{jobs_get_by_id-Found}
use mini_project.Shell.Jobs.Table.{matches_live, jobs_get_by_id, jobs_set_fg_active}

-- WCONTINUED is not among the flags of this `waitpid`, so it never answers that a process goes on.
abbrev pub NoContinue : Round → Type 0
NoContinue r = (pid raw : ℕ) → r.wait pid ≢ wait_continued raw

-- No timeout fires: none was asked for, or the job was faster.
abbrev pub InTime : Round → Type 0
InTime r = r.timed_out ≡ false

or_right : {a b : Bool} → b ≡ (a || b) → a ≡ true → b ≡ true
or_right e h = rw h at e

both :
    {A B : Type 0} {a b c : ℕ} {s s' : Bool}
    → a ≤ b
    → b ≤ c
    → s' ≡ (s || s')
    → A ⊎ (suc a ≤ b) ⊎ (s ≡ true)
    → B ⊎ (suc b ≤ c) ⊎ (s' ≡ true)
    → (A × B) ⊎ (suc a ≤ c) ⊎ (s' ≡ true)
both p q e (inl x) (inl y) = inl (x, y)
both p q e (inl x) (inr (inl n)) = inr (inl (omega arith))
both p q e (inl x) (inr (inr t)) = inr (inr t)
both p q e (inr (inl n)) y = inr (inl (omega arith))
both p q e (inr (inr t)) y = inr (inr (or_right e t))

abbrev Counts : Count → ProcState × Count → Type 0
Counts c (st, c') =
    (c.alive ≤ c'.alive)
    × (c'.any_stopped ≡ (c.any_stopped || c'.any_stopped))
    × ((st ≡ proc_exited) ⊎ (suc c.alive ≤ c'.alive) ⊎ (c'.any_stopped ≡ true))

wait_proc-Counts :
    (w : WaitResult) (st : ProcState) (c : Count)
    → ((raw : ℕ) → w ≢ wait_continued raw)
    → Counts c (wait_proc w st c)
unfolding wait_proc
wait_proc-Counts (wait_continued raw) st c h = absurd (h raw refl)
wait_proc-Counts _ st c h = ground arith

wait_one-Counts :
    (wait : ℕ → WaitResult) (p : ProcInfo) (c : Count)
    → ((raw : ℕ) → wait p.pid ≢ wait_continued raw)
    → Counts c (wait_one wait p c)
unfolding wait_one
wait_one-Counts wait p c h = elim (Bool-cases (is_exited p.state)) [
  | inl e ↦ rw (e, if◌then◌else◌) (unfold is_exited in ground arith)
  | inr e ↦ rw (e, if◌then◌else◌) (wait_proc-Counts (wait p.pid) p.state c h)
]

-- Nothing alive and nothing stopped means that all have exited.
wait_procs-exited :
    (wait : ℕ → WaitResult) (ps : List ProcInfo) (c : Count)
    → ((pid raw : ℕ) → wait pid ≢ wait_continued raw)
    → let (qs, c') = wait_procs wait ps c in
      (c.alive ≤ c'.alive)
      × (c'.any_stopped ≡ (c.any_stopped || c'.any_stopped))
      × (All (λ q. q.state ≡ proc_exited) qs ⊎ (suc c.alive ≤ c'.alive) ⊎ (c'.any_stopped ≡ true))
unfolding wait_procs
wait_procs-exited wait [] c h = (omega arith, ground arith, inl tt)
wait_procs-exited wait (p ∷ ps) c h =
    let here = wait_one-Counts wait p c (h p.pid) in
    let later = wait_procs-exited wait ps (wait_one wait p c).1 h in
    (
      omega (arith, here.0, later.0),
      ground (arith, here.1, later.1),
      both here.0 later.0 later.1 here.2 later.2,
    )

-- The loop has ended by its own tests: either nothing was stopped and all have exited, or
-- something was stopped.
abbrev Verdict : ℕ → WaitEnd × JobTable → Type 0
Verdict i (ended any_stopped all_done, u) =
    (any_stopped ≡ true)
    ⊎ ((any_stopped ≡ false) × (all_done ≡ true) × All (λ q. q.state ≡ proc_exited) (procs_at i u))
Verdict i (timed_out, u) = ⊥
Verdict i (still_waiting, u) = Unit

replaced-exited :
    (i : ℕ) (ps : List ProcInfo) (js : List JobEntry)
    → All (λ q. q.state ≡ proc_exited) ps
    → All
        (λ q. q.state ≡ proc_exited)
        (elim (get_elem? (modify i (λ j. record j { procs = ps }) js) i) [
          | none ↦ []
          | some j ↦ j.procs
        ])
unfolding get_elem? modify
replaced-exited i ps [] h = tt
replaced-exited zero ps (j ∷ js) h = h
replaced-exited (suc i) ps (j ∷ js) h = replaced-exited i ps js h

suc-ne-zero : (n : ℕ) → (suc n == 0) ≡ false
suc-ne-zero n = ground arith

pass_end-Verdict :
    (i alive : ℕ) (timed any_stopped : Bool) (t' t'' : JobTable) (q : WaitEnd × JobTable)
    → timed ≡ false
    → All (λ p. p.state ≡ proc_exited) (procs_at i t'') ⊎ (1 ≤ alive) ⊎ (any_stopped ≡ true)
    → Verdict i q
    → Verdict i (pass_end timed (alive == 0) any_stopped t' t'' q)
unfolding pass_end
pass_end-Verdict i alive true any_stopped t' t'' q e x v = cc
pass_end-Verdict i zero false true t' t'' q e x v = inl refl
pass_end-Verdict i zero false false t' t'' q e (inl x) v = inr (refl, refl, x)
pass_end-Verdict i zero false false t' t'' q e (inr (inl n)) v = absurd (omega arith)
pass_end-Verdict i zero false false t' t'' q e (inr (inr s)) v = cc
pass_end-Verdict i (suc alive) false true t' t'' q e x v = rw (suc-ne-zero alive) (inl refl)
pass_end-Verdict i (suc alive) false false t' t'' q e x v = rw (suc-ne-zero alive) v

exited_at :
    {B C : Type 0} (i : ℕ) (ps : List ProcInfo) (t : JobTable)
    → All (λ q. q.state ≡ proc_exited) ps ⊎ B ⊎ C
    → All (λ q. q.state ≡ proc_exited) (procs_at i (with_job i (λ j. record j { procs = ps }) t))
      ⊎ B
      ⊎ C
exited_at i ps t (inl x) = inl (replaced-exited i ps t.jobs_list x)
exited_at i ps t (inr y) = inr y

wait_loop-Verdict :
    (i : ℕ) (rs : List Round) (t : JobTable)
    → All NoContinue rs
    → All InTime rs
    → Verdict i (wait_loop i rs t)
unfolding wait_loop
wait_loop-Verdict i [] t h k = tt
wait_loop-Verdict i (r ∷ rs) t h k =
    let t' = run_handler r.handler t in
    let (ps, c) = wait_procs r.wait (procs_at i t') (record { alive = 0; any_stopped = false }) in
    let t'' = with_job i (λ j. record j { procs = ps }) t' in
    let counts =
      wait_procs-exited r.wait (procs_at i t') (record { alive = 0; any_stopped = false }) h.0 in
    pass_end-Verdict i c.alive r.timed_out c.any_stopped t' t'' (wait_loop i rs t'') k.0
      (exited_at i ps t' counts.2) (wait_loop-Verdict i rs t'' h.1 k.1)

abbrev IsExited : ProcInfo → Type 0
IsExited q = q.state ≡ proc_exited

get_elem?-procs :
    (i : ℕ) (t : JobTable) {j : JobEntry}
    → get_elem? t.jobs_list i ≡ some j
    → procs_at i t ≡ j.procs
get_elem?-procs i t e = ground arith

id_of_match : (job_id : ℕ) (j : JobEntry) → matches_live job_id j ≡ true → j.job_id ≡ job_id
id_of_match job_id j h = ground arith

-- What `jobs_resume_fg` returns for a job that it found in slot `i`, and the slot behind it.
pub data FgOutcome (i job_id : ℕ) (v : JobTable) : Option Bool → Type 0 where
  waiting : FgOutcome i job_id v none
  done :
      (k : JobEntry)
      → get_elem? v.jobs_list i ≡ some k
      → k.job_id ≡ job_id
      → k.active ≡ false
      → k.finished ≡ true
      → All (λ q. q.state ≡ proc_exited) k.procs
      → FgOutcome i job_id v (some true)
  stopped_again :
      (k : JobEntry)
      → get_elem? v.jobs_list i ≡ some k
      → k.job_id ≡ job_id
      → k.is_stopped ≡ true
      → FgOutcome i job_id v (some false)

at_tame :
    (i : ℕ) (js ks : List JobEntry) {j : JobEntry}
    → AllTame js ks
    → get_elem? js i ≡ some j
    → (k : JobEntry) × (get_elem? ks i ≡ some k) × (k.job_id ≡ j.job_id)
unfolding get_elem?
at_tame i [] ks h e = cc
at_tame i (x ∷ xs) [] h e = elim h [ ]
at_tame zero (x ∷ xs) (y ∷ ys) h e = (y, refl, ground (arith, h.0.same_id))
at_tame (suc i) (x ∷ xs) (y ∷ ys) h e = at_tame i xs ys h.1 e

resume_end-FgOutcome :
    (i : ℕ) (end : WaitEnd) (u : JobTable) (k : JobEntry)
    → Verdict i (end, u)
    → get_elem? u.jobs_list i ≡ some k
    → let (r, events, v) = resume_end end false i (jobs_set_fg_active false u) in
      FgOutcome i k.job_id v r
unfolding resume_end jobs_set_fg_active
resume_end-FgOutcome i still_waiting u k h e = waiting
resume_end-FgOutcome i timed_out u k h e = elim h [ ]
resume_end-FgOutcome i (ended true all_done) u k h e =
    stopped_again (record k { is_stopped = true })
      (get_elem?-modify (λ j. record j { is_stopped = true }) i u.jobs_list e) refl refl
resume_end-FgOutcome i (ended false true) u k (inl s) e = cc
resume_end-FgOutcome i (ended false true) u k (inr (_, _, x)) e =
    done (close_job k) (get_elem?-modify close_job i u.jobs_list e) (unfold close_job in refl)
      (unfold close_job in refl) (unfold close_job in refl)
      (unfold close_job in subst (All IsExited) (get_elem?-procs i u e) x)
resume_end-FgOutcome i (ended false false) u k (inl s) e = cc
resume_end-FgOutcome i (ended false false) u k (inr (_, d, _)) e = cc

continue_job-id : (j : JobEntry) → (continue_job j).job_id ≡ j.job_id
unfolding continue_job
continue_job-id j = refl

resume_fg_at-FgOutcome :
    (tty : Bool) (timeout : ℕ) (rounds : List Round) (i : ℕ) (t : JobTable) (j : JobEntry)
    → All NoContinue rounds
    → All InTime rounds
    → get_elem? t.jobs_list i ≡ some j
    → let (r, events, v) = resume_fg_at tty timeout rounds false (some i) t in
      FgOutcome i j.job_id v r
unfolding resume_fg_at jobs_set_fg_active
resume_fg_at-FgOutcome tty timeout rounds i t j h k e =
    let t₁ = jobs_set_fg_active true (with_job i continue_job t) in
    let q = wait_loop i rounds t₁ in
    let start = get_elem?-modify continue_job i t.jobs_list e in
    let (l, el, id) =
      at_tame i t₁.jobs_list q.1.jobs_list (wait_loop-TameTable i rounds t₁).slots_tame start in
    let same : l.job_id ≡ j.job_id = id ∙ continue_job-id j in
    rw same at (resume_end-FgOutcome i q.0 q.1 l (wait_loop-Verdict i rounds t₁ h k) el)

-- When no timeout fires, `jobs_resume_fg` on a job that it finds returns 1 only with the job taken
-- out of the table as finished and each of its processes exited; it returns 0 only with the job
-- marked as stopped; and until one of these holds it goes on waiting.
pub jobs_resume_fg-FgOutcome :
    (os : Os) (tty : Bool) (timeout : ℕ) (rounds : List Round) (job_id i : ℕ) (t : JobTable)
    → All NoContinue rounds
    → All InTime rounds
    → (jobs_get_by_id os job_id t).0 ≡ some i
    → let (r, events, v) = jobs_resume_fg os tty timeout rounds false job_id t in
      FgOutcome i job_id v r
unfolding jobs_resume_fg jobs_get_by_id
jobs_resume_fg-FgOutcome os tty timeout rounds job_id i t h k e =
    let u = jobs_refresh_states os t in
    let found : Found (matches_live job_id) u.jobs_list (some i) =
      rw e at (jobs_get_by_id-Found os job_id t) in
    let (j, ej, m) = found in
    rw (e, ← id_of_match job_id j m) (resume_fg_at-FgOutcome tty timeout rounds i u j h k ej)
