-- ===== src/Shell/Jobs/Refresh/Steady.antt =====
-- What a pass of `jobs_refresh_states` (c-shell/src/jobs.c) keeps, and what its flags mean.
use mini_project.Common.{
  ℕ, Bool, true, false, not, ◌||◌, ◌&&◌, List, [], ◌∷◌, ◌≡◌, refl, sym, ◌∙◌, ap, arith, ◌==◌,
  if◌then◌else◌,
}
use mini_project.Shell.Jobs.Types.{
  proc_exited, ProcInfo, JobEntry, WaitResult, wait_exited, wait_signaled, Os, is_exited,
  is_proc_stopped,
}
use mini_project.Shell.Jobs.Refresh.{
  Sweep, note_end, inspect, note_alive, refresh_proc, refresh_procs, start_sweep, refresh_job,
}

abbrev pub any_live : List ProcInfo → Bool
any_live [] = false
any_live (p ∷ ps) = (if is_exited p.state then false else true) || any_live ps

abbrev pub any_stopped_proc : List ProcInfo → Bool
any_stopped_proc [] = false
any_stopped_proc (p ∷ ps) = is_proc_stopped p.state || any_stopped_proc ps

-- The same process later: an exited process stays exited.
pub record Follows (p q : ProcInfo) : Type 0 where
  pub same_pid : q.pid ≡ p.pid
  pub same_name : q.cmd_name ≡ p.cmd_name
  pub stays_exited : p.state ≡ proc_exited → q.state ≡ proc_exited

-- The same processes later, in the same order.
abbrev pub AllFollow : List ProcInfo → List ProcInfo → Type 0
AllFollow [] [] = Unit
AllFollow (p ∷ ps) (q ∷ qs) = Follows p q × AllFollow ps qs
AllFollow _ _ = ⊥

refresh_proc-Follows :
    (os : Os) (pgid : ℕ) (p : ProcInfo) (s : Sweep) → Follows p (refresh_proc os pgid p s).1
unfolding refresh_proc
refresh_proc-Follows os pgid p s = ground arith

refresh_procs-AllFollow :
    (os : Os) (pgid : ℕ) (ps : List ProcInfo) (s : Sweep)
    → AllFollow ps (refresh_procs os pgid ps s).1
unfolding refresh_procs
refresh_procs-AllFollow os pgid [] s = tt
refresh_procs-AllFollow os pgid (p ∷ ps) s = (
  refresh_proc-Follows os pgid p s,
  refresh_procs-AllFollow os pgid ps (refresh_proc os pgid p s).0,
)

-- What the sweep counts is what the processes are afterwards.
refresh_proc-flags :
    (os : Os) (pgid : ℕ) (p : ProcInfo) (s : Sweep)
    → let (s', q) = refresh_proc os pgid p s in
      (s'.any_alive ≡ (s.any_alive || (if is_exited q.state then false else true)))
      × (s'.any_stopped ≡ (s.any_stopped || is_proc_stopped q.state))
unfolding refresh_proc note_end inspect note_alive is_exited is_proc_stopped
refresh_proc-flags os pgid p s = ground arith

or_assoc : (a b c : Bool) → ((a || b) || c) ≡ (a || (b || c))
or_assoc true b c = refl
or_assoc false b c = refl

refresh_procs-flags :
    (os : Os) (pgid : ℕ) (ps : List ProcInfo) (s : Sweep)
    → let (s', qs) = refresh_procs os pgid ps s in
      (s'.any_alive ≡ (s.any_alive || any_live qs))
      × (s'.any_stopped ≡ (s.any_stopped || any_stopped_proc qs))
unfolding refresh_procs
refresh_procs-flags os pgid [] s = ground arith
refresh_procs-flags os pgid (p ∷ ps) s =
    let here = refresh_proc-flags os pgid p s in
    let later = refresh_procs-flags os pgid ps (refresh_proc os pgid p s).0 in
    let qs = (refresh_procs os pgid ps (refresh_proc os pgid p s).0).1 in
    (
      later.0 ∙ ap (λ x. x || any_live qs) here.0 ∙ or_assoc s.any_alive _ _,
      later.1 ∙ ap (λ x. x || any_stopped_proc qs) here.1 ∙ or_assoc s.any_stopped _ _,
    )

has_ended : WaitResult → Bool
has_ended (wait_exited raw) = true
has_ended (wait_signaled raw) = true
has_ended _ = false

-- Some process that was not known to have exited is the leader, and `waitpid` reports its end.
unfoldable pub leader_ended : Os → ℕ → List ProcInfo → Bool
unfolding has_ended is_exited
leader_ended os pgid [] = false
leader_ended os pgid (p ∷ ps) =
    (not (is_exited p.state) && (p.pid == pgid && has_ended (os.wait p.pid)))
    || leader_ended os pgid ps

refresh_proc-finished :
    (os : Os) (pgid : ℕ) (p : ProcInfo) (s : Sweep)
    → (refresh_proc os pgid p s).0.finished
      ≡ (s.finished || (not (is_exited p.state) && (p.pid == pgid && has_ended (os.wait p.pid))))
unfolding refresh_proc note_end note_alive has_ended is_exited inspect
refresh_proc-finished os pgid p s = ground arith

refresh_procs-finished :
    (os : Os) (pgid : ℕ) (ps : List ProcInfo) (s : Sweep)
    → (refresh_procs os pgid ps s).0.finished ≡ (s.finished || leader_ended os pgid ps)
unfolding refresh_procs leader_ended
refresh_procs-finished os pgid [] s = ground arith
refresh_procs-finished os pgid (p ∷ ps) s =
    refresh_procs-finished os pgid ps (refresh_proc os pgid p s).0
    ∙ ap (λ x. x || leader_ended os pgid ps) (refresh_proc-finished os pgid p s)
    ∙ or_assoc s.finished _ _

-- What holds between an active job and the same job after the pass.
pub record Refreshed (os : Os) (j k : JobEntry) : Type 0 where
  pub same_id : k.job_id ≡ j.job_id
  pub same_pgid : k.pgid ≡ j.pgid
  pub same_cmd : k.full_cmd ≡ j.full_cmd
  pub same_reported : k.reported ≡ j.reported
  pub slot_kept : k.active ≡ not (not (any_live k.procs) && j.reported)
  pub procs_follow : AllFollow j.procs k.procs
  pub stop_flag : k.is_stopped ≡ any_stopped_proc k.procs
  pub finish_flag : k.finished ≡ (j.finished || leader_ended os j.pgid j.procs)

live_of_stopped : (ps : List ProcInfo) → any_live ps ≡ false → any_stopped_proc ps ≡ false
unfolding is_exited is_proc_stopped
live_of_stopped [] h = refl
live_of_stopped (p ∷ ps) h = ground (arith, live_of_stopped ps)

slot_flag :
    (alive reported stopped : Bool)
    → (alive ≡ false → stopped ≡ false)
    → (if not alive && (reported || stopped) then false else true) ≡ not (not alive && reported)
slot_flag true reported stopped h = refl
slot_flag false reported stopped h = rw (h refl) (ground arith)

-- A pass over an active job keeps its identity, its processes in order and what is known of their
-- ends. Its stop flag then says whether one of its processes is stopped; it is finished if it was,
-- or if the end of its group leader was seen in this pass; and it keeps its slot unless it was
-- reported and none of its processes is alive.
pub refresh_job-Refreshed :
    (os : Os) (j : JobEntry) → j.active ≡ true → Refreshed os j (refresh_job os j)
unfolding refresh_job
refresh_job-Refreshed os j a =
    let follow = refresh_procs-AllFollow os j.pgid j.procs (start_sweep j) in
    let flags = refresh_procs-flags os j.pgid j.procs (start_sweep j) in
    let done = refresh_procs-finished os j.pgid j.procs (start_sweep j) in
    let calm = live_of_stopped (refresh_procs os j.pgid j.procs (start_sweep j)).1 in
    rw a (record {
      same_id = refl;
      same_pgid = refl;
      same_cmd = refl;
      same_reported = refl;
      slot_kept =
          rw (sym flags.0) (slot_flag _ j.reported _ (λ q. flags.1 ∙ calm (sym flags.0 ∙ q)));
      procs_follow = follow;
      stop_flag = flags.1;
      finish_flag = done;
    })
