-- ===== src/Shell/Jobs/Table/Lookup.antt =====
-- `jobs_get_by_id` of c-shell/src/jobs.c finds the job that was added under its number.
use mini_project.Common.{
  Found, find_index-Found, any, find_index, update_first, ℕ, suc, ◌<◌, Bool, true, false, not,
  Option, none, some, List, [], ◌∷◌, ◌≡◌, ◌≢◌, refl, ◌∙◌, arith, All, take, if◌then◌else◌,
  Bool-cases, inl, inr,
}
use mini_project.Shell.Token.{Bytes}
use mini_project.Shell.Jobs.Types.{
  proc_running, ProcInfo, JobEntry, JobTable, no_change, letter, Os, is_exited,
}
use mini_project.Shell.Jobs.Refresh.{
  Sweep, refresh_proc, refresh_job, refresh_jobs, jobs_refresh_states,
}
use mini_project.Shell.Jobs.Refresh.Steady.{refresh_job-Refreshed}
use mini_project.Shell.Jobs.Invariant.{EntryOk, TableOk}
use mini_project.Shell.Jobs.Invariant.Adding.{start_job}
use mini_project.Shell.Jobs.Table.{
  jobs_alloc_id, lives, new_entry, is_free, matches_live, jobs_add_pipeline, jobs_get_by_id,
}

-- A pointer that `jobs_get_by_id` returns is to a slot in use with that job number and a process
-- that has not exited; a null pointer means that there is none.
pub jobs_get_by_id-Found :
    (os : Os) (job_id : ℕ) (t : JobTable)
    → Found
        (matches_live job_id)
        (jobs_refresh_states os t).jobs_list
        (jobs_get_by_id os job_id t).0
unfolding jobs_get_by_id
jobs_get_by_id-Found os job_id t =
    find_index-Found (matches_live job_id) (jobs_refresh_states os t).jobs_list

refresh_job-id : (os : Os) (j : JobEntry) → (refresh_job os j).job_id ≡ j.job_id
unfolding refresh_job
refresh_job-id os j = ground arith

-- The first process of the job runs, waits or is stopped, as far as the kernel says.
pub record IsUp (os : Os) (pid c : ℕ) : Type 0 where
  pub quiet : os.wait pid ≡ no_change
  pub shown : os.stat pid ≡ letter c
  pub no_zombie : c ≢ b'Z'

refresh_proc_up :
    (os : Os) (pgid c : ℕ) (p : ProcInfo) (s : Sweep)
    → p.state ≡ proc_running
    → IsUp os p.pid c
    → lives (refresh_proc os pgid p s).1 ≡ true
unfolding refresh_proc is_exited
refresh_proc_up os pgid c p s r h = ground arith

new_up :
    (os : Os) (job_id pgid pid c : ℕ) (name : Bytes) (pids : List (ℕ × Bytes)) (cmd : Option Bytes)
    → IsUp os pid c
    → any lives (refresh_job os (new_entry job_id pgid ((pid, name) ∷ pids) cmd)).procs ≡ true
unfolding refresh_job new_entry any
new_up os job_id pgid pid c name pids cmd h = rw (
    refresh_proc_up os pgid c (record { pid = pid; cmd_name = take 255 name; state = proc_running })
      _ refl h)

active_kept :
    (os : Os) (n : JobEntry)
    → n.active ≡ true
    → n.reported ≡ false
    → (refresh_job os n).active ≡ true
active_kept os n a r = (refresh_job-Refreshed os n a).slot_kept ∙ ground arith

live_match :
    (os : Os) (job_id : ℕ) (n : JobEntry)
    → n.active ≡ true
    → n.reported ≡ false
    → n.job_id ≡ job_id
    → any lives (refresh_job os n).procs ≡ true
    → matches_live job_id (refresh_job os n) ≡ true
live_match os job_id n a r i up =
    rw (active_kept os n a r, up, refresh_job-id os n ∙ i) (ground arith)

refresh_new :
    (os : Os) (job_id pgid pid c : ℕ) (name : Bytes) (pids : List (ℕ × Bytes)) (cmd : Option Bytes)
    → IsUp os pid c
    → matches_live job_id (refresh_job os (new_entry job_id pgid ((pid, name) ∷ pids) cmd)) ≡ true
refresh_new os job_id pgid pid c name pids cmd h =
    live_match os job_id (new_entry job_id pgid ((pid, name) ∷ pids) cmd) (unfold new_entry in refl)
      (unfold new_entry in refl) (unfold new_entry in refl)
      (new_up os job_id pgid pid c name pids cmd h)

refresh_other :
    (os : Os) (job_id : ℕ) (j : JobEntry)
    → j.job_id < job_id
    → matches_live job_id (refresh_job os j) ≡ false
refresh_other os job_id j h = ground (arith, refresh_job-id os j)

next_index :
    (o : Option ℕ) {i : ℕ}
    → (elim o [ none ↦ none | some k ↦ some (suc k) ]) ≡ some i
    → (m : ℕ) × (o ≡ some m) × (i ≡ suc m)
next_index none e = cc
next_index (some m) e = (m, refl, ground arith)

module _ (os : Os) (job_id : ℕ) (n : JobEntry)
    (found : matches_live job_id (refresh_job os n) ≡ true) where
  find_index-added :
      (js : List JobEntry) (i : ℕ)
      → All (λ j. (is_free j ≡ false) → j.job_id < job_id) js
      → find_index is_free js ≡ some i
      → find_index (matches_live job_id) (refresh_jobs os (update_first is_free (λ _. n) js))
        ≡ some i
  unfolding find_index update_first refresh_jobs
  find_index-added [] i h e = cc
  find_index-added (j ∷ js) i h e = elim (Bool-cases (is_free j)) [
    | inl f ↦ ground arith
    | inr f ↦
        let e' = rw (f, if◌then◌else◌) at e in
        let (m, found, next) = next_index (find_index is_free js) e' in
        let other = refresh_other os job_id j (h.0 f) in
        rw (f, if◌then◌else◌, other, if◌then◌else◌, find_index-added js m h.1 found, next)
  ]

bound_of_ok :
    (next : ℕ) (js : List JobEntry)
    → All (EntryOk next) js
    → All (λ j. (is_free j ≡ false) → j.job_id < next) js
bound_of_ok next [] h = tt
bound_of_ok next (j ∷ js) h =
    ((λ f. h.0.id_bound (active_of_free j.active f)), bound_of_ok next js h.1)
  where
    active_of_free : (b : Bool) → not b ≡ false → b ≡ true
    active_of_free true e = refl
    active_of_free false e = cc

-- Adding a job and then looking its number up: in a table that satisfies the invariant and has a
-- free slot, `jobs_get_by_id` returns the slot that the job was written into, as long as the
-- kernel has nothing to say of the first process of the job but that it is no zombie, and
-- whatever it says of all others.
pub start_job-get_by_id :
    (os : Os) (pgid pid c : ℕ) (name : Bytes) (pids : List (ℕ × Bytes)) (cmd : Option Bytes)
    (t : JobTable) (i : ℕ)
    → TableOk t
    → IsUp os pid c
    → find_index is_free t.jobs_list ≡ some i
    → (jobs_get_by_id os t.next_job_id (start_job pgid ((pid, name) ∷ pids) cmd t)).0 ≡ some i
unfolding start_job jobs_alloc_id jobs_add_pipeline jobs_get_by_id jobs_refresh_states
start_job-get_by_id os pgid pid c name pids cmd t i ok up free =
    find_index-added os t.next_job_id (new_entry t.next_job_id pgid ((pid, name) ∷ pids) cmd)
      (refresh_new os t.next_job_id pgid pid c name pids cmd up) t.jobs_list i
      (bound_of_ok t.next_job_id t.jobs_list ok.entries) free
