-- ===== src/Shell/Jobs/Invariant/Adding.antt =====
-- `jobs_add_pipeline` and `jobs_add_stopped` of c-shell/src/jobs.c keep the invariant when the job
-- id comes from `jobs_alloc_id`, as it does at every call in execute.c.
use mini_project.Common.{
  update_first, ℕ, zero, suc, ◌+◌, ◌≤◌, ◌<◌, Bool, true, Option, List, [], ◌∷◌, ◌≡◌, ◌≢◌, refl, sym,
  ◌∙◌, ap, arith, length, All, if◌then◌else◌, Bool-cases, inl, inr,
}
use mini_project.Shell.Token.{Bytes}
use mini_project.Shell.Jobs.Types.{ProcInfo, JobEntry, JobTable, max_pids_per_job}
use mini_project.Shell.Jobs.Table.{
  jobs_alloc_id, start_procs, new_entry, is_free, jobs_add_pipeline, stop_procs, has_id,
  jobs_add_stopped,
}
use mini_project.Shell.Jobs.Invariant.{
  EntryOk, Apart, Distinct, TableOk, IsTame, AllTame, IsTame-refl, AllTame-refl, TableOk-tame,
}

length-start_procs : (n : ℕ) (pids : List (ℕ × Bytes)) → length (start_procs n pids) ≤ n
unfolding start_procs
length-start_procs zero pids = omega arith
length-start_procs (suc n) [] = omega arith
length-start_procs (suc n) (p ∷ pids) = omega (arith, length-start_procs n pids)

new_entry-EntryOk :
    (next job_id pgid : ℕ) (pids : List (ℕ × Bytes)) (cmd : Option Bytes)
    → job_id < next
    → EntryOk next (new_entry job_id pgid pids cmd)
unfolding new_entry
new_entry-EntryOk next job_id pgid pids cmd h = record {
  procs_bound = length-start_procs max_pids_per_job pids;
  id_bound = λ a. h;
  unreported = λ a. refl;
}

module _ (n : JobEntry) where
  -- No slot in use has the id of `n`.
  abbrev IsFresh : JobEntry → Type 0
  IsFresh j = j.active ≡ true → j.job_id ≢ n.job_id

  length-add : (js : List JobEntry) → length (update_first is_free (λ _. n) js) ≡ length js
  unfolding update_first
  length-add [] = refl
  length-add (j ∷ js) = elim (Bool-cases (is_free j)) [
    | inl f ↦ rw (f, if◌then◌else◌)
    | inr f ↦ rw (f, if◌then◌else◌) (ap suc (length-add js))
  ]

  entries-add :
      (next : ℕ) (js : List JobEntry)
      → EntryOk next n
      → All (EntryOk next) js
      → All (EntryOk next) (update_first is_free (λ _. n) js)
  unfolding update_first
  entries-add next [] h hs = tt
  entries-add next (j ∷ js) h hs = elim (Bool-cases (is_free j)) [
    | inl f ↦ rw (f, if◌then◌else◌) (h, hs.1)
    | inr f ↦ rw (f, if◌then◌else◌) (hs.0, entries-add next js h hs.1)
  ]

  Apart-add :
      (j : JobEntry) (js : List JobEntry)
      → IsFresh j
      → All (Apart j) js
      → All (Apart j) (update_first is_free (λ _. n) js)
  unfolding update_first
  Apart-add j [] fresh hs = tt
  Apart-add j (k ∷ ks) fresh hs = elim (Bool-cases (is_free k)) [
    | inl f ↦ rw (f, if◌then◌else◌) ((λ a b. fresh a), hs.1)
    | inr f ↦ rw (f, if◌then◌else◌) (hs.0, Apart-add j ks fresh hs.1)
  ]

  Apart-of_fresh : (js : List JobEntry) → All IsFresh js → All (Apart n) js
  Apart-of_fresh [] h = tt
  Apart-of_fresh (j ∷ js) h = ((λ a b e. h.0 b (sym e)), Apart-of_fresh js h.1)

  Distinct-add :
      (js : List JobEntry)
      → All IsFresh js
      → Distinct js
      → Distinct (update_first is_free (λ _. n) js)
  unfolding update_first
  Distinct-add [] fresh h = tt
  Distinct-add (j ∷ js) fresh h = elim (Bool-cases (is_free j)) [
    | inl f ↦ rw (f, if◌then◌else◌) (Apart-of_fresh js fresh.1, h.1)
    | inr f ↦ rw (f, if◌then◌else◌) (Apart-add j js fresh.0 h.0, Distinct-add js fresh.1 h.1)
  ]

pub entries_mono : (n k : ℕ) (js : List JobEntry) → n ≤ k → All (EntryOk n) js → All (EntryOk k) js
entries_mono n k [] h hs = tt
entries_mono n k (j ∷ js) h hs = (
  record {
    procs_bound = hs.0.procs_bound;
    id_bound = λ a. omega (arith, hs.0.id_bound a);
    unreported = hs.0.unreported;
  },
  entries_mono n k js h hs.1,
)

IsFresh-of_bound :
    (n : JobEntry) (js : List JobEntry) → All (EntryOk n.job_id) js → All (IsFresh n) js
IsFresh-of_bound n [] h = tt
IsFresh-of_bound n (j ∷ js) h = ((λ a. omega (arith, h.0.id_bound a)), IsFresh-of_bound n js h.1)

-- `jobs_alloc_id`, and then `jobs_add_pipeline` with that id.
unfoldable pub start_job : ℕ → List (ℕ × Bytes) → Option Bytes → JobTable → JobTable
start_job pgid pids cmd t =
    let (job_id, t') = jobs_alloc_id t in jobs_add_pipeline job_id pgid pids cmd t'

-- The same with `jobs_add_stopped`.
unfoldable pub park_job : ℕ → List (ℕ × Bytes) → Option Bytes → JobTable → JobTable
park_job pgid pids cmd t =
    let (job_id, t') = jobs_alloc_id t in jobs_add_stopped job_id pgid pids cmd t'

pub start_job-TableOk :
    (pgid : ℕ) (pids : List (ℕ × Bytes)) (cmd : Option Bytes) (t : JobTable)
    → TableOk t
    → TableOk (start_job pgid pids cmd t)
unfolding start_job jobs_alloc_id jobs_add_pipeline
start_job-TableOk pgid pids cmd t h =
    let n = new_entry t.next_job_id pgid pids cmd in
    let more : t.next_job_id ≤ t.next_job_id + 1 = omega arith in
    record {
      slots = length-add n t.jobs_list ∙ h.slots;
      entries =
          entries-add n (t.next_job_id + 1) t.jobs_list
            (new_entry-EntryOk (t.next_job_id + 1) t.next_job_id pgid pids cmd (omega arith))
            (entries_mono t.next_job_id (t.next_job_id + 1) t.jobs_list more h.entries);
      distinct = Distinct-add n t.jobs_list (IsFresh-of_bound n t.jobs_list h.entries) h.distinct;
    }

length-stop_procs : (ps : List ProcInfo) → length (stop_procs ps) ≡ length ps
unfolding stop_procs
length-stop_procs [] = refl
length-stop_procs (p ∷ ps) = ap suc (length-stop_procs ps)

update_first-AllTame :
    (test : JobEntry → Bool) (f : JobEntry → JobEntry) (js : List JobEntry)
    → ((j : JobEntry) → IsTame j (f j))
    → AllTame js (update_first test f js)
unfolding update_first
update_first-AllTame test f [] h = tt
update_first-AllTame test f (j ∷ js) h = elim (Bool-cases (test j)) [
  | inl e ↦ rw (e, if◌then◌else◌) (h j, AllTame-refl js)
  | inr e ↦ rw (e, if◌then◌else◌) (IsTame-refl j, update_first-AllTame test f js h)
]

stopped-IsTame :
    (j : JobEntry) → IsTame j (record j { is_stopped = true; procs = stop_procs j.procs })
stopped-IsTame j = record {
  same_id = refl;
  was_active = λ a. a;
  same_count = length-stop_procs j.procs;
  same_reported = λ a. refl;
}

pub park_job-TableOk :
    (pgid : ℕ) (pids : List (ℕ × Bytes)) (cmd : Option Bytes) (t : JobTable)
    → TableOk t
    → TableOk (park_job pgid pids cmd t)
unfolding park_job jobs_alloc_id jobs_add_stopped start_job
park_job-TableOk pgid pids cmd t h =
    TableOk-tame (start_job pgid pids cmd t) (park_job pgid pids cmd t) refl
      (update_first-AllTame (has_id t.next_job_id) _ (start_job pgid pids cmd t).jobs_list
        stopped-IsTame)
      (start_job-TableOk pgid pids cmd t h)
