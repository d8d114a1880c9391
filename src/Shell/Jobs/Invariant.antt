-- ===== src/Shell/Jobs/Invariant.antt =====
-- The invariant of the job table of c-shell/src/jobs.c, and a relation between a slot before and
-- after an operation under which the invariant is kept.
pub mod Tame
pub mod Waiting
pub mod Adding
pub mod Reachable
use mini_project.Common.{
  ℕ, zero, suc, ◌≤◌, ◌<◌, Bool, true, false, List, [], ◌∷◌, ◌≡◌, ◌≢◌, refl, sym, ◌∙◌, ap, arith,
  length, All,
}
use mini_project.Shell.Jobs.Types.{
  ProcInfo, JobEntry, JobTable, free_entry, free_entries, initial_table, max_bg_jobs,
  max_pids_per_job,
}

-- A slot in use has an id that was handed out, and is not reported.
pub record EntryOk (next : ℕ) (j : JobEntry) : Type 0 where
  pub procs_bound : length j.procs ≤ max_pids_per_job
  pub id_bound : j.active ≡ true → j.job_id < next
  pub unreported : j.active ≡ true → j.reported ≡ false

abbrev pub Apart : JobEntry → JobEntry → Type 0
Apart j k = j.active ≡ true → k.active ≡ true → j.job_id ≢ k.job_id

-- No two slots in use have the same job id.
abbrev pub Distinct : List JobEntry → Type 0
Distinct [] = Unit
Distinct (j ∷ js) = All (Apart j) js × Distinct js

pub record TableOk (t : JobTable) : Type 0 where
  pub slots : length t.jobs_list ≡ max_bg_jobs
  pub entries : All (EntryOk t.next_job_id) t.jobs_list
  pub distinct : Distinct t.jobs_list

-- A slot after an operation that adds no job: its identity is kept, it does not come into use, and
-- while it is in use it is not reported.
pub record IsTame (j k : JobEntry) : Type 0 where
  pub same_id : k.job_id ≡ j.job_id
  pub was_active : k.active ≡ true → j.active ≡ true
  pub same_count : length k.procs ≡ length j.procs
  pub same_reported : k.active ≡ true → k.reported ≡ j.reported

abbrev pub AllTame : List JobEntry → List JobEntry → Type 0
AllTame [] [] = Unit
AllTame (j ∷ js) (k ∷ ks) = IsTame j k × AllTame js ks
AllTame _ _ = ⊥

pub IsTame-refl : (j : JobEntry) → IsTame j j
IsTame-refl j = record {
  same_id = refl;
  was_active = λ h. h;
  same_count = refl;
  same_reported = λ h. refl;
}

pub IsTame-trans : {i j k : JobEntry} → IsTame i j → IsTame j k → IsTame i k
IsTame-trans p q = record {
  same_id = q.same_id ∙ p.same_id;
  was_active = λ h. p.was_active (q.was_active h);
  same_count = q.same_count ∙ p.same_count;
  same_reported = λ h. q.same_reported h ∙ p.same_reported (q.was_active h);
}

pub AllTame-refl : (js : List JobEntry) → AllTame js js
AllTame-refl [] = tt
AllTame-refl (j ∷ js) = (IsTame-refl j, AllTame-refl js)

pub AllTame-trans : (is js ks : List JobEntry) → AllTame is js → AllTame js ks → AllTame is ks
AllTame-trans [] [] [] p q = tt
AllTame-trans [] [] (k ∷ ks) p q = q
AllTame-trans [] (j ∷ js) ks p q = elim p [ ]
AllTame-trans (i ∷ is) [] ks p q = elim p [ ]
AllTame-trans (i ∷ is) (j ∷ js) [] p q = q
AllTame-trans (i ∷ is) (j ∷ js) (k ∷ ks) p q =
    (IsTame-trans p.0 q.0, AllTame-trans is js ks p.1 q.1)

EntryOk-tame : {next : ℕ} {j k : JobEntry} → IsTame j k → EntryOk next j → EntryOk next k
EntryOk-tame p h = record {
  procs_bound = omega (arith, p.same_count, h.procs_bound);
  id_bound = λ a. omega (arith, p.same_id, h.id_bound (p.was_active a));
  unreported = λ a. p.same_reported a ∙ h.unreported (p.was_active a);
}

length-tame : (js ks : List JobEntry) → AllTame js ks → length ks ≡ length js
length-tame [] [] p = refl
length-tame [] (k ∷ ks) p = elim p [ ]
length-tame (j ∷ js) [] p = elim p [ ]
length-tame (j ∷ js) (k ∷ ks) p = omega (arith, length-tame js ks p.1)

entries-tame :
    (next : ℕ) (js ks : List JobEntry)
    → AllTame js ks
    → All (EntryOk next) js
    → All (EntryOk next) ks
entries-tame next [] [] p h = tt
entries-tame next [] (k ∷ ks) p h = elim p [ ]
entries-tame next (j ∷ js) [] p h = elim p [ ]
entries-tame next (j ∷ js) (k ∷ ks) p h = (EntryOk-tame p.0 h.0, entries-tame next js ks p.1 h.1)

Apart-tame :
    {j k : JobEntry} (js ks : List JobEntry)
    → IsTame j k
    → AllTame js ks
    → All (Apart j) js
    → All (Apart k) ks
Apart-tame [] [] p q h = tt
Apart-tame [] (k ∷ ks) p q h = elim q [ ]
Apart-tame (j ∷ js) [] p q h = elim q [ ]
Apart-tame (j ∷ js) (k ∷ ks) p q h = (
  λ a b e. h.0 (p.was_active a) (q.0.was_active b) (sym p.same_id ∙ e ∙ q.0.same_id),
  Apart-tame js ks p q.1 h.1,
)

Distinct-tame : (js ks : List JobEntry) → AllTame js ks → Distinct js → Distinct ks
Distinct-tame [] [] p h = tt
Distinct-tame [] (k ∷ ks) p h = elim p [ ]
Distinct-tame (j ∷ js) [] p h = elim p [ ]
Distinct-tame (j ∷ js) (k ∷ ks) p h = (Apart-tame js ks p.0 p.1 h.0, Distinct-tame js ks p.1 h.1)

pub TableOk-tame :
    (t u : JobTable)
    → u.next_job_id ≡ t.next_job_id
    → AllTame t.jobs_list u.jobs_list
    → TableOk t
    → TableOk u
TableOk-tame t u n p h = record {
  slots = length-tame t.jobs_list u.jobs_list p ∙ h.slots;
  entries = rw n (entries-tame t.next_job_id t.jobs_list u.jobs_list p h.entries);
  distinct = Distinct-tame t.jobs_list u.jobs_list p h.distinct;
}

free_entry-EntryOk : (next : ℕ) → EntryOk next free_entry
free_entry-EntryOk next = record {
  procs_bound = omega arith;
  id_bound = λ a. cc;
  unreported = λ a. refl;
}

free_entries-EntryOk : (next n : ℕ) → All (EntryOk next) (free_entries n)
free_entries-EntryOk next zero = tt
free_entries-EntryOk next (suc n) = (free_entry-EntryOk next, free_entries-EntryOk next n)

free_entries-Apart : (n : ℕ) → All (Apart free_entry) (free_entries n)
free_entries-Apart zero = tt
free_entries-Apart (suc n) = ((λ a b. cc), free_entries-Apart n)

free_entries-Distinct : (n : ℕ) → Distinct (free_entries n)
free_entries-Distinct zero = tt
free_entries-Distinct (suc n) = (free_entries-Apart n, free_entries-Distinct n)

length-free_entries : (n : ℕ) → length (free_entries n) ≡ n
length-free_entries zero = refl
length-free_entries (suc n) = ap suc (length-free_entries n)

pub initial-TableOk : TableOk initial_table
initial-TableOk = record {
  slots = length-free_entries max_bg_jobs;
  entries = free_entries-EntryOk 1 max_bg_jobs;
  distinct = free_entries-Distinct max_bg_jobs;
}
