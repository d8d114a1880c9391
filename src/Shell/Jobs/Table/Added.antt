-- ===== src/Shell/Jobs/Table/Added.antt =====
-- Where `jobs_add_pipeline` of c-shell/src/jobs.c writes: the first slot that is not in use.
use mathlib.Core.Option
use mini_project.Common.{
  find_index, get_elem?, update_first, ◌==◌, ℕ, zero, suc, Bool, Option, none, some, List, [], ◌∷◌,
  ◌≡◌, ◌≢◌, refl, ap, arith, if◌then◌else◌, Bool-cases, inl, inr,
}
use mini_project.Shell.Token.{Bytes}
use mini_project.Shell.Jobs.Types.{JobTable}
use mini_project.Shell.Jobs.Table.{new_entry, is_free, jobs_add_pipeline}

module _ {A : Type 0} (test : A → Bool) where
  Found_none : (o : Option ℕ) → (elim o [ none ↦ none | some i ↦ some (suc i) ]) ≡ none → o ≡ none
  Found_none none e = refl
  Found_none (some i) e = cc

  Found_some : (o : Option ℕ) → (elim o [ none ↦ none | some i ↦ some (suc i) ]) ≢ some 0
  Found_some none e = cc
  Found_some (some i) e = cc

  module _ (f : A → A) where
    pub update_first-none : (xs : List A) → find_index test xs ≡ none → update_first test f xs ≡ xs
    unfolding find_index update_first
    update_first-none [] e = refl
    update_first-none (x ∷ xs) e = elim (Bool-cases (test x)) [
      | inl t ↦ ground arith
      | inr t ↦
          rw (t, if◌then◌else◌)
            (ap (λ ys. x ∷ ys)
              (update_first-none xs (Found_none (find_index test xs) (rw (t, if◌then◌else◌) at e))))
    ]

    pub update_first-some :
        (xs : List A) (i k : ℕ)
        → find_index test xs ≡ some i
        → get_elem? (update_first test f xs) k
          ≡ (if k == i then Option.map f (get_elem? xs k) else get_elem? xs k)
    unfolding find_index update_first get_elem?
    update_first-some [] i k e = cc
    update_first-some (x ∷ xs) zero zero e = ground (arith, Found_some (find_index test xs))
    update_first-some (x ∷ xs) zero (suc k) e = ground (arith, Found_some (find_index test xs))
    update_first-some (x ∷ xs) (suc i) zero e = ground arith
    update_first-some (x ∷ xs) (suc i) (suc k) e = ground (arith, update_first-some xs i k)

-- If all slots are in use, nothing changes at all.
pub jobs_add_pipeline_full :
    (job_id pgid : ℕ) (pids : List (ℕ × Bytes)) (cmd : Option Bytes) (t : JobTable)
    → find_index is_free t.jobs_list ≡ none
    → jobs_add_pipeline job_id pgid pids cmd t ≡ t
unfolding jobs_add_pipeline
jobs_add_pipeline_full job_id pgid pids cmd t e =
    ap (λ js. record t { jobs_list = js }) (update_first-none is_free _ t.jobs_list e)

-- With a free slot, the new job is written into the first one, with its processes running, and
-- every other slot is left as it was.
pub jobs_add_pipeline-get_elem? :
    (job_id pgid : ℕ) (pids : List (ℕ × Bytes)) (cmd : Option Bytes) (t : JobTable) (i k : ℕ)
    → find_index is_free t.jobs_list ≡ some i
    → get_elem? (jobs_add_pipeline job_id pgid pids cmd t).jobs_list k ≡ (
        if k == i
        then Option.map (λ _. new_entry job_id pgid pids cmd) (get_elem? t.jobs_list k)
        else get_elem? t.jobs_list k)
unfolding jobs_add_pipeline
jobs_add_pipeline-get_elem? job_id pgid pids cmd t i k e =
    update_first-some is_free _ t.jobs_list i k e
