-- ===== src/Shell/Jobs/Report/Listing.antt =====
-- The order of the `activities` listing of c-shell/src/jobs.c.
use mathlib.Core.List.{Perm}
use mini_project.Common.{
  true, false, IsSortedBy, sort_by-perm, sort_by-IsSortedBy, List, [], ◌∷◌, ◌≡◌, refl, arith,
  if◌then◌else◌, ◌&&◌, Bool, not, any, ap, ◌∙◌, filter_by, subst,
}
use mini_project.Shell.Jobs.Types.{
  ProcState, proc_running, proc_stopped, proc_exited, ProcInfo, JobEntry, JobTable, Os, is_exited,
}
use mini_project.Shell.Jobs.Table.{lives}
use mini_project.Shell.Jobs.Refresh.{jobs_refresh_states}
use mini_project.Shell.Jobs.Report.{
  is_listed, listed, job_le, sort_jobs, job_events, jobs_refresh_and_print_activities,
}

-- Job numbers do not go down.
abbrev pub IsSorted : List JobEntry → Type 0
IsSorted js = IsSortedBy job_le js

job_le-total : (j k : JobEntry) → job_le j k ≡ false → job_le k j ≡ true
job_le-total j k h = ground arith

job_le_trans : (j k l : JobEntry) → job_le j k ≡ true → job_le k l ≡ true → job_le j l ≡ true
job_le_trans j k l h h' = ground arith

-- One of the processes has not exited.
abbrev pub some_live : List ProcInfo → Bool
some_live [] = false
some_live (p ∷ ps) = elim p.state [ proc_exited ↦ some_live ps | _ ↦ true ]

-- In use, with a process that has not exited.
abbrev pub has_live : JobEntry → Bool
has_live j = j.active && some_live j.procs

live_or :
    (s : ProcState) (b : Bool)
    → (if not (is_exited s) then true else b) ≡ elim s [ proc_exited ↦ b | _ ↦ true ]
unfolding is_exited
live_or proc_exited b = refl
live_or proc_running b = refl
live_or proc_stopped b = refl

any-lives : (ps : List ProcInfo) → any lives ps ≡ some_live ps
unfolding any
any-lives [] = refl
any-lives (p ∷ ps) =
    ap (λ b. if lives p then true else b) (any-lives ps) ∙ live_or p.state (some_live ps)

-- The array holds the jobs that pass, as often as they are there, and no other.
listed-filter_by : (js : List JobEntry) → listed js ≡ filter_by has_live js
unfolding listed filter_by
listed-filter_by [] = refl
listed-filter_by (j ∷ js) =
    ap (λ l. if is_listed j then j ∷ l else l) (listed-filter_by js)
    ∙ ap (λ b. if j.active && b then j ∷ filter_by has_live js else filter_by has_live js)
        (any-lives j.procs)

-- `activities` refreshes the table and prints, in the order of their job numbers, exactly the
-- jobs that are then in use and have a process that has not exited, each as often as it is there.
pub activities-IsSorted :
    (os : Os) (t : JobTable)
    → let u = jobs_refresh_states os t in
      (ks : List JobEntry) × (jobs_refresh_and_print_activities os t ≡ (job_events ks, u))
      × Perm ks (filter_by has_live u.jobs_list)
      × IsSorted ks
unfolding jobs_refresh_and_print_activities sort_jobs
activities-IsSorted os t =
    let u = jobs_refresh_states os t in
    let js = listed u.jobs_list in
    (
      sort_jobs js,
      refl,
      subst (Perm (sort_jobs js)) (listed-filter_by u.jobs_list) (sort_by-perm job_le js),
      sort_by-IsSortedBy job_le job_le-total job_le_trans js,
    )
