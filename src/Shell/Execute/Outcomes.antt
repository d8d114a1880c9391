-- ===== src/Shell/Execute/Outcomes.antt =====
-- What `execute_pipeline_bg` of c-shell/src/execute.c can come to.
use mathlib.Core.Option
use mathlib.Core.List.{append_assoc}
use mini_project.Common.{
  ℕ, zero, suc, ◌+◌, ◌-◌, ◌≡◌, refl, sym, ap, ◌∙◌, inl, inr, Bool-cases, if◌then◌else◌, find_index,
  get_elem?, Bool, true, false, ◌&&◌, Option, none, some, List, [], ◌∷◌, ◌++◌, ◌==◌, if_elim,
  length, map, subst,
}
use mini_project.Shell.Token.{Bytes, Token}
use mini_project.Shell.Commands.{
  OutputRedir, Invocation, read_invocation, num_stages, pipeline_stages,
}
use mini_project.Shell.Search.{strip_mark, find_executable}
use mini_project.Shell.Jobs.Types.{JobTable}
use mini_project.Shell.Jobs.Table.{new_entry, is_free, jobs_add, jobs_add_pipeline}
use mini_project.Shell.Jobs.Table.Added.{jobs_add_pipeline_full, jobs_add_pipeline-get_elem?}
use mini_project.Shell.Execute.{
  Builtin, World, Program, in_builtin, prepared_as, Refusal, Prepared, ChildEnd, nothing, display,
  refused, ready, invalid_syntax, Notice, say_pipe_failed, say_fork_failed, say_refusal, opened,
  say_started, child, Answer, bg, stage_builtin, all_readable, locate_program, prepare_read,
  prepare_opened, prepare_argv, prepare, run_forked, run_prepared, execute_cmd_internal, first_arg,
}
use mini_project.Shell.Execute.Pipeline.{
  first_pid, first_stage, fork_stages, stage_children, all_pipes,
}
use mini_project.Shell.Execute.Background.{
  job_name, forked_builtin, start_builtin, run_parsed_bg, run_named_bg, run_stages_bg,
  run_pipeline_bg, run_single_bg, execute_pipeline_bg,
}

-- There is no word to run: no token, or only redirections.
pub data NoCommand (list : List Token) : Type 0 where
  no_token : list ≡ [] → NoCommand list
  no_word : (v : Invocation) → read_invocation list ≡ some v → v.argv ≡ [] → NoCommand list

module _ (w : World) (list : List Token) where
  -- The files that have been opened when a program cannot be started: those of a simple command,
  -- or none.
  pub data HasOpened : List OutputRedir → Type 0 where
    no_file : HasOpened []
    its_files : HasOpened (prepare w list).0

  -- Why a command is not started, with the files that were opened and the message.
  pub data Failure : List OutputRedir → Notice → Type 0 where
    no_pipe :
        {files : List OutputRedir} (n : ℕ)
        → HasOpened files
        → w.pipe n ≡ false
        → Failure files say_pipe_failed
    no_fork :
        {files : List OutputRedir}
        → HasOpened files
        → w.fork 0 ≡ none
        → Failure files say_fork_failed
    turned_down :
        (files : List OutputRedir) (r : Refusal)
        → prepare w list ≡ (files, refused r)
        → Failure files (say_refusal r)
    bad_stages : pipeline_stages list ≡ none → Failure [] (say_refusal invalid_syntax)

  -- The notices before a job is announced, its processes with their names, and its text.
  pub data Started (full : Option Bytes)
      : List Notice → List (ℕ × Bytes) → Option Bytes → Type 0 where
    alone :
        (files : List OutputRedir) (pid : ℕ) (end : ChildEnd)
        → w.fork 0 ≡ some pid
        → Started full
            (map opened files ++ child pid false false end ∷ [])
            ((pid, job_name list) ∷ [])
            full
    staged :
        (stages : List (List Token))
        → pipeline_stages list ≡ some stages
        → Started full
            (stage_children w 0 stages)
            (fork_stages w 0 stages)
            (some (display full (first_stage stages)))

-- A table behind the start of a job: without a free slot it is as it was, else the job stands in
-- the first free slot and the rest is as it was.
pub data Registered (job_id : ℕ) (pids : List (ℕ × Bytes)) (cmd : Option Bytes) (t l : JobTable)
    : Type 0 where
  no_slot : find_index is_free t.jobs_list ≡ none → l ≡ t → Registered job_id pids cmd t l
  in_slot :
      (i : ℕ)
      → find_index is_free t.jobs_list ≡ some i
      → ((k : ℕ)
          → get_elem? l.jobs_list k ≡ (
              if k == i
              then Option.map
                  (λ _. new_entry job_id (first_pid pids) pids cmd)
                  (get_elem? t.jobs_list k)
              else get_elem? t.jobs_list k))
      → Registered job_id pids cmd t l

pub data BgAnswer (w : World) (job_id : ℕ) (full : Option Bytes) (list : List Token) (t : JobTable)
    : Answer → Type 0 where
  no_command : NoCommand list → BgAnswer w job_id full list t (true, [], t)
  failed :
      (files : List OutputRedir) (n : Notice)
      → Failure w list files n
      → BgAnswer w job_id full list t (false, map opened files ++ n ∷ [], t)
  started :
      (before : List Notice) (pids : List (ℕ × Bytes)) (cmd : Option Bytes)
      → Started w list full before pids cmd
      → Registered job_id pids cmd t (jobs_add_pipeline job_id (first_pid pids) pids cmd t)
      → BgAnswer w job_id full list t (
        true,
        before ++ say_started job_id (first_pid pids) ∷ [],
        jobs_add_pipeline job_id (first_pid pids) pids cmd t,
      )

jobs_add_pipeline-Registered :
    (job_id : ℕ) (pids : List (ℕ × Bytes)) (cmd : Option Bytes) (t : JobTable) (o : Option ℕ)
    → find_index is_free t.jobs_list ≡ o
    → Registered job_id pids cmd t (jobs_add_pipeline job_id (first_pid pids) pids cmd t)
jobs_add_pipeline-Registered job_id pids cmd t none e =
    no_slot e (jobs_add_pipeline_full job_id (first_pid pids) pids cmd t e)
jobs_add_pipeline-Registered job_id pids cmd t (some i) e =
    in_slot i e (λ k. jobs_add_pipeline-get_elem? job_id (first_pid pids) pids cmd t i k e)

all_pipes-false : (w : World) (i n : ℕ) → all_pipes w i n ≡ false → (m : ℕ) × (w.pipe m ≡ false)
unfolding all_pipes
all_pipes-false w i zero h = cc
all_pipes-false w i (suc n) h = elim (Bool-cases (w.pipe i)) [
  | inl e ↦ all_pipes-false w (i + 1) n (ap (λ b. b && all_pipes w (i + 1) n) (sym e) ∙ h)
  | inr e ↦ (i, e)
]

module _ (w : World) (job_id : ℕ) (full : Option Bytes) (list : List Token) (t : JobTable) where
  abbrev Fits : Answer → Type 0
  Fits = BgAnswer w job_id full list t

  registered :
      (pids : List (ℕ × Bytes)) (cmd : Option Bytes)
      → Registered job_id pids cmd t (jobs_add_pipeline job_id (first_pid pids) pids cmd t)
  registered pids cmd = jobs_add_pipeline-Registered job_id pids cmd t _ refl

  -- Nothing comes of the tokens only when there is no word.
  abbrev NothingOnly : List OutputRedir × Prepared → Type 0
  NothingOnly (files, nothing) = (files ≡ []) × NoCommand list
  NothingOnly (files, refused r) = Unit
  NothingOnly (files, ready p) = Unit

  located-NothingOnly :
      (files : List OutputRedir) (v : Invocation) (name : Bytes) (args : List Bytes)
      (o : Option Bytes)
      → NothingOnly (files, locate_program v name args o)
  located-NothingOnly files v name args none = tt
  located-NothingOnly files v name args (some path) = tt

  opened-NothingOnly :
      (files : List OutputRedir) (v : Invocation) (raw_cmd : Bytes) (args : List Bytes) (ok : Bool)
      → NothingOnly (files, prepare_opened w.files v raw_cmd args ok)
  unfolding prepare_opened
  opened-NothingOnly files v raw_cmd args false = tt
  opened-NothingOnly files v raw_cmd args true =
      located-NothingOnly files v (strip_mark raw_cmd).1 args (find_executable w.files raw_cmd)

  argv-NothingOnly :
      (v : Invocation) (argv : List Bytes)
      → read_invocation list ≡ some v
      → v.argv ≡ argv
      → NothingOnly (prepare_argv w v argv)
  unfolding prepare_argv
  argv-NothingOnly v [] e f = (refl, no_word v e f)
  argv-NothingOnly v (raw_cmd ∷ args) e f =
      if_elim NothingOnly (all_readable w.can_read v.input_files)
        (opened-NothingOnly _ v raw_cmd args _) tt

  read-NothingOnly :
      (o : Option Invocation) → read_invocation list ≡ o → NothingOnly (prepare_read w o)
  read-NothingOnly none e = tt
  read-NothingOnly (some v) e = argv-NothingOnly v v.argv e refl

  prepare-NothingOnly : NothingOnly (prepare w list)
  unfolding prepare
  prepare-NothingOnly = read-NothingOnly (read_invocation list) refl

  -- The answer when the command has been prepared.
  abbrev run_all : List OutputRedir × Prepared → Answer
  run_all (files, p) =
      let (ok, notices, t') = run_prepared w (bg job_id (job_name list)) full p t in
      (ok, map opened files ++ notices, t')

  its_opened :
      (files : List OutputRedir) (p : Prepared)
      → prepare w list ≡ (files, p)
      → HasOpened w list files
  its_opened files p e = subst (λ x. HasOpened w list x.0) e its_files

  forked-Fits :
      (arg : Bytes) (files : List OutputRedir) (p : Program) (o : Option ℕ)
      → w.fork 0 ≡ o
      → HasOpened w list files
      → let (ok, notices, t') = run_forked w (bg job_id (job_name list)) full arg p o t in
        Fits (ok, map opened files ++ notices, t')
  unfolding run_forked jobs_add
  forked-Fits arg files p none e h = failed files say_fork_failed (no_fork h e)
  forked-Fits arg files p (some pid) e h =
      let name = job_name list in
      subst (λ ns. Fits (true, ns, jobs_add job_id pid name full t))
        (append_assoc (map opened files) (child pid false false (prepared_as [] (ready p)) ∷ [])
          (say_started job_id pid ∷ []))
        (started _ ((pid, name) ∷ []) full (alone files pid (prepared_as [] (ready p)) e)
          (registered ((pid, name) ∷ []) full))

  run_all-Fits :
      (files : List OutputRedir) (p : Prepared)
      → prepare w list ≡ (files, p)
      → Fits (run_all (files, p))
  unfolding run_prepared
  run_all-Fits files nothing e =
      let (clean, idle) = subst NothingOnly e prepare-NothingOnly in
      subst (λ fs. Fits (true, map opened fs ++ [], t)) (sym clean) (no_command idle)
  run_all-Fits files (refused r) e = failed files (say_refusal r) (turned_down files r e)
  run_all-Fits files (ready p) e = elim (Bool-cases (w.pipe 0)) [
    | inl b ↦
        rw (b, if◌then◌else◌)
          (forked-Fits (first_arg p.argv) files p (w.fork 0) refl (its_opened files (ready p) e))
    | inr b ↦
        rw (b, if◌then◌else◌)
          (failed files say_pipe_failed (no_pipe 0 (its_opened files (ready p) e) b))
  ]

  execute_cmd_internal-Fits : Fits (execute_cmd_internal w (bg job_id (job_name list)) full list t)
  unfolding execute_cmd_internal
  execute_cmd_internal-Fits = run_all-Fits (prepare w list).0 (prepare w list).1 refl

  forked_builtin-Fits :
      (b : Builtin) (o : Option ℕ)
      → w.fork 0 ≡ o
      → Fits (forked_builtin job_id (job_name list) full b o t)
  unfolding jobs_add
  forked_builtin-Fits b none e = failed [] say_fork_failed (no_fork no_file e)
  forked_builtin-Fits b (some pid) e =
      started (child pid false false (in_builtin b) ∷ []) ((pid, job_name list) ∷ []) full
        (alone [] pid (in_builtin b) e) (registered ((pid, job_name list) ∷ []) full)

  start_builtin-Fits : (b : Builtin) → Fits (start_builtin w job_id (job_name list) full b t)
  unfolding start_builtin
  start_builtin-Fits b = elim (Bool-cases (w.pipe 0)) [
    | inl e ↦ rw (e, if◌then◌else◌) (forked_builtin-Fits b (w.fork 0) refl)
    | inr e ↦ rw (e, if◌then◌else◌) (failed [] say_pipe_failed (no_pipe 0 no_file e))
  ]

  -- The call of `pipe` that failed.
  failed_pipe : (n : ℕ) → all_pipes w 0 n && w.pipe n ≡ false → (m : ℕ) × (w.pipe m ≡ false)
  failed_pipe n h = elim (Bool-cases (all_pipes w 0 n)) [
    | inl e ↦ (n, ap (λ b. b && w.pipe n) (sym e) ∙ h)
    | inr e ↦ all_pipes-false w 0 n e
  ]

  run_stages_bg-Fits :
      (stages : List (List Token))
      → pipeline_stages list ≡ some stages
      → Fits (run_stages_bg w job_id full stages t)
  unfolding run_stages_bg
  run_stages_bg-Fits stages e =
      elim (Bool-cases (all_pipes w 0 (length stages - 1) && w.pipe (length stages - 1))) [
        | inl b ↦
            rw (b, if◌then◌else◌)
              (started (stage_children w 0 stages) (fork_stages w 0 stages) _ (staged stages e)
                (registered (fork_stages w 0 stages) _))
        | inr b ↦
            let (m, h) = failed_pipe (length stages - 1) b in
            rw (b, if◌then◌else◌) (failed [] say_pipe_failed (no_pipe m no_file h))
      ]

  run_parsed_bg-Fits :
      (o : Option (List (List Token)))
      → pipeline_stages list ≡ o
      → Fits (run_parsed_bg w job_id full o t)
  run_parsed_bg-Fits none e = failed [] (say_refusal invalid_syntax) (bad_stages e)
  run_parsed_bg-Fits (some stages) e = run_stages_bg-Fits stages e

  run_named_bg-Fits : (o : Option Builtin) → Fits (run_named_bg w job_id full o list t)
  run_named_bg-Fits none = execute_cmd_internal-Fits
  run_named_bg-Fits (some b) = start_builtin-Fits b

-- A command that is to run in the background either has no word to run, when nothing happens; or
-- fails, when the table stays as it is, the result is false, and after the files that were opened
-- there is one message that says why: a pipe or the process could not be made, or the command
-- was refused; or it is started, and announced by its id and by the process of its first stage, and
-- is written into the first free slot of the table, with what `fork` gave for each of its stages.
-- When no slot is free it runs and is announced all the same, and the table stays as it is.
pub execute_pipeline_bg-BgAnswer :
    (w : World) (job_id : ℕ) (full : Option Bytes) (list : List Token) (t : JobTable)
    → BgAnswer w job_id full list t (execute_pipeline_bg w job_id full list t)
unfolding execute_pipeline_bg run_single_bg run_pipeline_bg
execute_pipeline_bg-BgAnswer w job_id full [] t = no_command (no_token refl)
execute_pipeline_bg-BgAnswer w job_id full (k ∷ rest) t =
    let list = k ∷ rest in
    if_elim (BgAnswer w job_id full list t) (num_stages list == 1)
      (run_named_bg-Fits w job_id full list t (stage_builtin list))
      (run_parsed_bg-Fits w job_id full list t (pipeline_stages list) refl)
