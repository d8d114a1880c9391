-- ===== src/Shell/Execute/Background.antt =====
-- `execute_pipeline_bg` of c-shell/src/execute.c, and all that it can come to.
use mini_project.Common.{
  ℕ, ◌-◌, true, false, ◌&&◌, Option, none, some, List, [], ◌∷◌, ◌++◌, ◌==◌, if◌then◌else◌, length,
}
use mini_project.Shell.Token.{Bytes, op_word, Token}
use mini_project.Shell.Commands.{num_stages, pipeline_stages}
use mini_project.Shell.Search.{strip_mark}
use mini_project.Shell.Jobs.Types.{JobTable}
use mini_project.Shell.Jobs.Table.{jobs_add, jobs_add_pipeline}
use mini_project.Shell.Execute.{
  Builtin, World, in_builtin, invalid_syntax, say_pipe_failed, say_fork_failed, say_refusal,
  say_started, child, Answer, bg, display, stage_builtin, execute_cmd_internal,
}
use mini_project.Shell.Execute.Pipeline.{
  first_pid, first_stage, fork_stages, stage_children, all_pipes,
}

-- The text of the first word, or nothing.
unfoldable pub first_word : List Token → Bytes
first_word [] = []
first_word (t ∷ ts) = let rest = first_word ts in elim t.type [ op_word ↦ t.text | _ ↦ rest ]

-- What stands behind the last slash: `base` is what stands behind the last one so far.
unfoldable pub after_slash : Bytes → Bytes → Bytes
after_slash base [] = base
after_slash base (c ∷ s) = elim (c == b'/') [ true ↦ after_slash s s | false ↦ after_slash base s ]

unfoldable pub job_name : List Token → Bytes
unfolding first_word after_slash strip_mark
job_name list = let (marked, name) = strip_mark (first_word list) in after_slash name name

abbrev pub forked_builtin : ℕ → Bytes → Option Bytes → Builtin → Option ℕ → JobTable → Answer
forked_builtin job_id name full b none t = (false, say_fork_failed ∷ [], t)
forked_builtin job_id name full b (some pid) t = (
  true,
  child pid false false (in_builtin b) ∷ say_started job_id pid ∷ [],
  jobs_add job_id pid name full t,
)

-- A builtin in the background runs in a child.
unfoldable pub start_builtin : World → ℕ → Bytes → Option Bytes → Builtin → JobTable → Answer
start_builtin w job_id name full b t =
    if w.pipe 0
    then forked_builtin job_id name full b (w.fork 0) t
    else (false, say_pipe_failed ∷ [], t)

-- The last call of `pipe` makes the one that holds the children back.
unfoldable pub run_stages_bg : World → ℕ → Option Bytes → List (List Token) → JobTable → Answer
unfolding fork_stages stage_children all_pipes
run_stages_bg w job_id full stages t =
    let pids = fork_stages w 0 stages in
    if all_pipes w 0 (length stages - 1) && w.pipe (length stages - 1)
    then (
      true,
      stage_children w 0 stages ++ say_started job_id (first_pid pids) ∷ [],
      jobs_add_pipeline job_id (first_pid pids) pids (some (display full (first_stage stages))) t,
    )
    else (false, say_pipe_failed ∷ [], t)

abbrev pub run_parsed_bg : World → ℕ → Option Bytes → Option (List (List Token)) → JobTable → Answer
run_parsed_bg w job_id full none t = (false, say_refusal invalid_syntax ∷ [], t)
run_parsed_bg w job_id full (some stages) t = run_stages_bg w job_id full stages t

unfoldable pub run_pipeline_bg : World → ℕ → Option Bytes → List Token → JobTable → Answer
unfolding pipeline_stages run_stages_bg
run_pipeline_bg w job_id full list t = run_parsed_bg w job_id full (pipeline_stages list) t

abbrev pub run_named_bg : World → ℕ → Option Bytes → Option Builtin → List Token → JobTable → Answer
run_named_bg w job_id full none list t =
    execute_cmd_internal w (bg job_id (job_name list)) full list t
run_named_bg w job_id full (some b) list t = start_builtin w job_id (job_name list) full b t

unfoldable pub run_single_bg : World → ℕ → Option Bytes → List Token → JobTable → Answer
unfolding stage_builtin execute_cmd_internal start_builtin job_name
run_single_bg w job_id full list t = run_named_bg w job_id full (stage_builtin list) list t

unfoldable pub execute_pipeline_bg : World → ℕ → Option Bytes → List Token → JobTable → Answer
unfolding run_single_bg run_pipeline_bg num_stages
execute_pipeline_bg w job_id full [] t = (true, [], t)
execute_pipeline_bg w job_id full (k ∷ list) t =
    if num_stages (k ∷ list) == 1
    then run_single_bg w job_id full (k ∷ list) t
    else run_pipeline_bg w job_id full (k ∷ list) t
