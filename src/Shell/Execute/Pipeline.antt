-- ===== src/Shell/Execute/Pipeline.antt =====
-- The stages of a pipeline in c-shell/src/execute.c: `execute_stage_child`, and the part of
-- `execute_pipeline_fg` for more than one stage, which `execute_pipeline_bg` shares up to the waiting.
use mini_project.Common.{
  ℕ, zero, suc, ◌+◌, ◌-◌, Bool, true, false, not, ◌&&◌, ◌||◌, Option, none, some, List, [], ◌∷◌,
  ◌++◌, ltb, if◌then◌else◌, length, any,
}
use mini_project.Shell.Token.{Bytes, op_lt, op_gt, op_gtgt, Token}
use mini_project.Shell.Commands.{OutputRedir, pipeline_stages}
use mini_project.Shell.Jobs.Types.{JobTable}
use mini_project.Shell.Execute.{
  Builtin, World, Prepared, ChildEnd, in_builtin, prepared_as, invalid_syntax, Notice,
  say_pipe_failed, say_refusal, child, Answer, display, stage_builtin, prepare, wait_fg,
}

abbrev pub as_child : List OutputRedir × Prepared → Option Builtin → ChildEnd
as_child (files, p) none = prepared_as files p
as_child (files, p) (some b) = in_builtin b

-- The child of a stage; one that is refused exits with 1, one without a word with 0.
unfoldable pub execute_stage_child : World → List Token → ChildEnd
unfolding prepare stage_builtin
execute_stage_child w list = as_child (prepare w list) (stage_builtin list)

abbrev redirects_input : Token → Bool
redirects_input t = elim t.type [ op_lt ↦ true | _ ↦ false ]

abbrev redirects_output : Token → Bool
redirects_output t = elim t.type [ op_gt ↦ true | op_gtgt ↦ true | _ ↦ false ]

abbrev pub first_text : List Token → Bytes
first_text [] = []
first_text (t ∷ ts) = t.text

-- -1 as a `pid_t`.
abbrev pub minus_one : ℕ
minus_one = 4294967295

-- A failed `fork` of a stage is not noticed.
abbrev pub pid_of : Option ℕ → ℕ
pid_of none = minus_one
pid_of (some pid) = pid

unfoldable pub fork_stages : World → ℕ → List (List Token) → List (ℕ × Bytes)
fork_stages w i [] = []
fork_stages w i (s ∷ ss) = (pid_of (w.fork i), first_text s) ∷ fork_stages w (i + 1) ss

abbrev from_pipe : ℕ → List Token → Bool
from_pipe i s = not (any redirects_input s) && ltb 0 i

abbrev to_pipe : List (List Token) → List Token → Bool
to_pipe later s = not (any redirects_output s) && ltb 0 (length later)

abbrev forked : Option ℕ → Bool → Bool → ChildEnd → List Notice
forked none input output end = []
forked (some pid) input output end = child pid input output end ∷ []

unfoldable pub stage_children : World → ℕ → List (List Token) → List Notice
unfolding execute_stage_child any
stage_children w i [] = []
stage_children w i (s ∷ ss) =
    forked (w.fork i) (from_pipe i s) (to_pipe ss s) (execute_stage_child w s)
    ++ stage_children w (i + 1) ss

-- The calls of `pipe` from number `i`.
unfoldable pub all_pipes : World → ℕ → ℕ → Bool
all_pipes w i zero = true
all_pipes w i (suc n) = w.pipe i && all_pipes w (i + 1) n

-- Whether one of `n` processes is reported as stopped.
unfoldable pub any_stops : World → ℕ → ℕ → Bool
any_stops w i zero = false
any_stops w i (suc n) = w.stops i || any_stops w (i + 1) n

abbrev pub first_pid : List (ℕ × Bytes) → ℕ
first_pid [] = 0
first_pid ((pid, name) ∷ pids) = pid

abbrev pub first_stage : List (List Token) → Bytes
first_stage [] = []
first_stage (s ∷ ss) = first_text s

unfoldable pub run_stages_fg : World → Option Bytes → List (List Token) → JobTable → Answer
unfolding fork_stages stage_children wait_fg all_pipes any_stops
run_stages_fg w full stages t =
    if all_pipes w 0 (length stages - 1)
    then (let pids = fork_stages w 0 stages in
        let (ok, notices, t') =
          wait_fg w (any_stops w 0 (length stages)) (first_pid pids) pids
            (display full (first_stage stages)) t in
        (ok, stage_children w 0 stages ++ notices, t'))
    else (false, say_pipe_failed ∷ [], t)

abbrev pub run_parsed_fg : World → Option Bytes → Option (List (List Token)) → JobTable → Answer
run_parsed_fg w full none t = (false, say_refusal invalid_syntax ∷ [], t)
run_parsed_fg w full (some stages) t = run_stages_fg w full stages t

-- More than one stage in the foreground.
unfoldable pub run_pipeline_fg : World → Option Bytes → List Token → JobTable → Answer
unfolding pipeline_stages run_stages_fg
run_pipeline_fg w full list t = run_parsed_fg w full (pipeline_stages list) t
