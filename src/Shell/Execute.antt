-- ===== src/Shell/Execute.antt =====
-- What the shell does with one command, c-shell/src/execute.c: `execute_cmd_internal`
-- here, the stages of a pipeline in the files below. What the operating system
-- answers while the command is started and waited for is a `World`. Closing descriptors, setting
-- groups and the byte that lets a child in the background go on have no result that the code reads.
pub mod Pipeline
pub mod Background
pub mod Copying
pub mod Outcomes
pub mod CommandLine
pub mod Refinement
use mini_project.Common.{
  ℕ, zero, suc, ◌+◌, ◌-◌, Bool, true, false, not, ◌&&◌, ◌||◌, Option, none, some, List, [], ◌∷◌,
  ◌++◌, ◌==◌, ltb, if◌then◌else◌, length, any, map,
}
use mini_project.Shell.Token.{Bytes, TokenCategory, op_lt, op_gt, op_gtgt, op_word, Token}
use mini_project.Shell.Commands.{
  OutputRedir, Invocation, read_invocation, num_stages, pipeline_stages,
}
use mini_project.Shell.Search.{Files, strip_mark, find_executable}
use mini_project.Shell.Builtins.{same}
use mini_project.Shell.Jobs.Types.{JobTable, Os}
use mini_project.Shell.Jobs.Table.{jobs_alloc_id, jobs_add, jobs_add_pipeline, jobs_add_stopped}

pub data Builtin : Type 0 where
  do_hop do_reveal do_peek do_locate do_activities do_resume do_ping do_spy do_snoop : Builtin

-- The words that the code compares the first token to, in its order.
abbrev builtins : List (Bytes × Builtin)
builtins =
    (b'h' ∷ b'o' ∷ b'p' ∷ [], do_hop)
    ∷ (b'r' ∷ b'e' ∷ b'v' ∷ b'e' ∷ b'a' ∷ b'l' ∷ [], do_reveal)
    ∷ (b'p' ∷ b'e' ∷ b'e' ∷ b'k' ∷ [], do_peek)
    ∷ (b'l' ∷ b'o' ∷ b'c' ∷ b'a' ∷ b't' ∷ b'e' ∷ [], do_locate)
    ∷ (b'a' ∷ b'c' ∷ b't' ∷ b'i' ∷ b'v' ∷ b'i' ∷ b't' ∷ b'i' ∷ b'e' ∷ b's' ∷ [], do_activities)
    ∷ (b'r' ∷ b'e' ∷ b's' ∷ b'u' ∷ b'm' ∷ b'e' ∷ [], do_resume)
    ∷ (b'p' ∷ b'i' ∷ b'n' ∷ b'g' ∷ [], do_ping)
    ∷ (b's' ∷ b'p' ∷ b'y' ∷ [], do_spy)
    ∷ (b's' ∷ b'n' ∷ b'o' ∷ b'o' ∷ b'p' ∷ [], do_snoop)
    ∷ []

unfoldable pub find_builtin : Bytes → List (Bytes × Builtin) → Option Builtin
unfolding same
find_builtin name [] = none
find_builtin name ((word, b) ∷ bs) = if same name word then some b else find_builtin name bs

abbrev builtin_word : TokenCategory → Bytes → Option Builtin
builtin_word op_word text = find_builtin text builtins
builtin_word _ text = none

-- The builtin that the first token names.
unfoldable pub stage_builtin : List Token → Option Builtin
unfolding find_builtin
stage_builtin [] = none
stage_builtin (t ∷ ts) = builtin_word t.type t.text

-- `open` succeeds for reading, and for writing, the flag being O_APPEND rather than O_TRUNC;
-- the calls of `pipe`, `fork` and `waitpid` by number: whether there is a pipe, the process that
-- was made, and whether it has stopped.
pub record World : Type 0 where
  pub files : Files
  pub can_read : Bytes → Bool
  pub can_write : Bytes → Bool → Bool
  pub pipe : ℕ → Bool
  pub fork : ℕ → Option ℕ
  pub stops : ℕ → Bool
  pub tty : Bool

-- What `execv` is given, the files that standard input is fed from one after the other, and the
-- files that standard output is written to; without a file it is inherited.
pub record Program : Type 0 where
  pub path : Bytes
  pub argv : List Bytes
  pub input_files : List Bytes
  pub output_files : List OutputRedir

-- Why a command is not run.
pub data Refusal : Type 0 where
  invalid_syntax no_such_file unable_to_create : Refusal
  command_not_found : Bytes → Refusal

-- What comes of the tokens of a simple command.
pub data Prepared : Type 0 where
  nothing : Prepared
  refused : Refusal → Prepared
  ready : Program → Prepared

-- How the child for a stage ends up: in a builtin, or as prepared, behind the files it has opened.
pub data ChildEnd : Type 0 where
  in_builtin : Builtin → ChildEnd
  prepared_as : List OutputRedir → Prepared → ChildEnd

-- What is done and said; `child` tells whether its standard input and its standard output are the
-- pipes to its neighbours.
pub data Notice : Type 0 where
  say_pipe_failed say_fork_failed terminal_back : Notice
  say_refusal : Refusal → Notice
  opened : OutputRedir → Notice
  say_started : ℕ → ℕ → Notice
  say_stopped : ℕ → Bytes → Notice
  terminal_to : ℕ → Notice
  child : ℕ → Bool → Bool → ChildEnd → Notice

unfoldable pub all_readable : (Bytes → Bool) → List Bytes → Bool
all_readable can_read [] = true
all_readable can_read (f ∷ fs) = can_read f && all_readable can_read fs

-- The output files are opened in order, up to the first that cannot be.
unfoldable pub open_outputs : (Bytes → Bool → Bool) → List OutputRedir → List OutputRedir × Bool
open_outputs can_write [] = ([], true)
open_outputs can_write (f ∷ fs) =
    let (files, ok) = open_outputs can_write fs in
    if can_write f.path f.is_append then (f ∷ files, ok) else ([], false)

abbrev pub locate_program : Invocation → Bytes → List Bytes → Option Bytes → Prepared
locate_program v name args none = refused (command_not_found name)
locate_program v name args (some path) = ready (record {
  path = path;
  argv = name ∷ args;
  input_files = v.input_files;
  output_files = v.output_files;
})

unfoldable pub prepare_opened : Files → Invocation → Bytes → List Bytes → Bool → Prepared
unfolding find_executable strip_mark
prepare_opened fs v raw_cmd args false = refused unable_to_create
prepare_opened fs v raw_cmd args true =
    locate_program v (strip_mark raw_cmd).1 args (find_executable fs raw_cmd)

unfoldable pub prepare_argv : World → Invocation → List Bytes → List OutputRedir × Prepared
unfolding all_readable open_outputs prepare_opened
prepare_argv w v [] = ([], nothing)
prepare_argv w v (raw_cmd ∷ args) =
    if all_readable w.can_read v.input_files
    then (let (files, ok) = open_outputs w.can_write v.output_files in
        (files, prepare_opened w.files v raw_cmd args ok))
    else ([], refused no_such_file)

abbrev pub prepare_read : World → Option Invocation → List OutputRedir × Prepared
prepare_read w none = ([], refused invalid_syntax)
prepare_read w (some v) = prepare_argv w v v.argv

-- All that comes before a program is run, the same in `execute_cmd_internal` and in
-- `execute_stage_child`.
unfoldable pub prepare : World → List Token → List OutputRedir × Prepared
unfolding prepare_argv read_invocation
prepare w list = prepare_read w (read_invocation list)

-- The job in the background that a command becomes: its id and its name.
pub data Mode : Type 0 where
  fg : Mode
  bg : ℕ → Bytes → Mode

-- The result, what was done in order, and the table.
abbrev pub Answer : Type 0
Answer = Bool × List Notice × JobTable

abbrev pub display : Option Bytes → Bytes → Bytes
display none name = name
display (some []) name = name
display (some (c ∷ s)) name = c ∷ s

abbrev pub when : Bool → Notice → List Notice
when b n = if b then n ∷ [] else []

-- What follows the waiting in the foreground.
unfoldable pub park_when : Bool → ℕ → List (ℕ × Bytes) → Bytes → JobTable → Answer
park_when false pgid pids disp t = (true, [], t)
park_when true pgid pids disp t =
    let (s_id, t') = jobs_alloc_id t in
    (false, say_stopped s_id disp ∷ [], jobs_add_stopped s_id pgid pids (some disp) t')

-- The terminal is given to the group, which is waited for.
unfoldable pub wait_fg : World → Bool → ℕ → List (ℕ × Bytes) → Bytes → JobTable → Answer
unfolding park_when
wait_fg w any_stopped pgid pids disp t =
    let (ok, notices, t') = park_when any_stopped pgid pids disp t in
    (ok, when w.tty (terminal_to pgid) ++ (when w.tty terminal_back ++ notices), t')

unfoldable pub run_forked :
    World → Mode → Option Bytes → Bytes → Program → Option ℕ → JobTable → Answer
unfolding wait_fg
run_forked w mode full name p none t = (false, say_fork_failed ∷ [], t)
run_forked w fg full name p (some pid) t =
    let (ok, notices, t') = wait_fg w (w.stops 0) pid ((pid, name) ∷ []) (display full name) t in
    (ok, child pid false false (prepared_as [] (ready p)) ∷ notices, t')
run_forked w (bg job_id cmd) full name p (some pid) t = (
  true,
  child pid false false (prepared_as [] (ready p)) ∷ say_started job_id pid ∷ [],
  jobs_add job_id pid cmd full t,
)

abbrev needs_pipe : Mode → Bool
needs_pipe fg = false
needs_pipe (bg job_id cmd) = true

abbrev pub first_arg : List Bytes → Bytes
first_arg [] = []
first_arg (a ∷ args) = a

unfoldable pub run_prepared : World → Mode → Option Bytes → Prepared → JobTable → Answer
unfolding run_forked
run_prepared w mode full nothing t = (true, [], t)
run_prepared w mode full (refused r) t = (false, say_refusal r ∷ [], t)
run_prepared w mode full (ready p) t =
    if needs_pipe mode && not (w.pipe 0)
    then (false, say_pipe_failed ∷ [], t)
    else run_forked w mode full (first_arg p.argv) p (w.fork 0) t

unfoldable pub execute_cmd_internal : World → Mode → Option Bytes → List Token → JobTable → Answer
unfolding prepare run_prepared
execute_cmd_internal w mode full list t =
    let (files, prepared) = prepare w list in
    let (ok, notices, t') = run_prepared w mode full prepared t in
    (ok, map opened files ++ notices, t')
