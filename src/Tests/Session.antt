-- ===== src/Tests/Session.antt =====
-- Commands that are started, lines that are run, and the loop around them.
use mini_project.Common.{
  ℕ, zero, suc, ◌+◌, true, false, none, some, List, [], ◌∷◌, ◌++◌, ◌≡◌, refl, arith,
}
use mini_project.Shell.Token.{Bytes, op_word, op_amp, Token}
use mini_project.Shell.Search.{is_executable}
use mini_project.Shell.Commands.{scan_token}
use mini_project.Shell.Hop.{Dirs}
use mini_project.Shell.Jobs.Types.{no_change, letter, Os, initial_table}
use mini_project.Shell.Jobs.Invariant.Reachable.{at_start}
use mini_project.Shell.Execute.{World, execute_cmd_internal, fg}
use mini_project.Shell.Execute.Background.{execute_pipeline_bg}
use mini_project.Shell.Execute.Outcomes.{BgAnswer, execute_pipeline_bg-BgAnswer}
use mini_project.Shell.Execute.CommandLine.{ShellState, Turn}
use mini_project.Shell.Main.{
  got_line, end_of_file, MainRound, MainState, max_input_len, ends_in, main_loop,
}
use mini_project.Shell.Main.Rounds.{IsSound, main_loop-IsSound}
use mini_project.Shell.Main.Ending.{IsFull, IsStuck, line, main_loop-IsStuck, main_loop-ends}

abbrev quiet : Os
quiet = record { wait = λ pid. no_change; stat = λ pid. letter b'S' }

abbrev root : Bytes
root = b'/' ∷ []

-- Every file can be run, read and written; the first child is process 100.
abbrev easy : World
easy = record {
  files = record {
    access = λ path. true;
    stat = λ path. some false;
    getcwd = some root;
    env_path = none;
  };
  can_read = λ path. true;
  can_write = λ path is_append. true;
  pipe = λ n. true;
  fork = λ n. some (100 + n);
  stops = λ n. true;
  tty = true;
}

abbrev turn : Turn
turn = record {
  world = easy;
  signals = [];
  waits = record { os = quiet; tty = true; rounds = []; late = false };
  now = 0;
  garbage = [];
  report = quiet;
}

-- `a`
abbrev command : List Token
command = record { type = op_word; text = b'a' ∷ [] } ∷ []

-- The command stops, and its job is said to be the first.
stopped_first : (execute_cmd_internal easy fg none command initial_table).0 ≡ false
unfolding execute_cmd_internal scan_token is_executable
stopped_first = refl

execute_pipeline_bg-BgAnswer_example :
    BgAnswer easy 1 none command initial_table
      (execute_pipeline_bg easy 1 none command initial_table)
execute_pipeline_bg-BgAnswer_example =
    execute_pipeline_bg-BgAnswer easy 1 none command initial_table

abbrev everywhere : Dirs Bytes
everywhere = record {
  getcwd = λ path. some path;
  chdir = λ path target. some target;
  is_dir = λ path target. true;
}

abbrev fresh : ShellState Bytes
fresh = record { jobs = initial_table; places = record { place = root; db = []; oldpwd = none } }

-- `a &`
abbrev command_line : List Token
command_line = command ++ record { type = op_amp; text = [] } ∷ []

abbrev main_start : MainState Bytes
main_start = record {
  line = [];
  accum_line = [];
  eof_warned = false;
  prompt_interrupted = false;
  shell = fresh;
}

abbrev typed : Bytes → MainRound
typed text = record {
  check = quiet;
  signalled = false;
  input = got_line text;
  at_end = quiet;
  turns = λ n. turn;
}

abbrev ended : MainRound
ended = record (typed []) { input = end_of_file }

main_loop-IsSound_example :
    IsSound everywhere root true
      (main_loop everywhere root true (typed (b'a' ∷ b'\n' ∷ []) ∷ ended ∷ []) main_start).2
main_loop-IsSound_example =
    main_loop-IsSound everywhere root true (typed (b'a' ∷ b'\n' ∷ []) ∷ ended ∷ []) main_start
      (record { reached = at_start; fits = omega arith })

main_loop-ends_example : (main_loop everywhere root true (ended ∷ ended ∷ []) main_start).0 ≡ false
main_loop-ends_example =
    main_loop-ends everywhere root true ended ended [] main_start refl refl refl

abbrev letters : ℕ → Bytes
letters zero = []
letters (suc n) = b'x' ∷ letters n

abbrev overfull : MainState Bytes
overfull = record main_start { accum_line = letters max_input_len }

overfull-IsFull : IsFull overfull.accum_line
overfull-IsFull = record { full = refl; unended = unfold ends_in in refl }

main_loop-IsStuck_example :
    IsStuck everywhere root overfull
      (main_loop everywhere root true (typed (b'a' ∷ b'\n' ∷ []) ∷ []) overfull)
main_loop-IsStuck_example =
    main_loop-IsStuck everywhere root (typed (b'a' ∷ b'\n' ∷ []) ∷ []) overfull
      (line b'a' (b'\n' ∷ []), tt) overfull-IsFull
