-- ===== src/Tests/Commands.antt =====
-- Lines and commands, and the search for a file.
use mini_project.Common.{ℕ, true, false, some, List, [], ◌∷◌, ◌≡◌, refl, length, All, Bool, ◌==◌}
use mini_project.Shell.Token.{Bytes, op_pipe, op_amp, op_lt, op_word, Token}
use mini_project.Shell.Parser.{parse_tokens, arg}
use mini_project.Shell.Commands.{Command, commands, read_invocation, scan_token, Invocation}
use mini_project.Shell.Commands.Runnable.{Runs}
use mini_project.Shell.Commands.Stages.{StagesRun, parse_tokens-Runs}
use mini_project.Shell.Search.{
  Files, path_dirs, strip_mark, contains, is_executable, find_executable, locate_single,
}
use mini_project.Shell.Search.Candidates.{
  FirstExecutable, candidates, find_executable-First, head?, IsAbsolute,
  locate_single-find_executable,
}

abbrev word : ℕ → Token
word c = record { type = op_word; text = c ∷ [] }

abbrev op_token : Token
op_token = record { type = op_lt; text = [] }

-- `a < b | c & d`
abbrev sample : List Token
sample =
    word b'a'
    ∷ op_token
    ∷ word b'b'
    ∷ record { type = op_pipe; text = [] }
    ∷ word b'c'
    ∷ record { type = op_amp; text = [] }
    ∷ word b'd'
    ∷ []

sample_parses : parse_tokens sample ≡ true
unfolding parse_tokens arg
sample_parses = refl

sample_commands : length (commands sample) ≡ 2
unfolding commands
sample_commands = refl

parse_tokens-Runs_example :
    All (λ (c : Command). Runs c.tokens × StagesRun c.tokens) (commands sample)
parse_tokens-Runs_example = parse_tokens-Runs sample sample_parses

-- `a < b`
abbrev with_input : List Token
with_input = word b'a' ∷ op_token ∷ word b'b' ∷ []

abbrev input_read : Invocation
input_read = record { argv = (b'a' ∷ []) ∷ []; input_files = (b'b' ∷ []) ∷ []; output_files = [] }

with_input_read : read_invocation with_input ≡ some input_read
unfolding read_invocation scan_token
with_input_read = refl

-- Everything in `/b` can be run; the working directory is `/h`, and PATH is `:/a:/b`.
abbrev in_b : Bytes → Bool
in_b (c ∷ d ∷ path) = d == b'b'
in_b _ = false

abbrev disk : Files
disk = record {
  access = in_b;
  stat = λ path. some false;
  getcwd = some (b'/' ∷ b'h' ∷ []);
  env_path = some (b':' ∷ b'/' ∷ b'a' ∷ b':' ∷ b'/' ∷ b'b' ∷ []);
}

found_ls : find_executable disk (b'l' ∷ []) ≡ some (b'/' ∷ b'b' ∷ b'/' ∷ b'l' ∷ [])
unfolding find_executable is_executable
found_ls = refl

find_executable-First_example :
    FirstExecutable disk (candidates disk (b'l' ∷ [])) (find_executable disk (b'l' ∷ []))
find_executable-First_example = find_executable-First disk (b'l' ∷ [])

not_marked : strip_mark (b'l' ∷ []) ≡ (false, b'l' ∷ [])
unfolding strip_mark
not_marked = refl

no_slash : contains b'/' (b'l' ∷ []) ≡ false
unfolding contains
no_slash = refl

absolute : All IsAbsolute (path_dirs disk.env_path)
unfolding path_dirs
absolute = (refl, (refl, tt))

locate_single-find_executable_example :
    head? (locate_single disk [] (b'l' ∷ [])) ≡ find_executable disk (b'l' ∷ [])
locate_single-find_executable_example =
    locate_single-find_executable disk [] (b'l' ∷ []) not_marked no_slash absolute
