-- ===== src/Shell/Commands.antt =====
-- How a parsed line is taken apart before anything runs: `execute_command_line` and
-- `reconstruct_cmd_str` of c-shell/src/jobs.c, the loop over the tokens of a command that
-- `execute_cmd_internal` and `execute_stage_child` of c-shell/src/execute.c share, and the stages
-- of `execute_pipeline_fg` and `execute_pipeline_bg`. An index into the tokens is the list of the
-- tokens from there on, an array with its count is a list.
pub mod States
pub mod Accepted
pub mod Runnable
pub mod Stages
pub mod Bounds
pub mod Lossless
use mini_project.Common.{
  ℕ, zero, suc, ◌+◌, Bool, true, false, not, ◌||◌, ◌&&◌, Option, none, some, List, [], ◌∷◌, ◌++◌,
  ltb, if◌then◌else◌, length,
}
use mini_project.Shell.Token.{
  Bytes, TokenCategory, op_pipe, op_amp, op_semi, op_lt, op_gt, op_gtgt, op_word, Token,
}

-- The tokens of a command, and whether `&` ended it.
pub record Command : Type 0 where
  pub tokens : List Token
  pub is_bg : Bool

-- What a token is to the loop that looks for the end of a command.
pub data Separator : Type 0 where
  inside semi amp : Separator

unfoldable pub separator : TokenCategory → Separator
separator op_semi = semi
separator op_amp = amp
separator _ = inside

-- A command without a token is skipped.
unfoldable pub emit : List Token → Bool → List Command → List Command
emit [] is_bg rest = rest
emit (t ∷ ts) is_bg rest = record { tokens = t ∷ ts; is_bg = is_bg } ∷ rest

-- `start` holds the tokens from `start` up to `i`.
unfoldable pub commands_from : List Token → List Token → List Command
unfolding separator emit
commands_from start [] = emit start false []
commands_from start (t ∷ ts) = elim (separator t.type) [
  | inside ↦ commands_from (start ++ t ∷ []) ts
  | semi ↦ emit start false (commands_from [] ts)
  | amp ↦ emit start true (commands_from [] ts)
]

-- The commands of a line in the order in which the code runs them, as long as none fails in the
-- foreground.
unfoldable pub commands : List Token → List Command
unfolding commands_from
commands list = commands_from [] list

abbrev token_text : TokenCategory → Bytes → Bytes
token_text op_word text = text
token_text op_pipe text = b'|' ∷ []
token_text op_lt text = b'<' ∷ []
token_text op_gt text = b'>' ∷ []
token_text op_gtgt text = b'>' ∷ b'>' ∷ []
token_text op_semi text = []
token_text op_amp text = []

-- `cur` is the length of what `out` holds.
unfoldable pub add_space : ℕ → Bytes → Bytes
add_space out_len out =
    if ltb 0 (length out) && ltb (length out + 1) out_len then out ++ b' ' ∷ [] else out

unfoldable pub add_token_text : ℕ → Bytes → Bytes → Bytes
unfolding add_space
add_token_text out_len out [] = out
add_token_text out_len out (c ∷ text) =
    let out' = add_space out_len out in
    if ltb (length out' + length (c ∷ text)) out_len then out' ++ c ∷ text else out'

unfoldable pub reconstruct_from : ℕ → Bytes → List Token → Bytes
reconstruct_from out_len out [] = out
reconstruct_from out_len out (t ∷ ts) =
    reconstruct_from out_len (add_token_text out_len out (token_text t.type t.text)) ts

unfoldable pub reconstruct_cmd_str : List Token → ℕ → Bytes
unfolding reconstruct_from
reconstruct_cmd_str list out_len = reconstruct_from out_len [] list

-- What a redirection token announces; the file name follows in the next round.
pub data Redirection : Type 0 where
  input truncate append : Redirection

pub record OutputRedir : Type 0 where
  pub path : Bytes
  pub is_append : Bool

pub record Invocation : Type 0 where
  pub argv : List Bytes
  pub input_files : List Bytes
  pub output_files : List OutputRedir

abbrev pub empty_invocation : Invocation
empty_invocation = record { argv = []; input_files = []; output_files = [] }

unfoldable pub add_file : Redirection → Bytes → Invocation → Invocation
add_file input path v = record v { input_files = v.input_files ++ path ∷ [] }
add_file truncate path v = record v {
  output_files = v.output_files ++ record { path = path; is_append = false } ∷ [];
}
add_file append path v = record v {
  output_files = v.output_files ++ record { path = path; is_append = true } ∷ [];
}

-- Words behind the 255th are dropped.
unfoldable pub add_arg : Bytes → Invocation → Invocation
add_arg text v = if ltb (length v.argv) 255 then record v { argv = v.argv ++ text ∷ [] } else v

-- One token: `pending` is the redirection whose file name is due, and `none` is the answer
-- "invalid syntax".
unfoldable pub scan_token :
    Option Redirection
    → TokenCategory
    → Bytes
    → Invocation
    → Option (Option Redirection × Invocation)
unfolding add_file add_arg
scan_token (some r) op_word text v = some (none, add_file r text v)
scan_token (some r) _ text v = none
scan_token none op_lt text v = some (some input, v)
scan_token none op_gt text v = some (some truncate, v)
scan_token none op_gtgt text v = some (some append, v)
scan_token none op_word text v = some (none, add_arg text v)
scan_token none _ text v = some (none, v)

unfoldable pub scan_end : Option Redirection → Invocation → Option Invocation
scan_end (some r) v = none
scan_end none v = some v

unfoldable pub scan : Option Redirection → Invocation → List Token → Option Invocation
unfolding scan_end
scan pending v [] = scan_end pending v
scan pending v (t ∷ ts) = elim (scan_token pending t.type t.text v) [
  | none ↦ none
  | some (pending', v') ↦ scan pending' v' ts
]

-- The tokens up to the first `;` or `&`.
unfoldable pub group : List Token → List Token
unfolding separator
group [] = []
group (t ∷ ts) = let rest = group ts in elim (separator t.type) [ inside ↦ t ∷ rest | _ ↦ [] ]

-- What a simple command asks to run, or `none` for "invalid syntax".
unfoldable pub read_invocation : List Token → Option Invocation
unfolding scan group
read_invocation list = scan none empty_invocation (group list)

abbrev pub is_pipe : TokenCategory → Bool
is_pipe op_pipe = true
is_pipe _ = false

unfoldable pub count_pipes : List Token → ℕ
unfolding separator
count_pipes [] = 0
count_pipes (t ∷ ts) =
    let rest = count_pipes ts in
    elim (separator t.type) [ inside ↦ if is_pipe t.type then suc rest else rest | _ ↦ 0 ]

unfoldable pub num_stages : List Token → ℕ
unfolding count_pipes
num_stages list = suc (count_pipes list)

-- The array `stages` has 256 places.
unfoldable pub store_stage : List (List Token) → List Token → List (List Token)
store_stage stages s = if ltb (length stages) 256 then stages ++ s ∷ [] else stages

unfoldable pub store_nonempty : List (List Token) → List Token → List (List Token)
unfolding store_stage
store_nonempty stages [] = stages
store_nonempty stages (t ∷ ts) = store_stage stages (t ∷ ts)

-- Behind the loop: the tokens from `start_idx` to the end, unless a separator stands there.
unfoldable pub last_stage : List (List Token) → List Token → List (List Token)
unfolding store_stage separator
last_stage stages [] = stages
last_stage stages (t ∷ ts) = elim (separator t.type) [
  | inside ↦ store_stage stages (t ∷ ts)
  | _ ↦ stages
]

unfoldable pub collect : List (List Token) → List Token → List Token → List (List Token)
unfolding last_stage store_stage store_nonempty separator
collect stages start [] = last_stage stages start
collect stages start (t ∷ ts) = elim (separator t.type) [
  | inside ↦ elim (is_pipe t.type) [
    | true ↦ collect (store_stage stages start) [] ts
    | false ↦ collect stages (start ++ t ∷ []) ts
  ]
  | _ ↦ last_stage (store_nonempty stages start) (start ++ t ∷ ts)
]

abbrev is_empty : List Token → Bool
is_empty [] = true
is_empty (t ∷ ts) = false

unfoldable pub has_empty : List (List Token) → Bool
has_empty [] = false
has_empty (s ∷ ss) = if is_empty s then true else has_empty ss

-- The stages of a pipeline, or `none` for "invalid syntax".
unfoldable pub pipeline_stages : List Token → Option (List (List Token))
unfolding collect num_stages has_empty
pipeline_stages list =
    let stages = collect [] [] list in
    if ltb (length stages) (num_stages list) || has_empty stages then none else some stages
