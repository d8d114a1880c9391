-- ===== src/Shell/Parser/Grammar.antt =====
-- The grammar in the comments of c-shell/src/parser.c, one constructor for each production, and
-- that the parser accepts its language.
use mini_project.Common.{true, List, [], ◌∷◌, ◌≡◌, ◌↔◌, refl}
use mini_project.Shell.Token.{
  TokenCategory, op_pipe, op_amp, op_semi, op_lt, op_gt, op_gtgt, op_word, Token,
}
use mini_project.Shell.Parser.{cmd, tgt, bg, arg, line, categories, parse_tokens}

mutual
  -- CMD -> WORD ARG
  pub data Cmd : List TokenCategory → Type 0 where
    cmd_word : {ts : List TokenCategory} → Arg ts → Cmd (op_word ∷ ts)

  -- TGT -> WORD ARG
  pub data Tgt : List TokenCategory → Type 0 where
    tgt_word : {ts : List TokenCategory} → Arg ts → Tgt (op_word ∷ ts)

  -- BG -> ε | WORD ARG
  pub data Bg : List TokenCategory → Type 0 where
    bg_empty : Bg []
    bg_word : {ts : List TokenCategory} → Arg ts → Bg (op_word ∷ ts)

  -- ARG -> ε | WORD ARG | LT TGT | GT TGT | GTGT TGT | PIPE CMD | SEMI CMD | AMP BG
  pub data Arg : List TokenCategory → Type 0 where
    arg_empty : Arg []
    arg_word : {ts : List TokenCategory} → Arg ts → Arg (op_word ∷ ts)
    arg_lt : {ts : List TokenCategory} → Tgt ts → Arg (op_lt ∷ ts)
    arg_gt : {ts : List TokenCategory} → Tgt ts → Arg (op_gt ∷ ts)
    arg_gtgt : {ts : List TokenCategory} → Tgt ts → Arg (op_gtgt ∷ ts)
    arg_pipe : {ts : List TokenCategory} → Cmd ts → Arg (op_pipe ∷ ts)
    arg_semi : {ts : List TokenCategory} → Cmd ts → Arg (op_semi ∷ ts)
    arg_amp : {ts : List TokenCategory} → Bg ts → Arg (op_amp ∷ ts)

-- LINE -> ε | WORD ARG
pub data Line : List TokenCategory → Type 0 where
  line_empty : Line []
  line_word : {ts : List TokenCategory} → Arg ts → Line (op_word ∷ ts)

mutual
  unfolding cmd tgt bg arg

  Cmd-sound : (ts : List TokenCategory) → cmd ts ≡ true → Cmd ts
  Cmd-sound [] h = cc
  Cmd-sound (op_word ∷ ts) h = cmd_word (Arg-sound ts h)
  Cmd-sound (_ ∷ ts) h = cc

  Tgt-sound : (ts : List TokenCategory) → tgt ts ≡ true → Tgt ts
  Tgt-sound [] h = cc
  Tgt-sound (op_word ∷ ts) h = tgt_word (Arg-sound ts h)
  Tgt-sound (_ ∷ ts) h = cc

  Bg-sound : (ts : List TokenCategory) → bg ts ≡ true → Bg ts
  Bg-sound [] h = bg_empty
  Bg-sound (op_word ∷ ts) h = bg_word (Arg-sound ts h)
  Bg-sound (_ ∷ ts) h = cc

  Arg-sound : (ts : List TokenCategory) → arg ts ≡ true → Arg ts
  Arg-sound [] h = arg_empty
  Arg-sound (op_word ∷ ts) h = arg_word (Arg-sound ts h)
  Arg-sound (op_lt ∷ ts) h = arg_lt (Tgt-sound ts h)
  Arg-sound (op_gt ∷ ts) h = arg_gt (Tgt-sound ts h)
  Arg-sound (op_gtgt ∷ ts) h = arg_gtgt (Tgt-sound ts h)
  Arg-sound (op_pipe ∷ ts) h = arg_pipe (Cmd-sound ts h)
  Arg-sound (op_semi ∷ ts) h = arg_semi (Cmd-sound ts h)
  Arg-sound (op_amp ∷ ts) h = arg_amp (Bg-sound ts h)

mutual
  unfolding cmd tgt bg arg

  Cmd-complete : {ts : List TokenCategory} → Cmd ts → cmd ts ≡ true
  Cmd-complete (cmd_word a) = Arg-complete a

  Tgt-complete : {ts : List TokenCategory} → Tgt ts → tgt ts ≡ true
  Tgt-complete (tgt_word a) = Arg-complete a

  Bg-complete : {ts : List TokenCategory} → Bg ts → bg ts ≡ true
  Bg-complete bg_empty = refl
  Bg-complete (bg_word a) = Arg-complete a

  Arg-complete : {ts : List TokenCategory} → Arg ts → arg ts ≡ true
  Arg-complete arg_empty = refl
  Arg-complete (arg_word a) = Arg-complete a
  Arg-complete (arg_lt t) = Tgt-complete t
  Arg-complete (arg_gt t) = Tgt-complete t
  Arg-complete (arg_gtgt t) = Tgt-complete t
  Arg-complete (arg_pipe c) = Cmd-complete c
  Arg-complete (arg_semi c) = Cmd-complete c
  Arg-complete (arg_amp b) = Bg-complete b

Line-sound : (ts : List TokenCategory) → line ts ≡ true → Line ts
unfolding line
Line-sound [] h = line_empty
Line-sound (op_word ∷ ts) h = line_word (Arg-sound ts h)
Line-sound (_ ∷ ts) h = cc

Line-complete : {ts : List TokenCategory} → Line ts → line ts ≡ true
unfolding line
Line-complete line_empty = refl
Line-complete (line_word a) = Arg-complete a

-- The parser accepts a token list exactly when the grammar derives its categories.
pub parse_tokens-Line_iff :
    (list : List Token) → (parse_tokens list ≡ true) ↔ Line (categories list)
unfolding parse_tokens
parse_tokens-Line_iff list = ((λ h. Line-sound (categories list) h), Line-complete)
