-- ===== src/Shell/Lexer.antt =====
-- The lexer, c-shell/src/lexer.c. A position in the line is the list of bytes that are left. The
-- nested loops of `lex_word` are the modes of one machine that reads a byte at a time: a mode
-- says in which loop the code stands, and whether a backslash has just been read there. Growable
-- buffers keep their length and capacity beside what they hold; `malloc` is taken to succeed.
pub mod Buffers
pub mod Progress
pub mod Quoting
pub mod RoundTrip
use mini_project.Common.{
  ℕ, zero, suc, ◌+◌, ◌*◌, Bool, true, false, ◌||◌, List, [], ◌∷◌, ◌++◌, ltb, ◌==◌, if◌then◌else◌,
  length,
}
use mini_project.Shell.Token.{
  Bytes, TokenCategory, op_pipe, op_amp, op_semi, op_lt, op_gt, op_gtgt, op_word, Token,
}

unfoldable pub is_special : ℕ → Bool
is_special c = c == b'<' || c == b'>' || c == b';' || c == b'|' || c == b'&'

unfoldable pub is_space_char : ℕ → Bool
is_space_char c = c == b' ' || c == b'\t' || c == b'\n'

abbrev pub initial_word_cap : ℕ
initial_word_cap = 32

abbrev pub initial_token_cap : ℕ
initial_token_cap = 8

-- `text` holds the first `len` bytes of the buffer; the byte behind them is the terminator.
pub record Word : Type 0 where
  pub text : Bytes
  pub len : ℕ
  pub cap : ℕ

unfoldable pub word_init : Word
word_init = record { text = []; len = 0; cap = initial_word_cap }

unfoldable pub word_push : Word → ℕ → Word
word_push b c =
    let cap' = if ltb b.cap (b.len + 2) then b.cap * 2 else b.cap in
    record { text = b.text ++ c ∷ []; len = b.len + 1; cap = cap' }

pub record TokenVec : Type 0 where
  pub items : List Token
  pub count : ℕ
  pub cap : ℕ

unfoldable pub tv_init : TokenVec
tv_init = record { items = []; count = 0; cap = initial_token_cap }

unfoldable pub tv_push : TokenVec → TokenCategory → Bytes → TokenVec
tv_push v type text =
    let cap' = if v.count == v.cap then v.cap * 2 else v.cap in
    record {
      items = v.items ++ record { type = type; text = text } ∷ [];
      count = v.count + 1;
      cap = cap';
    }

-- The loop of `lex_word` that the code stands in: the outer one, the one between double quotes,
-- the one between single quotes; `escaped` and `double_escaped` stand behind a backslash.
pub data Mode : Type 0 where
  outside escaped double_quoted double_escaped single_quoted : Mode

-- What one byte does: it ends the word and is not consumed, or it is consumed.
pub data Action : Type 0 where
  stop : Action
  move : Mode → Word → Action

unfoldable pub lex_step : Mode → Word → ℕ → Action
unfolding is_space_char is_special
lex_step outside w c =
    if is_space_char c || is_special c
    then stop
    else if c == b'\\'
    then move escaped w
    else if c == b'"'
    then move double_quoted w
    else if c == b'\''
    then move single_quoted w
    else move outside (word_push w c)
lex_step escaped w c = move outside (word_push w c)
lex_step double_quoted w c =
    if c == b'"'
    then move outside w
    else if c == b'\\'
    then move double_escaped w
    else move double_quoted (word_push w c)
lex_step double_escaped w c =
    if c == b'"' || c == b'\\'
    then move double_quoted (word_push w c)
    else move double_quoted (word_push (word_push w b'\\') c)
lex_step single_quoted w c =
    if c == b'\'' then move outside w else move single_quoted (word_push w c)

pub data WordResult : Type 0 where
  word_error : WordResult
  lexed : Word → Bytes → WordResult

-- At the end of the line only the outer loop ends without an error.
unfoldable pub lex_end : Mode → Word → WordResult
lex_end outside w = lexed w []
lex_end _ w = word_error

unfoldable pub lex_loop : Mode → Word → Bytes → WordResult
unfolding lex_end
lex_loop m w [] = lex_end m w
lex_loop m w (c ∷ rest) = elim (lex_step m w c) [
  | stop ↦ lexed w (c ∷ rest)
  | move m' w' ↦ lex_loop m' w' rest
]

unfoldable pub lex_word : Bytes → WordResult
unfolding lex_loop word_init
lex_word = lex_loop outside word_init

pub data LineResult : Type 0 where
  tokens : TokenVec → LineResult
  lex_error : LineResult
  out_of_fuel : LineResult

-- An operator at the head of the input, with what is left behind it (maximal munch for `>>`).
pub data Head : Type 0 where
  blank : Bytes → Head
  operator : TokenCategory → Bytes → Head
  word_start : Head

gt_head : Bytes → Head
gt_head [] = operator op_gt []
gt_head (d ∷ rest) = if d == b'>' then operator op_gtgt rest else operator op_gt (d ∷ rest)

unfoldable pub head : ℕ → Bytes → Head
unfolding gt_head is_space_char
head c rest =
    if is_space_char c
    then blank rest
    else if c == b'|'
    then operator op_pipe rest
    else if c == b'&'
    then operator op_amp rest
    else if c == b';'
    then operator op_semi rest
    else if c == b'<'
    then operator op_lt rest
    else if c == b'>'
    then gt_head rest
    else word_start

-- The loop of `lex_line`. Each round consumes a byte, so the length of the line is enough fuel.
unfoldable pub lex_rounds : ℕ → TokenVec → Bytes → LineResult
lex_rounds fuel vec [] = tokens vec
lex_rounds zero vec (c ∷ rest) = out_of_fuel
lex_rounds (suc fuel) vec (c ∷ rest) = elim (head c rest) [
  | blank left ↦ lex_rounds fuel vec left
  | operator op left ↦ lex_rounds fuel (tv_push vec op []) left
  | word_start ↦ elim (lex_word (c ∷ rest)) [
    | word_error ↦ lex_error
    | lexed w left ↦ lex_rounds fuel (tv_push vec op_word w.text) left
  ]
]

unfoldable pub lex_line : Bytes → LineResult
unfolding lex_rounds tv_init
lex_line line = lex_rounds (length line) tv_init line
