-- ===== src/Shell/Lexer/Buffers.antt =====
-- The growable buffers of c-shell/src/lexer.c: no write lands outside what was allocated.
use mini_project.Common.{ℕ, ◌+◌, ◌*◌, ◌≤◌, [], ◌∷◌, ◌≡◌, inl, inr, arith, length, length-append}
use mini_project.Shell.Token.{Bytes, TokenCategory, op_word}
use mini_project.Shell.Lexer.{
  Mode, outside, escaped, double_quoted, double_escaped, single_quoted, Word, word_init, word_push,
  Action, stop, move, lex_step, lexed, lex_loop, lex_word, LineResult, tokens, TokenVec, tv_init,
  tv_push, lex_line,
}
use mini_project.Shell.Lexer.Progress.{
  Action-cases, head_blank, head_operator_shrinks, lex_word_shrinks, Lexes, at_end, skip,
  push_operator, fail_word, push_word, lex_line-Lexes,
}

-- The bytes and the terminator behind them fit the capacity, which stays within a multiple of
-- what was pushed.
pub record WordFits (w : Word) : Type 0 where
  pub counted : w.len ≡ length w.text
  pub room : w.len + 1 ≤ w.cap
  pub cap_bound : w.cap ≤ 32 + 2 * w.len

word_push-WordFits : (w : Word) (c : ℕ) → WordFits w → WordFits (word_push w c)
unfolding word_push
word_push-WordFits w c h = ground (arith, length-append w.text (c ∷ []))

abbrev ActionFits : Action → Type 0
ActionFits stop = Unit
ActionFits (move m w) = WordFits w

lex_step-ActionFits : (m : Mode) (w : Word) (c : ℕ) → WordFits w → ActionFits (lex_step m w c)
unfolding lex_step
lex_step-ActionFits outside w c h = ground (arith, word_push-WordFits w c h)
lex_step-ActionFits _ w c h = ground (
  arith,
  word_push-WordFits w c h,
  word_push-WordFits w b'\\' h,
  word_push-WordFits (word_push w b'\\') c,
)

word_init-WordFits : WordFits word_init
unfolding word_init
word_init-WordFits = omega arith

-- A backslash kept between double quotes is pushed with the byte behind it.
abbrev pending : Mode → ℕ
pending double_escaped = 1
pending _ = 0

abbrev ActionGrows : Mode → Word → Action → Type 0
ActionGrows m w stop = Unit
ActionGrows m w (move m' w') = w'.len + pending m' ≤ w.len + pending m + 1

lex_step-ActionGrows : (m : Mode) (w : Word) (c : ℕ) → ActionGrows m w (lex_step m w c)
unfolding lex_step word_push
lex_step-ActionGrows outside w c = ground arith
lex_step-ActionGrows _ w c = ground arith

lex_loop-WordFits :
    (m : Mode) (w : Word) (bs : Bytes) {w' : Word} {left : Bytes}
    → WordFits w
    → lex_loop m w bs ≡ lexed w' left
    → WordFits w' × (w'.len + length left ≤ w.len + pending m + length bs)
unfolding lex_loop
lex_loop-WordFits outside w [] h e = ground arith
lex_loop-WordFits escaped w [] h e = cc
lex_loop-WordFits double_quoted w [] h e = cc
lex_loop-WordFits double_escaped w [] h e = cc
lex_loop-WordFits single_quoted w [] h e = cc
lex_loop-WordFits m w (c ∷ rest) h e = elim (Action-cases (lex_step m w c)) [
  | inl s ↦ ground arith
  | inr (m', u, s) ↦
      let fits : WordFits u = rw s at (lex_step-ActionFits m w c h) in
      let grows : u.len + pending m' ≤ w.len + pending m + 1 =
        rw s at (lex_step-ActionGrows m w c) in
      let ih = lex_loop-WordFits m' u rest fits (rw (s, lex_loop) at e) in
      (ih.0, omega (arith, ih.1))
]

-- Every word that `lex_word` returns is counted right and fits its buffer with the terminator.
-- The capacity is at most 32 and twice the length, and what is pushed was consumed.
pub lex_word-WordFits :
    (bs : Bytes) {w : Word} {left : Bytes}
    → lex_word bs ≡ lexed w left
    → WordFits w × (w.len + length left ≤ length bs)
unfolding lex_word
lex_word-WordFits bs e =
    let r = lex_loop-WordFits outside word_init bs word_init-WordFits e in
    (r.0, unfold word_init in omega (arith, r.1))

pub record VecFits (v : TokenVec) : Type 0 where
  pub counted : v.count ≡ length v.items
  pub room : v.count ≤ v.cap
  pub cap_least : 8 ≤ v.cap
  pub cap_bound : v.cap ≤ 8 + 2 * v.count

tv_push-VecFits :
    (v : TokenVec) (type : TokenCategory) (text : Bytes)
    → VecFits v
    → VecFits (tv_push v type text) × ((tv_push v type text).count ≡ v.count + 1)
unfolding tv_push
tv_push-VecFits v type text h =
    ground (arith, length-append v.items (record { type = type; text = text } ∷ []))

-- What holds of the vector when the rounds have ended.
abbrev ResultFits : ℕ → LineResult → Type 0
ResultFits n (tokens v) = VecFits v × (v.count ≤ n)
ResultFits n _ = Unit

ResultFits-mono : {n k : ℕ} (r : LineResult) → n ≤ k → ResultFits n r → ResultFits k r
ResultFits-mono (tokens v) h f = (f.0, omega (arith, f.1))
ResultFits-mono _ h f = tt

Lexes-ResultFits :
    {vec : TokenVec} {bs : Bytes} {r : LineResult}
    → Lexes vec bs r
    → VecFits vec
    → ResultFits (vec.count + length bs) r
Lexes-ResultFits at_end h = (h, omega arith)
Lexes-ResultFits (skip {c} {rest} {r} e l) h =
    ResultFits-mono r (ground (arith, head_blank c rest e)) (Lexes-ResultFits l h)
Lexes-ResultFits (push_operator {vec} {c} {rest} {op} {r} e l) h =
    let (fits, more) = tv_push-VecFits vec op [] h in
    ResultFits-mono r (omega (arith, head_operator_shrinks c rest e, more))
      (Lexes-ResultFits l fits)
Lexes-ResultFits (fail_word _ _) h = tt
Lexes-ResultFits (push_word {vec} {c} {rest} {w} {r} e d l) h =
    let (fits, more) = tv_push-VecFits vec op_word w.text h in
    ResultFits-mono r (omega (arith, lex_word_shrinks c rest e d, more)) (Lexes-ResultFits l fits)

tv_init-VecFits : VecFits tv_init
unfolding tv_init
tv_init-VecFits = omega arith

-- When `lex_line` succeeds, `count` is the number of tokens stored, it is within the capacity of
-- the vector, the capacity is at most 8 and twice the count, and there are no more tokens than
-- bytes in the line.
pub lex_line-VecFits :
    (line : Bytes) {v : TokenVec} → lex_line line ≡ tokens v → VecFits v × (v.count ≤ length line)
lex_line-VecFits line e =
    let r = rw e at (Lexes-ResultFits (lex_line-Lexes line) tv_init-VecFits) in
    (r.0, unfold tv_init in omega (arith, r.1))
