-- ===== src/Shell/Lexer/Progress.antt =====
-- How much of the line the loops of c-shell/src/lexer.c consume, and that they end.
use mini_project.Common.{ℕ, zero, suc, ◌≤◌, [], ◌∷◌, ◌≡◌, ◌≢◌, refl, ◌⊎◌, inl, inr, arith, length}
use mini_project.Shell.Token.{Bytes, TokenCategory, op_word}
use mini_project.Shell.Lexer.{
  Mode, outside, Word, word_init, Action, stop, move, lex_step, WordResult, word_error, lexed,
  lex_loop, lex_word, LineResult, tokens, lex_error, out_of_fuel, TokenVec, tv_init, tv_push, Head,
  blank, operator, word_start, head, lex_rounds, lex_line,
}

pub Action-cases : (a : Action) → (a ≡ stop) ⊎ ((m : Mode) × (w : Word) × (a ≡ move m w))
Action-cases stop = inl refl
Action-cases (move m w) = inr (m, w, refl)

pub lex_loop_shrinks :
    (m : Mode) (w : Word) (bs : Bytes) {w' : Word} {left : Bytes}
    → lex_loop m w bs ≡ lexed w' left
    → length left ≤ length bs
unfolding lex_loop
lex_loop_shrinks m w [] e = ground arith
lex_loop_shrinks m w (c ∷ rest) e = elim (Action-cases (lex_step m w c)) [
  | inl s ↦ ground arith
  | inr (m', u, s) ↦ let ih = lex_loop_shrinks m' u rest (rw (s, lex_loop) at e) in omega arith
]

-- A byte that starts a word does not end it.
pub lex_step-word_start :
    (c : ℕ) (rest : Bytes) (w : Word) → head c rest ≡ word_start → lex_step outside w c ≢ stop
unfolding head lex_step
lex_step-word_start c rest w h = ground arith

pub lex_word_shrinks :
    (c : ℕ) (rest : Bytes) {w : Word} {left : Bytes}
    → head c rest ≡ word_start
    → lex_word (c ∷ rest) ≡ lexed w left
    → length left ≤ length rest
unfolding lex_word lex_loop
lex_word_shrinks c rest h e = elim (Action-cases (lex_step outside word_init c)) [
  | inl s ↦ absurd (lex_step-word_start c rest word_init h s)
  | inr (m', u, s) ↦ lex_loop_shrinks m' u rest (rw (s, lex_loop) at e)
]

pub head_blank : (c : ℕ) (rest : Bytes) {left : Bytes} → head c rest ≡ blank left → left ≡ rest
unfolding head
head_blank c rest h = ground arith

pub head_operator_shrinks :
    (c : ℕ) (rest : Bytes) {op : TokenCategory} {left : Bytes}
    → head c rest ≡ operator op left
    → length left ≤ length rest
unfolding head
head_operator_shrinks c rest h = ground arith

pub Head-cases :
    (h : Head)
    → ((left : Bytes) × (h ≡ blank left))
      ⊎ ((op : TokenCategory) × (left : Bytes) × (h ≡ operator op left))
      ⊎ (h ≡ word_start)
Head-cases (blank left) = inl (left, refl)
Head-cases (operator op left) = inr (inl (op, left, refl))
Head-cases word_start = inr (inr refl)

pub WordResult-cases :
    (r : WordResult) → (r ≡ word_error) ⊎ ((w : Word) × (left : Bytes) × (r ≡ lexed w left))
WordResult-cases word_error = inl refl
WordResult-cases (lexed w left) = inr (w, left, refl)

-- The loop of `lex_line` with its fuel left out: the rounds that it makes from a vector and the
-- bytes that are left, and what it returns. No rule returns `out_of_fuel`.
pub data Lexes : TokenVec → Bytes → LineResult → Type 0 where
  at_end : {vec : TokenVec} → Lexes vec [] (tokens vec)
  skip :
      {vec : TokenVec} {c : ℕ} {rest left : Bytes} {r : LineResult}
      → head c rest ≡ blank left
      → Lexes vec left r
      → Lexes vec (c ∷ rest) r
  push_operator :
      {vec : TokenVec} {c : ℕ} {rest left : Bytes} {op : TokenCategory} {r : LineResult}
      → head c rest ≡ operator op left
      → Lexes (tv_push vec op []) left r
      → Lexes vec (c ∷ rest) r
  fail_word :
      {vec : TokenVec} {c : ℕ} {rest : Bytes}
      → head c rest ≡ word_start
      → lex_word (c ∷ rest) ≡ word_error
      → Lexes vec (c ∷ rest) lex_error
  push_word :
      {vec : TokenVec} {c : ℕ} {rest left : Bytes} {w : Word} {r : LineResult}
      → head c rest ≡ word_start
      → lex_word (c ∷ rest) ≡ lexed w left
      → Lexes (tv_push vec op_word w.text) left r
      → Lexes vec (c ∷ rest) r

lex_rounds-Lexes :
    (fuel : ℕ) (vec : TokenVec) (bs : Bytes)
    → length bs ≤ fuel
    → Lexes vec bs (lex_rounds fuel vec bs)
unfolding lex_rounds
lex_rounds-Lexes zero vec [] h = at_end
lex_rounds-Lexes (suc fuel) vec [] h = at_end
lex_rounds-Lexes zero vec (c ∷ rest) h = absurd (omega arith)
lex_rounds-Lexes (suc fuel) vec (c ∷ rest) h = elim (Head-cases (head c rest)) [
  | inl (left, e) ↦
      let le : length left ≤ fuel = ground (arith, head_blank c rest e) in
      rw (e, lex_rounds) (skip e (lex_rounds-Lexes fuel vec left le))
  | inr (inl (op, left, e)) ↦
      let le : length left ≤ fuel = omega (arith, head_operator_shrinks c rest e) in
      rw (e, lex_rounds) (push_operator e (lex_rounds-Lexes fuel (tv_push vec op []) left le))
  | inr (inr e) ↦ elim (WordResult-cases (lex_word (c ∷ rest))) [
    | inl f ↦ rw (e, f, lex_rounds) (fail_word e f)
    | inr (w, left, f) ↦
        let le : length left ≤ fuel = omega (arith, lex_word_shrinks c rest e f) in
        rw (e, f, lex_rounds)
          (push_word e f (lex_rounds-Lexes fuel (tv_push vec op_word w.text) left le))
  ]
]

-- The line is lexed to its end or to an error.
pub lex_line-Lexes : (line : Bytes) → Lexes tv_init line (lex_line line)
unfolding lex_line
lex_line-Lexes line = lex_rounds-Lexes (length line) tv_init line (omega arith)

Lexes-ne-out_of_fuel :
    {vec : TokenVec} {bs : Bytes} {r : LineResult} → Lexes vec bs r → r ≢ out_of_fuel
Lexes-ne-out_of_fuel at_end e = cc
Lexes-ne-out_of_fuel (skip _ l) e = Lexes-ne-out_of_fuel l e
Lexes-ne-out_of_fuel (push_operator _ l) e = Lexes-ne-out_of_fuel l e
Lexes-ne-out_of_fuel (fail_word _ _) e = cc
Lexes-ne-out_of_fuel (push_word _ _ l) e = Lexes-ne-out_of_fuel l e

pub lex_line-ne-out_of_fuel : (line : Bytes) → lex_line line ≢ out_of_fuel
lex_line-ne-out_of_fuel line = Lexes-ne-out_of_fuel (lex_line-Lexes line)

-- The rounds determine the result.
pub Lexes-unique :
    {vec : TokenVec} {bs : Bytes} {r r' : LineResult} → Lexes vec bs r → Lexes vec bs r' → r ≡ r'
Lexes-unique at_end at_end = refl
Lexes-unique (skip {left = x} e l) (skip {left = y} f k) =
    let p : y ≡ x = cc in Lexes-unique l (rw p at k)
Lexes-unique (skip e l) (push_operator f k) = cc
Lexes-unique (skip e l) (fail_word f k) = cc
Lexes-unique (skip e l) (push_word f _ k) = cc
Lexes-unique (push_operator e l) (skip f k) = cc
Lexes-unique (push_operator {left = x} {op = o} e l) (push_operator {left = y} {op = u} f k) =
    let p : y ≡ x = cc in let q : u ≡ o = cc in Lexes-unique l (rw (p, q) at k)
Lexes-unique (push_operator e l) (fail_word f k) = cc
Lexes-unique (push_operator e l) (push_word f _ k) = cc
Lexes-unique (fail_word e l) (skip f k) = cc
Lexes-unique (fail_word e l) (push_operator f k) = cc
Lexes-unique (fail_word e l) (fail_word f k) = refl
Lexes-unique (fail_word e l) (push_word f g k) = cc
Lexes-unique (push_word e d l) (skip f k) = cc
Lexes-unique (push_word e d l) (push_operator f k) = cc
Lexes-unique (push_word e d l) (fail_word f k) = cc
Lexes-unique (push_word {left = x} {w = v} e d l) (push_word {left = y} {w = u} f g k) =
    let p : y ≡ x = cc in let q : u ≡ v = cc in Lexes-unique l (rw (p, q) at k)
