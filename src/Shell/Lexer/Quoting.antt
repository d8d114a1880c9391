-- ===== src/Shell/Lexer/Quoting.antt =====
-- When c-shell/src/lexer.c refuses a line: a scan of the quotes alone, which builds no word.
use mini_project.Common.{
  ℕ, [], ◌∷◌, ◌≡◌, ◌≢◌, ◌↔◌, refl, sym, ◌∙◌, inl, inr, arith, ◌==◌, if◌then◌else◌,
}
use mini_project.Shell.Token.{Bytes, TokenCategory}
use mini_project.Shell.Lexer.{
  Mode, outside, escaped, double_quoted, double_escaped, single_quoted, Word, word_init, Action,
  stop, move, lex_step, WordResult, word_error, lexed, lex_loop, lex_word, LineResult, tokens,
  lex_error, out_of_fuel, TokenVec, blank, operator, head, lex_line,
}
use mini_project.Shell.Lexer.Progress.{
  Action-cases, Lexes, at_end, skip, push_operator, fail_word, push_word, lex_line-Lexes,
  lex_line-ne-out_of_fuel,
}

-- Where a byte leads: quotes toggle, and a backslash protects one byte except in single quotes.
quote_step : Mode → ℕ → Mode
quote_step outside c =
    if c == b'\\'
    then escaped
    else if c == b'"'
    then double_quoted
    else if c == b'\''
    then single_quoted
    else outside
quote_step escaped c = outside
quote_step double_quoted c =
    if c == b'"' then outside else if c == b'\\' then double_escaped else double_quoted
quote_step double_escaped c = double_quoted
quote_step single_quoted c = if c == b'\'' then outside else single_quoted

-- The mode at the end of a text.
unfoldable pub quoting : Mode → Bytes → Mode
unfolding quote_step
quoting m [] = m
quoting m (c ∷ rest) = quoting (quote_step m c) rest

abbrev ActionQuotes : Mode → ℕ → Action → Type 0
ActionQuotes m c stop = (m ≡ outside) × (quote_step m c ≡ outside)
ActionQuotes m c (move m' w) = m' ≡ quote_step m c

lex_step-ActionQuotes : (m : Mode) (w : Word) (c : ℕ) → ActionQuotes m c (lex_step m w c)
unfolding lex_step quote_step
lex_step-ActionQuotes outside w c = ground arith
lex_step-ActionQuotes _ w c = ground arith

-- A word that ends leaves the quotes closed; one that does not end leaves them open.
abbrev WordQuotes : Mode → Bytes → WordResult → Type 0
WordQuotes m bs word_error = quoting m bs ≢ outside
WordQuotes m bs (lexed w left) = quoting m bs ≡ quoting outside left

WordQuotes-cons :
    (m m' : Mode) (c : ℕ) (rest : Bytes) (r : WordResult)
    → m' ≡ quote_step m c
    → WordQuotes m' rest r
    → WordQuotes m (c ∷ rest) r
unfolding quoting
WordQuotes-cons m m' c rest word_error q h = rw (← q) h
WordQuotes-cons m m' c rest (lexed w left) q h = rw (← q) h

lex_loop-WordQuotes : (m : Mode) (w : Word) (bs : Bytes) → WordQuotes m bs (lex_loop m w bs)
unfolding lex_loop quoting
lex_loop-WordQuotes outside w [] = refl
lex_loop-WordQuotes escaped w [] = λ e. cc
lex_loop-WordQuotes double_quoted w [] = λ e. cc
lex_loop-WordQuotes double_escaped w [] = λ e. cc
lex_loop-WordQuotes single_quoted w [] = λ e. cc
lex_loop-WordQuotes m w (c ∷ rest) = elim (Action-cases (lex_step m w c)) [
  | inl s ↦ let (o, _) = rw s at (lex_step-ActionQuotes m w c) in rw (s, lex_loop, o)
  | inr (m', u, s) ↦
      let q : m' ≡ quote_step m c = rw s at (lex_step-ActionQuotes m w c) in
      rw (s, lex_loop)
        (WordQuotes-cons m m' c rest (lex_loop m' u rest) q (lex_loop-WordQuotes m' u rest))
]

head_blank_quoting :
    (c : ℕ) (rest : Bytes) {left : Bytes}
    → head c rest ≡ blank left
    → quoting outside (c ∷ rest) ≡ quoting outside left
unfolding head quoting
head_blank_quoting c rest h = ground arith

head_operator_quoting :
    (c : ℕ) (rest : Bytes) {op : TokenCategory} {left : Bytes}
    → head c rest ≡ operator op left
    → quoting outside (c ∷ rest) ≡ quoting outside left
unfolding head quoting
head_operator_quoting c rest h = ground arith

lex_word-WordQuotes : (bs : Bytes) → WordQuotes outside bs (lex_word bs)
unfolding lex_word
lex_word-WordQuotes bs = lex_loop-WordQuotes outside word_init bs

abbrev LineQuotes : Bytes → LineResult → Type 0
LineQuotes bs (tokens v) = quoting outside bs ≡ outside
LineQuotes bs _ = quoting outside bs ≢ outside

LineQuotes-move :
    (bs bs' : Bytes) (r : LineResult)
    → quoting outside bs ≡ quoting outside bs'
    → LineQuotes bs' r
    → LineQuotes bs r
LineQuotes-move bs bs' (tokens v) e h = e ∙ h
LineQuotes-move bs bs' lex_error e h = λ k. h (sym e ∙ k)
LineQuotes-move bs bs' out_of_fuel e h = λ k. h (sym e ∙ k)

Lexes-LineQuotes : {vec : TokenVec} {bs : Bytes} {r : LineResult} → Lexes vec bs r → LineQuotes bs r
unfolding quoting
Lexes-LineQuotes at_end = refl
Lexes-LineQuotes (skip {c} {rest} {left} {r} e l) =
    LineQuotes-move (c ∷ rest) left r (head_blank_quoting c rest e) (Lexes-LineQuotes l)
Lexes-LineQuotes (push_operator {c} {rest} {left} {r} e l) =
    LineQuotes-move (c ∷ rest) left r (head_operator_quoting c rest e) (Lexes-LineQuotes l)
Lexes-LineQuotes (fail_word {c} {rest} e d) = rw d at (lex_word-WordQuotes (c ∷ rest))
Lexes-LineQuotes (push_word {c} {rest} {left} {r} e d l) =
    LineQuotes-move (c ∷ rest) left r (rw d at (lex_word-WordQuotes (c ∷ rest)))
      (Lexes-LineQuotes l)

LineQuotes-iff :
    (bs : Bytes) (r : LineResult)
    → LineQuotes bs r
    → r ≢ out_of_fuel
    → (r ≡ lex_error) ↔ (quoting outside bs ≢ outside)
LineQuotes-iff bs (tokens v) h t = ((λ e. cc), (λ n. absurd (n h)))
LineQuotes-iff bs lex_error h t = ((λ _. h), (λ _. refl))
LineQuotes-iff bs out_of_fuel h t = absurd (t refl)

-- `lex_line` reports an error exactly when the line ends inside quotes or right behind a
-- backslash that protects a byte; it never returns without a verdict.
pub lex_line-eq-lex_error_iff :
    (line : Bytes) → (lex_line line ≡ lex_error) ↔ (quoting outside line ≢ outside)
lex_line-eq-lex_error_iff line =
    LineQuotes-iff line (lex_line line) (Lexes-LineQuotes (lex_line-Lexes line))
      (lex_line-ne-out_of_fuel line)
