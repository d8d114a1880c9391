-- ===== src/Shell/Lexer/RoundTrip.antt =====
-- What c-shell/src/lexer.c reads back from a list of tokens written out with every word quoted.
use mathlib.Core.List.{append_assoc, append-nil}
use mini_project.Common.{
  ℕ, ◌||◌, List, [], ◌∷◌, ◌++◌, ◌≡◌, ◌⊎◌, refl, sym, ◌∙◌, inl, inr, arith, ◌==◌, if◌then◌else◌, All,
}
use mini_project.Shell.Token.{
  Bytes, TokenCategory, op_pipe, op_amp, op_semi, op_lt, op_gt, op_gtgt, op_word, Token,
}
use mini_project.Shell.Lexer.{
  outside, double_quoted, Word, word_init, word_push, lex_step, lexed, lex_loop, lex_word,
  LineResult, tokens, TokenVec, tv_init, tv_push, head, lex_line,
}
use mini_project.Shell.Lexer.Progress.{
  Lexes, at_end, skip, push_operator, push_word, lex_line-Lexes, Lexes-unique,
}

-- One byte of a word, as it is written between double quotes.
quote_byte : ℕ → Bytes
quote_byte c = if c == b'"' || c == b'\\' then b'\\' ∷ c ∷ [] else c ∷ []

-- The body of a quoted word and the closing quote, with what follows.
quote_rest : Bytes → Bytes → Bytes
quote_rest [] rest = b'"' ∷ rest
quote_rest (c ∷ text) rest = quote_byte c ++ quote_rest text rest

-- A token written out, a space behind it.
render_token : TokenCategory → Bytes → Bytes → Bytes
render_token op_pipe text rest = b'|' ∷ b' ' ∷ rest
render_token op_amp text rest = b'&' ∷ b' ' ∷ rest
render_token op_semi text rest = b';' ∷ b' ' ∷ rest
render_token op_lt text rest = b'<' ∷ b' ' ∷ rest
render_token op_gt text rest = b'>' ∷ b' ' ∷ rest
render_token op_gtgt text rest = b'>' ∷ b'>' ∷ b' ' ∷ rest
render_token op_word text rest = b'"' ∷ quote_rest text (b' ' ∷ rest)

unfoldable pub render : List Token → Bytes
unfolding render_token quote_rest quote_byte
render [] = []
render (t ∷ ts) = render_token t.type t.text (render ts)

-- An operator carries no text.
abbrev pub IsToken : Token → Type 0
IsToken t = (t.type ≡ op_word) ⊎ (t.text ≡ [])

-- `w` with a text pushed.
push_all : Word → Bytes → Word
push_all w [] = w
push_all w (c ∷ text) = push_all (word_push w c) text

push_all-text : (w : Word) (text : Bytes) → (push_all w text).text ≡ w.text ++ text
unfolding push_all word_push
push_all-text w [] = sym (append-nil w.text)
push_all-text w (c ∷ text) = push_all-text (word_push w c) text ∙ append_assoc w.text (c ∷ []) text

lex_loop-quote_byte :
    (w : Word) (c : ℕ) (rest : Bytes)
    → lex_loop double_quoted w (quote_byte c ++ rest) ≡ lex_loop double_quoted (word_push w c) rest
unfolding lex_loop lex_step quote_byte
lex_loop-quote_byte w c rest = ground arith

lex_loop-quote_rest :
    (w : Word) (text rest : Bytes)
    → lex_loop double_quoted w (quote_rest text rest) ≡ lex_loop outside (push_all w text) rest
unfolding quote_rest push_all
lex_loop-quote_rest w [] rest = unfold lex_loop lex_step in refl
lex_loop-quote_rest w (c ∷ text) rest =
    lex_loop-quote_byte w c (quote_rest text rest) ∙ lex_loop-quote_rest (word_push w c) text rest

lex_word-quoted :
    (text rest : Bytes)
    → lex_word (b'"' ∷ quote_rest text (b' ' ∷ rest))
      ≡ lexed (push_all word_init text) (b' ' ∷ rest)
unfolding lex_word lex_loop lex_step
lex_word-quoted text rest = lex_loop-quote_rest word_init text (b' ' ∷ rest)

word_init-push_all : (text : Bytes) → (push_all word_init text).text ≡ text
unfolding word_init
word_init-push_all text = push_all-text word_init text

skip_space :
    {vec : TokenVec} {rest : Bytes} {r : LineResult} → Lexes vec rest r → Lexes vec (b' ' ∷ rest) r
unfolding head
skip_space l = skip refl l

Lexes-token :
    (type : TokenCategory) (text rest : Bytes) (vec : TokenVec) (r : LineResult)
    → (type ≡ op_word) ⊎ (text ≡ [])
    → Lexes (tv_push vec type text) rest r
    → Lexes vec (render_token type text rest) r
unfolding render_token head
Lexes-token op_word text rest vec r h l =
    push_word refl (lex_word-quoted text rest) (rw word_init-push_all (skip_space l))
Lexes-token op_pipe text rest vec r (inl e) l = cc
Lexes-token op_pipe text rest vec r (inr e) l = push_operator refl (skip_space (rw e at l))
Lexes-token op_amp text rest vec r (inl e) l = cc
Lexes-token op_amp text rest vec r (inr e) l = push_operator refl (skip_space (rw e at l))
Lexes-token op_semi text rest vec r (inl e) l = cc
Lexes-token op_semi text rest vec r (inr e) l = push_operator refl (skip_space (rw e at l))
Lexes-token op_lt text rest vec r (inl e) l = cc
Lexes-token op_lt text rest vec r (inr e) l = push_operator refl (skip_space (rw e at l))
Lexes-token op_gt text rest vec r (inl e) l = cc
Lexes-token op_gt text rest vec r (inr e) l = push_operator refl (skip_space (rw e at l))
Lexes-token op_gtgt text rest vec r (inl e) l = cc
Lexes-token op_gtgt text rest vec r (inr e) l = push_operator refl (skip_space (rw e at l))

push_tokens : TokenVec → List Token → TokenVec
push_tokens vec [] = vec
push_tokens vec (t ∷ ts) = push_tokens (tv_push vec t.type t.text) ts

push_tokens-items :
    (vec : TokenVec) (ts : List Token) → (push_tokens vec ts).items ≡ vec.items ++ ts
unfolding push_tokens tv_push
push_tokens-items vec [] = sym (append-nil vec.items)
push_tokens-items vec (t ∷ ts) =
    push_tokens-items (tv_push vec t.type t.text) ts ∙ append_assoc vec.items (t ∷ []) ts

Lexes-render :
    (ts : List Token) (vec : TokenVec)
    → All IsToken ts
    → Lexes vec (render ts) (tokens (push_tokens vec ts))
unfolding render push_tokens
Lexes-render [] vec h = at_end
Lexes-render (t ∷ ts) vec h =
    Lexes-token t.type t.text (render ts) vec _ h.0
      (Lexes-render ts (tv_push vec t.type t.text) h.1)

-- Any list of tokens, words of any bytes and operators in any order, is read back unchanged from
-- the text that writes each word between double quotes, with `"` and the backslash escaped, and a
-- space behind each token.
pub lex_line-render :
    (ts : List Token)
    → All IsToken ts
    → (v : TokenVec) × (lex_line (render ts) ≡ tokens v) × (v.items ≡ ts)
lex_line-render ts h = (
  push_tokens tv_init ts,
  Lexes-unique (lex_line-Lexes (render ts)) (Lexes-render ts tv_init h),
  unfold tv_init in push_tokens-items tv_init ts,
)
