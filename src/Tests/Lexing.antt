-- ===== src/Tests/Lexing.antt =====
-- Runs of the lexer and the parser (c-shell/src/lexer.c, parser.c) on small command lines.
use Prim.Native.Char.{code}
use Prim.Native.String.{String}
use mini_project.Common.{◌≤◌, ◌+◌, true, List, [], ◌∷◌, ◌≡◌, ◌≢◌, ◌↔◌, refl, inl, inr, All}
use mini_project.Shell.Token.{Bytes, TokenCategory, op_pipe, op_amp, op_gt, op_gtgt, op_word, Token}
use mini_project.Shell.Lexer.{
  outside, Word, TokenVec, lexed, tokens, lex_error, lex_word, lex_line, word_init, word_push,
  tv_init, tv_push, lex_loop, lex_step, head,
}
use mini_project.Shell.Lexer.Buffers.{WordFits, lex_word-WordFits}
use mini_project.Shell.Lexer.Quoting.{quoting, lex_line-eq-lex_error_iff}
use mini_project.Shell.Lexer.RoundTrip.{IsToken, render, lex_line-render}
use mini_project.Shell.Parser.Grammar.{Line, parse_tokens-Line_iff}
use mini_project.Shell.Parser.{arg, parse_tokens, categories}

-- The code points of a text; every literal below is ASCII.
abbrev codes : String → Bytes
codes String.[] = []
codes (String.◌∷◌ c s) = code c ∷ codes s

abbrev word : String → Token
word s = record { type = op_word; text = codes s }

abbrev op : TokenCategory → Token
op t = record { type = t; text = [] }

abbrev listing : List Token
listing = word "ls" ∷ word "a \"b" ∷ op op_pipe ∷ word "wc" ∷ op op_gt ∷ op op_gtgt ∷ op op_amp ∷ []

lex_line-listing :
    lex_line (codes "ls 'a \"b'|wc > >>&") ≡ tokens (record { items = listing; count = 7; cap = 8 })
unfolding lex_line lex_word lex_loop lex_step head word_init word_push tv_init tv_push
lex_line-listing = refl

lex_line_open_quote : lex_line (codes "echo \"a") ≡ lex_error
unfolding lex_line lex_word lex_loop lex_step head word_init word_push tv_init tv_push
lex_line_open_quote = refl

listing-IsToken : All IsToken listing
listing-IsToken =
    (inl refl, (inl refl, (inr refl, (inl refl, (inr refl, (inr refl, (inr refl, tt)))))))

lex_line-render_example :
    (v : TokenVec) × (lex_line (render listing) ≡ tokens v) × (v.items ≡ listing)
lex_line-render_example = lex_line-render listing listing-IsToken

lex_line-eq-lex_error_iff_example :
    (lex_line (codes "a\\") ≡ lex_error) ↔ (quoting outside (codes "a\\") ≢ outside)
lex_line-eq-lex_error_iff_example = lex_line-eq-lex_error_iff (codes "a\\")

abbrev ab : Word
ab = record { text = codes "ab"; len = 2; cap = 32 }

lex_word-ab : lex_word (codes "a'b' c") ≡ lexed ab (codes " c")
unfolding lex_word lex_loop lex_step word_init word_push
lex_word-ab = refl

lex_word-WordFits_example : WordFits ab × (ab.len + 2 ≤ 6)
lex_word-WordFits_example = lex_word-WordFits (codes "a'b' c") lex_word-ab

abbrev listed : TokenVec
listed = record { items = listing; count = 7; cap = 8 }

parse_tokens_amp : parse_tokens (word "a" ∷ op op_amp ∷ word "b" ∷ op op_gt ∷ word "f" ∷ []) ≡ true
unfolding parse_tokens arg
parse_tokens_amp = refl

parse_tokens-Line_iff_example : (parse_tokens listing ≡ true) ↔ Line (categories listing)
parse_tokens-Line_iff_example = parse_tokens-Line_iff listing
