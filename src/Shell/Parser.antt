-- ===== src/Shell/Parser.antt =====
-- The recursive-descent parser, c-shell/src/parser.c. It reads only the categories of the tokens,
-- so a parser state is the list of categories from `pos` on, and `at_end` is the empty list.
-- `BG` calls `CMD` at the same position; here its clauses are those of `CMD` written out, since a
-- call must be on a shorter list.
pub mod Grammar
use mini_project.Common.{Bool, true, false, List, [], ◌∷◌, map}
use mini_project.Shell.Token.{
  TokenCategory, op_pipe, op_amp, op_semi, op_lt, op_gt, op_gtgt, op_word, Token,
}

-- Whether the next token is a word, and then what the rest of the parse says.
expect_word : TokenCategory → Bool → Bool
expect_word op_word rest = rest
expect_word _ rest = false

unfoldable mutual
  unfolding expect_word

  pub cmd : List TokenCategory → Bool
  cmd [] = false
  cmd (t ∷ ts) = expect_word t (arg ts)

  pub tgt : List TokenCategory → Bool
  tgt [] = false
  tgt (t ∷ ts) = expect_word t (arg ts)

  pub bg : List TokenCategory → Bool
  bg [] = true
  bg (t ∷ ts) = expect_word t (arg ts)

  pub arg : List TokenCategory → Bool
  arg [] = true
  arg (op_word ∷ ts) = arg ts
  arg (op_lt ∷ ts) = tgt ts
  arg (op_gt ∷ ts) = tgt ts
  arg (op_gtgt ∷ ts) = tgt ts
  arg (op_pipe ∷ ts) = cmd ts
  arg (op_semi ∷ ts) = cmd ts
  arg (op_amp ∷ ts) = bg ts

unfoldable pub line : List TokenCategory → Bool
unfolding expect_word
line [] = true
line (t ∷ ts) = expect_word t (arg ts)

abbrev pub categories : List Token → List TokenCategory
categories [] = []
categories (t ∷ ts) = t.type ∷ categories ts

unfoldable pub parse_tokens : List Token → Bool
unfolding line
parse_tokens list = line (categories list)
