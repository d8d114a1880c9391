-- ===== src/Shell/Token.antt =====
-- The tokens of c-shell/include/lexer.h. A `char *` text is a list of byte values; the text of an
-- operator, a null pointer in the code, is the empty list, and no code reads it.
use mini_project.Common.{ℕ, List}

abbrev pub Bytes : Type 0
Bytes = List ℕ

pub data TokenCategory : Type 0 where
  op_pipe op_amp op_semi op_lt op_gt op_gtgt op_word : TokenCategory

pub record Token : Type 0 where
  pub type : TokenCategory
  pub text : Bytes
