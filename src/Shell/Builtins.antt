-- ===== src/Shell/Builtins.antt =====
-- The builtins that act on jobs, c-shell/src/resume.c and c-shell/src/ping.c, and what they share.
-- The text of an operator token is a null pointer: `text_of` is `none` then. `atoi` is called on
-- digits only; a value above INT_MAX, for which it is undefined, is kept as it is.
pub mod Resume
pub mod Ping
use mini_project.Common.{
  ℕ, ◌+◌, ◌-◌, ◌*◌, Bool, true, false, ◌&&◌, Option, none, some, List, [], ◌∷◌, ◌≡◌, refl, arith,
  ◌==◌, leb, if◌then◌else◌,
}
use mini_project.Shell.Token.{Bytes, TokenCategory, op_word}

abbrev pub text_of : TokenCategory → Bytes → Option Bytes
text_of op_word text = some text
text_of _ text = none

abbrev pub isdigit : ℕ → Bool
isdigit c = leb b'0' c && leb c b'9'

unfoldable pub only_digits : Bytes → Bool
only_digits [] = true
only_digits (c ∷ s) = isdigit c && only_digits s

-- `is_all_digits` of resume.c and `is_non_negative_integer` of ping.c have the same body.
unfoldable pub is_all_digits : Option Bytes → Bool
unfolding only_digits
is_all_digits none = false
is_all_digits (some []) = false
is_all_digits (some (c ∷ s)) = only_digits (c ∷ s)

unfoldable pub atoi_from : ℕ → Bytes → ℕ
atoi_from n [] = n
atoi_from n (c ∷ s) = let more = atoi_from (n * 10 + (c - b'0')) s in if isdigit c then more else n

unfoldable pub atoi : Bytes → ℕ
unfolding atoi_from
atoi s = atoi_from 0 s

-- Whether `strcmp` gives 0.
unfoldable pub same : Bytes → Bytes → Bool
same [] [] = true
same (c ∷ s) (d ∷ t) = c == d && same s t
same _ _ = false

pub same-eq : (s t : Bytes) → same s t ≡ true → s ≡ t
unfolding same
same-eq [] [] h = refl
same-eq (c ∷ s) (d ∷ t) h = ground (arith, same-eq s t)
same-eq [] (d ∷ t) h = cc
same-eq (c ∷ s) [] h = cc
