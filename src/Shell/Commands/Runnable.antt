-- ===== src/Shell/Commands/Runnable.antt =====
-- The loop over the tokens of a command, c-shell/src/execute.c, on the commands of an accepted
-- line.
use mini_project.Common.{
  ◌≤◌, true, Option, none, some, List, [], ◌∷◌, ◌≡◌, refl, sym, ap, subst, ◌∙◌, arith, ltb, if_elim,
  length, length-append, All,
}
use mini_project.Shell.Token.{Bytes, TokenCategory, op_pipe, op_lt, op_gt, op_gtgt, op_word, Token}
use mini_project.Shell.Parser.{categories, cmd}
use mini_project.Shell.Commands.{
  inside, separator, Redirection, input, truncate, append, Invocation, empty_invocation, add_file,
  add_arg, scan_token, scan_end, scan, group, read_invocation,
}
use mini_project.Shell.Commands.States.{
  ParserState, need, args, next, accepts, accepts_head, inside_elim,
}
use mini_project.Shell.Commands.Accepted.{IsInside, IsCommand}

-- A file name is due only where the grammar needs a word.
pub data Agrees : ParserState → Option Redirection → Type 0 where
  due : (r : Redirection) → Agrees need (some r)
  clear : (s : ParserState) → Agrees s none

add_file-argv :
    (r : Redirection) (path : Bytes) (v : Invocation) → (add_file r path v).argv ≡ v.argv
unfolding add_file
add_file-argv input path v = refl
add_file-argv truncate path v = refl
add_file-argv append path v = refl

add_arg-argv_mono : (text : Bytes) (v : Invocation) → length v.argv ≤ length (add_arg text v).argv
unfolding add_arg
add_arg-argv_mono text v =
    if_elim (λ (w : Invocation). length v.argv ≤ length w.argv) (ltb (length v.argv) 255)
      (omega (arith, length-append v.argv (text ∷ []))) (omega arith)

scan_token-some :
    (s s' : ParserState) (pending : Option Redirection) (c : TokenCategory) (text : Bytes)
    (v : Invocation)
    → Agrees s pending
    → separator c ≡ inside
    → next s c ≡ some s'
    → (pending' : Option Redirection) × (v' : Invocation) × (scan_token pending c text v
        ≡ some (pending', v'))
      × Agrees s' pending'
      × (length v.argv ≤ length v'.argv)
unfolding scan_token separator
scan_token-some _ s' _ op_word text v (due r) i h =
    (none, add_file r text v, refl, clear s', omega (arith, ap length (add_file-argv r text v)))
scan_token-some _ s' _ c text v (due r) i h = cc
scan_token-some _ s' _ op_word text v (clear s) i h =
    (none, add_arg text v, refl, clear s', add_arg-argv_mono text v)
scan_token-some _ s' _ op_pipe text v (clear s) i h = (none, v, refl, clear s', omega arith)
scan_token-some _ need _ op_lt text v (clear args) i h =
    (some input, v, refl, due input, omega arith)
scan_token-some _ need _ op_gt text v (clear args) i h =
    (some truncate, v, refl, due truncate, omega arith)
scan_token-some _ need _ op_gtgt text v (clear args) i h =
    (some append, v, refl, due append, omega arith)
scan_token-some _ s' _ c text v (clear s) i h = cc

scan-some :
    (s : ParserState) (pending : Option Redirection) (v : Invocation) (ts : List Token)
    → Agrees s pending
    → All IsInside ts
    → accepts s (categories ts) ≡ true
    → (v' : Invocation) × (scan pending v ts ≡ some v') × (length v.argv ≤ length v'.argv)
unfolding scan scan_end accepts cmd
scan-some _ _ v [] (due r) i h = cc
scan-some _ _ v [] (clear s) i h = (v, refl, omega arith)
scan-some s pending v (t ∷ ts) a i h =
    let (s', e, k) = accepts_head s t ts h in
    let (pending', w, f, a', l) = scan_token-some s s' pending t.type t.text v a i.0 e in
    let (v', g, m) = scan-some s' pending' w ts a' i.1 k in
    (v', rw (scan, f) g, omega (arith, l, m))

group-inside : (ts : List Token) → All IsInside ts → group ts ≡ ts
unfolding group
group-inside [] i = refl
group-inside (t ∷ ts) i =
    inside_elim (λ l. l ≡ t ∷ ts) (separator t.type) _ _ _ i.0
      (ap (λ l. t ∷ l) (group-inside ts i.1))

-- The command starts with a word, and has arguments to run.
pub data Runs : List Token → Type 0 where
  runs :
      (t : Token) (ts : List Token) (v : Invocation)
      → t.type ≡ op_word
      → read_invocation (t ∷ ts) ≡ some v
      → 1 ≤ length v.argv
      → Runs (t ∷ ts)

first_word :
    (c : TokenCategory) (ts : List TokenCategory)
    → accepts need (c ∷ ts) ≡ true
    → (c ≡ op_word) × (accepts args ts ≡ true)
unfolding accepts cmd
first_word op_word ts h = (refl, h)
first_word _ ts h = cc

word_argument :
    (t : Token) (ts : List Token)
    → t.type ≡ op_word
    → scan none empty_invocation (t ∷ ts) ≡ scan none (add_arg t.text empty_invocation) ts
unfolding scan scan_token
word_argument t ts e =
    subst
      (λ c.
        elim (scan_token none c t.text empty_invocation) [
          | none ↦ none
          | some (pending', v') ↦ scan pending' v' ts
        ]
        ≡ scan none (add_arg t.text empty_invocation) ts)
      (sym e) refl

pub IsCommand-Runs : (ts : List Token) → IsCommand ts → Runs ts
unfolding read_invocation accepts cmd add_arg
IsCommand-Runs [] h = cc
IsCommand-Runs (t ∷ ts) h =
    let (e, k) = first_word t.type (categories ts) h.accepted in
    let (v, f, l) =
      scan-some args none (add_arg t.text empty_invocation) ts (clear args) h.inside.1 k in
    runs t ts v e
      (ap (scan none empty_invocation) (group-inside (t ∷ ts) h.inside) ∙ word_argument t ts e ∙ f)
      (omega (arith, l))
