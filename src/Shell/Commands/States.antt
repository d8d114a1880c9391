-- ===== src/Shell/Commands/States.antt =====
-- The parser of c-shell/src/parser.c as an automaton over the tokens: what is left to read is
-- accepted by the function that the state names.
use mathlib.Core.List.{append_assoc, append-nil}
use mini_project.Common.{
  Option-cases, Bool, true, false, Option, none, some, List, [], ◌∷◌, ◌++◌, ◌≡◌, ◌≢◌, refl, sym, ap,
  ◌∙◌, ◌⊎◌, inl, inr,
}
use mini_project.Shell.Token.{
  TokenCategory, op_pipe, op_amp, op_semi, op_lt, op_gt, op_gtgt, op_word, Token,
}
use mini_project.Shell.Parser.{cmd, tgt, bg, arg, line, categories}
use mini_project.Shell.Commands.{Separator, inside, semi, amp, separator}

-- `need` is `cmd` and `tgt`, `args` is `arg`, `free` is `line` and `bg`.
pub data ParserState : Type 0 where
  free need args : ParserState

abbrev pub next : ParserState → TokenCategory → Option ParserState
next args op_word = some args
next args op_amp = some free
next args _ = some need
next _ op_word = some args
next _ _ = none

unfoldable pub accepts : ParserState → List TokenCategory → Bool
unfolding line cmd arg
accepts free ts = line ts
accepts need ts = cmd ts
accepts args ts = arg ts

abbrev pub moves : Option ParserState → List TokenCategory → Bool
moves none ts = false
moves (some s) ts = accepts s ts

bg-line : (ts : List TokenCategory) → bg ts ≡ line ts
unfolding line bg
bg-line [] = refl
bg-line (op_word ∷ ts) = refl
bg-line (_ ∷ ts) = refl

tgt-cmd : (ts : List TokenCategory) → tgt ts ≡ cmd ts
unfolding cmd tgt
tgt-cmd [] = refl
tgt-cmd (op_word ∷ ts) = refl
tgt-cmd (_ ∷ ts) = refl

pub accepts_step :
    (s : ParserState) (c : TokenCategory) (ts : List TokenCategory)
    → accepts s (c ∷ ts) ≡ moves (next s c) ts
unfolding accepts line cmd tgt bg arg
accepts_step free op_word ts = refl
accepts_step free _ ts = refl
accepts_step need op_word ts = refl
accepts_step need _ ts = refl
accepts_step args op_word ts = refl
accepts_step args op_pipe ts = refl
accepts_step args op_semi ts = refl
accepts_step args op_amp ts = bg-line ts
accepts_step args op_lt ts = tgt-cmd ts
accepts_step args op_gt ts = tgt-cmd ts
accepts_step args op_gtgt ts = tgt-cmd ts

pub accepts_head :
    (s : ParserState) (t : Token) (ts : List Token)
    → accepts s (categories (t ∷ ts)) ≡ true
    → (s' : ParserState) × (next s t.type ≡ some s') × (accepts s' (categories ts) ≡ true)
accepts_head s t ts h =
    let step = sym (accepts_step s t.type (categories ts)) ∙ h in
    elim (Option-cases (next s t.type)) [
      | inl e ↦ absurd-moves e step
      | inr (s', e) ↦ (s', e, sym (ap (λ m. moves m (categories ts)) e) ∙ step)
    ]
  where
    absurd-moves :
        next s t.type ≡ none
        → moves (next s t.type) (categories ts) ≡ true
        → (s' : ParserState) × (next s t.type ≡ some s') × (accepts s' (categories ts) ≡ true)
    absurd-moves e step = cc

-- A list of tokens, read from `need`, leads to the state.
abbrev pub Leads : List Token → ParserState → Type 0
Leads start s =
    (rest : List Token) → accepts need (categories (start ++ rest)) ≡ accepts s (categories rest)

pub Leads-nil : Leads [] need
Leads-nil rest = refl

pub Leads-snoc :
    (start : List Token) (s : ParserState) (t : Token) (s' : ParserState)
    → Leads start s
    → next s t.type ≡ some s'
    → Leads (start ++ t ∷ []) s'
Leads-snoc start s t s' h e rest =
    ap (λ l. accepts need (categories l)) (append_assoc start (t ∷ []) rest)
    ∙ h (t ∷ rest)
    ∙ accepts_step s t.type (categories rest)
    ∙ ap (λ m. moves m (categories rest)) e

pub Leads-accepts :
    (start : List Token) (s : ParserState)
    → Leads start s
    → accepts s [] ≡ true
    → accepts need (categories start) ≡ true
Leads-accepts start s h k =
    ap (λ l. accepts need (categories l)) (sym (append-nil start)) ∙ h [] ∙ k

-- What stands before a separator or a pipe is accepted, and a command follows it.

pub separator-cases : (c : TokenCategory) → (separator c ≡ inside) ⊎ (c ≡ op_semi) ⊎ (c ≡ op_amp)
unfolding separator
separator-cases op_semi = inr (inl refl)
separator-cases op_amp = inr (inr refl)
separator-cases op_pipe = inl refl
separator-cases op_lt = inl refl
separator-cases op_gt = inl refl
separator-cases op_gtgt = inl refl
separator-cases op_word = inl refl

pub next-semi :
    (s s' : ParserState) → next s op_semi ≡ some s' → (accepts s [] ≡ true) × (s' ≡ need)
unfolding accepts arg
next-semi args need h = (refl, refl)
next-semi args free h = cc
next-semi args args h = cc
next-semi free s' h = cc
next-semi need s' h = cc

pub next-amp : (s s' : ParserState) → next s op_amp ≡ some s' → (accepts s [] ≡ true) × (s' ≡ free)
unfolding accepts arg
next-amp args free h = (refl, refl)
next-amp args need h = cc
next-amp args args h = cc
next-amp free s' h = cc
next-amp need s' h = cc

pub next-pipe :
    (s s' : ParserState) → next s op_pipe ≡ some s' → (accepts s [] ≡ true) × (s' ≡ need)
unfolding accepts arg
next-pipe args need h = (refl, refl)
next-pipe args free h = cc
next-pipe args args h = cc
next-pipe free s' h = cc
next-pipe need s' h = cc

-- A line that is not empty is read as a command.
pub free-need :
    (ts : List TokenCategory) → accepts free ts ≡ true → ts ≢ [] → accepts need ts ≡ true
unfolding accepts line cmd
free-need [] h k = elim (k refl) [ ]
free-need (c ∷ ts) h k = h

-- What holds on the branch that a separator takes holds of the choice.
module _ {ℓ κ} {A : Type ℓ} (P : A → Type κ) where
  pub inside_elim :
      (x : Separator) (a b c : A)
      → x ≡ inside
      → P a
      → P (elim x [ inside ↦ a | semi ↦ b | amp ↦ c ])
  inside_elim inside a b c e h = h
  inside_elim semi a b c e h = cc
  inside_elim amp a b c e h = cc

  pub semi_elim :
      (x : Separator) (a b c : A) → x ≡ semi → P b → P (elim x [ inside ↦ a | semi ↦ b | amp ↦ c ])
  semi_elim semi a b c e h = h
  semi_elim inside a b c e h = cc
  semi_elim amp a b c e h = cc

  pub amp_elim :
      (x : Separator) (a b c : A) → x ≡ amp → P c → P (elim x [ inside ↦ a | semi ↦ b | amp ↦ c ])
  amp_elim amp a b c e h = h
  amp_elim inside a b c e h = cc
  amp_elim semi a b c e h = cc
