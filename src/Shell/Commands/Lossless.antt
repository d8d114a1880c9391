-- ===== src/Shell/Commands/Lossless.antt =====
-- What `execute_command_line` of c-shell/src/jobs.c leaves out of a line.
use mathlib.Core.List.{append_assoc}
use mini_project.Common.{
  Bool, true, false, List, [], ◌∷◌, ◌++◌, ◌≡◌, refl, sym, ap, ◌∙◌, ◌⊎◌, inl, inr,
}
use mini_project.Shell.Token.{op_semi, op_amp, Token}
use mini_project.Shell.Commands.{inside, separator, Command, emit, commands_from, commands}
use mini_project.Shell.Commands.States.{separator-cases, inside_elim, semi_elim, amp_elim}

-- The tokens of the commands, one after the other.
unfoldable pub all_tokens : List Command → List Token
all_tokens [] = []
all_tokens (c ∷ cs) = c.tokens ++ all_tokens cs

-- A line without its `;` and `&`.
unfoldable pub without_separators : List Token → List Token
unfolding separator
without_separators [] = []
without_separators (t ∷ ts) =
    let rest = without_separators ts in elim (separator t.type) [ inside ↦ t ∷ rest | _ ↦ rest ]

all_tokens-emit :
    (start : List Token) (is_bg : Bool) (rest : List Command)
    → all_tokens (emit start is_bg rest) ≡ start ++ all_tokens rest
unfolding all_tokens emit
all_tokens-emit [] is_bg rest = refl
all_tokens-emit (t ∷ ts) is_bg rest = refl

without_separators-skip :
    (t : Token) (ts : List Token)
    → (t.type ≡ op_semi) ⊎ (t.type ≡ op_amp)
    → without_separators (t ∷ ts) ≡ without_separators ts
unfolding without_separators separator
without_separators-skip t ts (inl e) =
    semi_elim (λ l. l ≡ without_separators ts) (separator t.type) _ _ _ (ap separator e) refl
without_separators-skip t ts (inr e) =
    amp_elim (λ l. l ≡ without_separators ts) (separator t.type) _ _ _ (ap separator e) refl

without_separators-keep :
    (t : Token) (ts : List Token)
    → separator t.type ≡ inside
    → without_separators (t ∷ ts) ≡ t ∷ without_separators ts
unfolding without_separators
without_separators-keep t ts e =
    inside_elim (λ l. l ≡ t ∷ without_separators ts) (separator t.type) _ _ _ e refl

ended :
    (start : List Token) (is_bg : Bool) (t : Token) (ts : List Token)
    → (t.type ≡ op_semi) ⊎ (t.type ≡ op_amp)
    → all_tokens (commands_from [] ts) ≡ without_separators ts
    → all_tokens (emit start is_bg (commands_from [] ts)) ≡ start ++ without_separators (t ∷ ts)
ended start is_bg t ts e h =
    all_tokens-emit start is_bg (commands_from [] ts)
    ∙ ap (λ l. start ++ l) (h ∙ sym (without_separators-skip t ts e))

all_tokens-commands_from :
    (start ts : List Token) → all_tokens (commands_from start ts) ≡ start ++ without_separators ts
unfolding commands_from separator all_tokens without_separators
all_tokens-commands_from start [] = all_tokens-emit start false []
all_tokens-commands_from start (t ∷ ts) =
    let fresh = all_tokens-commands_from [] ts in
    let P : List Command → Type 0 = λ cs. all_tokens cs ≡ start ++ without_separators (t ∷ ts) in
    elim (separator-cases t.type) [
      | inl i ↦ inside_elim P (separator t.type) _ _ _ i (
          all_tokens-commands_from (start ++ t ∷ []) ts
          ∙ append_assoc start (t ∷ []) (without_separators ts)
          ∙ ap (λ l. start ++ l) (sym (without_separators-keep t ts i)))
      | inr (inl i) ↦
          semi_elim P (separator t.type) _ _ _ (ap separator i)
            (ended start false t ts (inl i) fresh)
      | inr (inr i) ↦
          amp_elim P (separator t.type) _ _ _ (ap separator i) (ended start true t ts (inr i) fresh)
    ]

-- The commands of any line, one after the other, are the line without its `;` and `&`: no token is
-- lost, doubled or moved.
pub all_tokens-commands : (list : List Token) → all_tokens (commands list) ≡ without_separators list
unfolding commands
all_tokens-commands list = all_tokens-commands_from [] list
