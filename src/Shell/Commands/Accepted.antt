-- ===== src/Shell/Commands/Accepted.antt =====
-- The commands into which c-shell/src/jobs.c splits a line that the parser accepts.
use mini_project.Common.{
  Bool, true, false, List, [], ◌∷◌, ◌++◌, ◌≡◌, sym, ap, subst, ◌∙◌, inl, inr, All, All-append,
}
use mini_project.Shell.Token.{Token}
use mini_project.Shell.Parser.{categories, parse_tokens}
use mini_project.Shell.Commands.{Command, inside, separator, emit, commands_from, commands}
use mini_project.Shell.Commands.States.{
  ParserState, free, need, next, accepts, Leads, Leads-nil, Leads-snoc, Leads-accepts, accepts_head,
  separator-cases, next-semi, next-amp, free-need, inside_elim, semi_elim, amp_elim,
}

abbrev pub IsInside : Token → Type 0
IsInside t = separator t.type ≡ inside

-- The tokens of one command, as the grammar reads them: no `;` and no `&`.
pub record IsCommand (ts : List Token) : Type 0 where
  pub accepted : accepts need (categories ts) ≡ true
  pub inside : All IsInside ts

abbrev pub Splits : Command → Type 0
Splits c = IsCommand c.tokens

emit-Splits :
    (start : List Token) (is_bg : Bool) (rest : List Command)
    → IsCommand start
    → All Splits rest
    → All Splits (emit start is_bg rest)
unfolding emit
emit-Splits [] is_bg rest h k = k
emit-Splits (t ∷ ts) is_bg rest h k = (h, k)

after_amp :
    (ts : List Token)
    → accepts free (categories ts) ≡ true
    → (accepts need (categories ts) ≡ true → All Splits (commands_from [] ts))
    → All Splits (commands_from [] ts)
unfolding commands_from emit
after_amp [] h k = tt
after_amp (t ∷ ts) h k = k (free-need (categories (t ∷ ts)) h cc)

commands_from-Splits :
    (start ts : List Token) (s : ParserState)
    → Leads start s
    → All IsInside start
    → accepts s (categories ts) ≡ true
    → All Splits (commands_from start ts)
unfolding commands_from separator
commands_from-Splits start [] s leads ins h =
    emit-Splits start false [] (record { accepted = Leads-accepts start s leads h; inside = ins })
      tt
commands_from-Splits start (t ∷ ts) s leads ins h =
    let (s', e, k) = accepts_head s t ts h in
    let ended : accepts s [] ≡ true → IsCommand start =
      λ a. record { accepted = Leads-accepts start s leads a; inside = ins } in
    let fresh : accepts need (categories ts) ≡ true → All Splits (commands_from [] ts) =
      λ a. commands_from-Splits [] ts need Leads-nil tt a in
    elim (separator-cases t.type) [
      | inl i ↦ inside_elim (All Splits) (separator t.type) _ _ _ i (
          commands_from-Splits (start ++ t ∷ []) ts s' (Leads-snoc start s t s' leads e)
            (All-append IsInside start (t ∷ []) ins (i, tt)) k)
      | inr (inl i) ↦
          let (a, b) = next-semi s s' (ap (next s) (sym i) ∙ e) in
          semi_elim (All Splits) (separator t.type) _ _ _ (ap separator i) (
            emit-Splits start false (commands_from [] ts) (ended a)
              (fresh (subst (λ x. accepts x (categories ts) ≡ true) b k)))
      | inr (inr i) ↦
          let (a, b) = next-amp s s' (ap (next s) (sym i) ∙ e) in
          amp_elim (All Splits) (separator t.type) _ _ _ (ap separator i) (
            emit-Splits start true (commands_from [] ts) (ended a)
              (after_amp ts (subst (λ x. accepts x (categories ts) ≡ true) b k) fresh))
    ]

pub commands-IsCommand : (list : List Token) → parse_tokens list ≡ true → All Splits (commands list)
unfolding parse_tokens commands accepts
commands-IsCommand list h = after_amp list h (λ a. commands_from-Splits [] list need Leads-nil tt a)
