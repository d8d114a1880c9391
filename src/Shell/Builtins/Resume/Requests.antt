-- ===== src/Shell/Builtins/Resume/Requests.antt =====
-- The forms of the command `resume` that c-shell/src/resume.c reads.
use mini_project.Common.{
  ℕ, Bool, true, false, not, ◌||◌, Option, none, some, List, [], ◌∷◌, ◌≡◌, ◌≢◌, ◌↔◌, ◌⊎◌, inl, inr,
  refl, sym, ap, subst, ◌∙◌, ◌==◌, ==_iff, if◌then◌else◌, if_cases, if_elim, arith,
}
use mini_project.Shell.Token.{Bytes, Token}
use mini_project.Shell.Builtins.{text_of, is_all_digits, atoi, same, same-eq}
use mini_project.Shell.Builtins.Resume.{
  Request, invalid_syntax, null_read, in_bg, in_fg, bg_word, fg_word, timeout_word, timeout_value,
  timeout_digits, timeout_option, fg_options, bg_options, with_mode, with_target, resume_request,
}

abbrev Says : Token → Option Bytes → Type 0
Says t text = text_of t.type t.text ≡ text

-- What may stand behind `resume %<job_id> fg`, and what is then asked for.
pub data FgAsks (job_id : ℕ) : List Token → Request → Type 0 where
  plain : FgAsks job_id [] (in_fg job_id 0)
  timeout :
      (option value : Token) (s : Bytes)
      → Says option (some timeout_word)
      → Says value (some s)
      → is_all_digits (some s) ≡ true
      → (atoi s == 0) ≡ false
      → FgAsks job_id (option ∷ value ∷ []) (in_fg job_id (atoi s))
  null_option :
      (option value : Token) → Says option none → FgAsks job_id (option ∷ value ∷ []) null_read

-- The forms of the command.
pub data Asks : List Token → Request → Type 0 where
  bg :
      (name target mode : Token) (s : Bytes)
      → Says target (some (b'%' ∷ s))
      → is_all_digits (some s) ≡ true
      → Says mode (some bg_word)
      → Asks (name ∷ target ∷ mode ∷ []) (in_bg (atoi s))
  fg :
      (name target mode : Token) (s : Bytes) (more : List Token) (r : Request)
      → Says target (some (b'%' ∷ s))
      → is_all_digits (some s) ≡ true
      → Says mode (some fg_word)
      → FgAsks (atoi s) more r
      → Asks (name ∷ target ∷ mode ∷ more) r

-- A request is refused, or it has one of the forms.
abbrev Explained : (Request → Type 0) → Request → Type 0
Explained P r = (r ≡ invalid_syntax) ⊎ P r

timeout_option-Explained :
    (job_id : ℕ) (option value : Token) (o v : Option Bytes)
    → Says option o
    → Says value v
    → Explained (FgAsks job_id (option ∷ value ∷ [])) (timeout_option job_id o v)
unfolding timeout_option timeout_digits timeout_value
timeout_option-Explained job_id option value none v a b = inr (null_option option value a)
timeout_option-Explained job_id option value (some s) none a b =
    if_elim (Explained (FgAsks job_id (option ∷ value ∷ []))) (same s timeout_word) (inl refl)
      (inl refl)
timeout_option-Explained job_id option value (some s) (some v) a b =
    let P : Request → Type 0 = Explained (FgAsks job_id (option ∷ value ∷ [])) in
    if_cases P (same s timeout_word) (timeout_digits job_id (some v)) invalid_syntax
      (λ h.
        if_cases P (is_all_digits (some v)) (timeout_value job_id v) invalid_syntax
          (λ d.
            if_cases P (atoi v == 0) invalid_syntax (in_fg job_id (atoi v)) (λ z. inl refl)
              (λ z. inr (timeout option value v (a ∙ ap some (same-eq s timeout_word h)) b d z)))
          (λ d. inl refl))
      (λ h. inl refl)

fg_options-Explained :
    (job_id : ℕ) (more : List Token) → Explained (FgAsks job_id more) (fg_options job_id more)
unfolding fg_options
fg_options-Explained job_id [] = inr plain
fg_options-Explained job_id (option ∷ []) = inl refl
fg_options-Explained job_id (option ∷ value ∷ []) =
    timeout_option-Explained job_id option value (text_of option.type option.text)
      (text_of value.type value.text) refl refl
fg_options-Explained job_id (option ∷ value ∷ t ∷ ts) = inl refl

bg_options-Explained :
    (name target mode : Token) (s : Bytes) (more : List Token)
    → Says target (some (b'%' ∷ s))
    → is_all_digits (some s) ≡ true
    → Says mode (some bg_word)
    → Explained (Asks (name ∷ target ∷ mode ∷ more)) (bg_options (atoi s) more)
unfolding bg_options
bg_options-Explained name target mode s [] a d b = inr (bg name target mode s a d b)
bg_options-Explained name target mode s (t ∷ ts) a d b = inl refl

with_mode-Explained :
    (name target mode : Token) (s : Bytes) (m : Option Bytes) (more : List Token)
    → Says target (some (b'%' ∷ s))
    → is_all_digits (some s) ≡ true
    → Says mode m
    → Explained (Asks (name ∷ target ∷ mode ∷ more)) (with_mode (atoi s) m more)
unfolding with_mode
with_mode-Explained name target mode s none more a d b = inl refl
with_mode-Explained name target mode s (some m) more a d b =
    let P : Request → Type 0 = Explained (Asks (name ∷ target ∷ mode ∷ more)) in
    if_cases P (same m bg_word) (bg_options (atoi s) more)
      (if same m fg_word then fg_options (atoi s) more else invalid_syntax)
      (λ h. bg_options-Explained name target mode s more a d (b ∙ ap some (same-eq m bg_word h)))
      (λ h.
        if_cases P (same m fg_word) (fg_options (atoi s) more) invalid_syntax
          (λ g. in_fg_mode (b ∙ ap some (same-eq m fg_word g)) (fg_options-Explained (atoi s) more))
          (λ g. inl refl))
  where
    in_fg_mode :
        {r : Request}
        → Says mode (some fg_word)
        → Explained (FgAsks (atoi s) more) r
        → Explained (Asks (name ∷ target ∷ mode ∷ more)) r
    in_fg_mode e (inl h) = inl h
    in_fg_mode {r} e (inr h) = inr (fg name target mode s more r a d e h)

with_target-Explained :
    (name target mode : Token) (g : Option Bytes) (more : List Token)
    → Says target g
    → Explained
        (Asks (name ∷ target ∷ mode ∷ more))
        (with_target g (text_of mode.type mode.text) more)
unfolding with_target
with_target-Explained name target mode none more a = inl refl
with_target-Explained name target mode (some []) more a = inl refl
with_target-Explained name target mode (some (c ∷ s)) more a =
    let m = text_of mode.type mode.text in
    if_cases (Explained (Asks (name ∷ target ∷ mode ∷ more)))
      (not (c == b'%') || not (is_all_digits (some s))) invalid_syntax (with_mode (atoi s) m more)
      (λ h. inl refl)
      (λ h.
        let (p, d) = both (c == b'%') (is_all_digits (some s)) h in
        with_mode-Explained name target mode s m more
          (a ∙ ap (λ c. some (c ∷ s)) ((==_iff c b'%').0 p)) d refl)
  where
    both : (p d : Bool) → (not p || not d) ≡ false → (p ≡ true) × (d ≡ true)
    both p d h = ground arith

resume_request-Explained : (list : List Token) → Explained (Asks list) (resume_request list)
unfolding resume_request
resume_request-Explained [] = inl refl
resume_request-Explained (a ∷ []) = inl refl
resume_request-Explained (a ∷ b ∷ []) = inl refl
resume_request-Explained (name ∷ target ∷ mode ∷ more) =
    with_target-Explained name target mode (text_of target.type target.text) more refl

fg_options-FgAsks :
    (job_id : ℕ) (more : List Token) (r : Request)
    → FgAsks job_id more r
    → fg_options job_id more ≡ r
unfolding fg_options timeout_option timeout_digits timeout_value same
fg_options-FgAsks job_id more r plain = refl
fg_options-FgAsks job_id more r (timeout option value s a b d z) = rw (a, b, d, z) refl
fg_options-FgAsks job_id more r (null_option option value a) = rw a refl

resume_request-Asks : (list : List Token) (r : Request) → Asks list r → resume_request list ≡ r
unfolding resume_request with_target with_mode bg_options same
resume_request-Asks list r (bg name target mode s a d b) = rw (a, b, d) refl
resume_request-Asks list r (fg name target mode s more r' a d b h) =
    rw (a, b, d) (fg_options-FgAsks (atoi s) more r' h)

-- `resume` asks for something, be it a job in the background or in the foreground with or without
-- a timeout, or the read of a null pointer, exactly when its tokens have the form for it; all other
-- token lists are refused.
pub resume_request-Asks_iff :
    (list : List Token) (r : Request) → r ≢ invalid_syntax → (resume_request list ≡ r) ↔ Asks list r
resume_request-Asks_iff list r n =
    ((λ e. explained e (resume_request-Explained list)), (λ a. resume_request-Asks list r a))
  where
    explained : resume_request list ≡ r → Explained (Asks list) (resume_request list) → Asks list r
    explained e (inl h) = elim (n (sym e ∙ h)) [ ]
    explained e (inr h) = subst (Asks list) e h
