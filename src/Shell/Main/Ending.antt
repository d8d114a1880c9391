-- ===== src/Shell/Main/Ending.antt =====
-- How the loop in c-shell/src/main.c comes to an end, and a line with which it never does.
use mathlib.Core.Bool.{and-false}
use mini_project.Common.{
  subst, sym, if_elim, ℕ, suc, ◌+◌, Bool, true, false, not, ◌&&◌, ◌||◌, List, [], ◌∷◌, ◌++◌, ◌≡◌,
  refl, ap, ◌∙◌, ltb, if◌then◌else◌, if_cases, length, arith, All, ◌⊎◌, inl, inr,
}
use mini_project.Shell.Token.{Bytes}
use mini_project.Shell.Hop.{Dirs}
use mini_project.Shell.Jobs.Types.{Os}
use mini_project.Shell.Jobs.Table.{jobs_has_stopped}
use mini_project.Shell.Main.{
  max_input_len, Input, got_line, end_of_file, MainRound, MainState, Round, ends_in, append_line,
  empty, greet, take_line, leave, end_input, on_input, main_round, main_loop,
}

-- A line that fills the buffer and does not end.
pub record IsFull (accum : Bytes) : Type 0 where
  pub full : length accum ≡ max_input_len
  pub unended : ends_in b'\n' accum ≡ false

-- `fgets` gives at least one byte when it gives a line.
pub data IsLine : Input → Type 0 where
  line : (c : ℕ) (s : Bytes) → IsLine (got_line (c ∷ s))

append_line-full : (accum s : Bytes) (c : ℕ) → IsFull accum → append_line accum (c ∷ s) ≡ accum
unfolding append_line
append_line-full accum s c h =
    if_cases (λ a. a ≡ accum) (ltb (length accum + suc (length s)) (max_input_len + 1))
      (accum ++ c ∷ s) accum (λ e. let f = h.full in ground arith) (λ e. refl)

empty-full : (accum : Bytes) → IsFull accum → empty accum ≡ false
empty-full [] h = let bad : ⊥ = omega (arith, h.full) in elim bad [ ]
empty-full (c ∷ accum) h = refl

module _ {Place : Type 0} (dirs : Dirs Place) (shell_home : Bytes) where
  -- Nothing but the buffer of `fgets` and the note of a signal has changed, and nothing is printed.
  pub record IsStuck (s : MainState Place) (r : Round Place) : Type 0 where
    pub runs_on : r.0 ≡ true
    pub silent : r.1 ≡ []
    pub same_line : r.2.accum_line ≡ s.accum_line
    pub same_shell : r.2.shell ≡ s.shell

  on_input-IsStuck :
      (r : MainRound) (i : Input) (s : MainState Place)
      → IsLine i
      → IsFull s.accum_line
      → IsStuck s (on_input dirs shell_home true r i s)
  unfolding take_line
  on_input-IsStuck r _ s (line c t) h =
      rw
        (
          append_line-full s.accum_line t c h,
          empty-full s.accum_line h,
          h.unended,
          if◌then◌else◌,
          not,
          ◌&&◌,
          ◌||◌,
        )
        (record { runs_on = refl; silent = refl; same_line = refl; same_shell = refl })

  main_round-IsStuck :
      (r : MainRound) (s : MainState Place)
      → IsLine r.input
      → IsFull s.accum_line
      → IsStuck s (main_round dirs shell_home true r s)
  unfolding main_round greet
  main_round-IsStuck r s i h =
      rw (empty-full s.accum_line h, if◌then◌else◌)
        (let stuck =
            on_input-IsStuck r r.input
              (record s { prompt_interrupted = s.prompt_interrupted || r.signalled }) i h in
          record {
            runs_on = stuck.runs_on;
            silent = stuck.silent;
            same_line = stuck.same_line;
            same_shell = stuck.same_shell;
          })

  -- On a terminal, when the buffer is full and does not end in a newline, no number of further
  -- lines gets the shell to run or to print anything: it drops each of them.
  pub main_loop-IsStuck :
      (rs : List MainRound) (s : MainState Place)
      → All (λ r. IsLine r.input) rs
      → IsFull s.accum_line
      → IsStuck s (main_loop dirs shell_home true rs s)
  unfolding main_loop
  main_loop-IsStuck [] s hs h = record {
    runs_on = refl;
    silent = refl;
    same_line = refl;
    same_shell = refl;
  }
  main_loop-IsStuck (r ∷ rs) s hs h =
      let stuck = main_round-IsStuck r s hs.0 h in
      let s' = (main_round dirs shell_home true r s).2 in
      let later = main_loop-IsStuck rs s' hs.1 (subst IsFull (sym stuck.same_line) h) in
      rw (stuck.runs_on, if◌then◌else◌)
        (record {
          runs_on = later.runs_on;
          silent = rw (stuck.silent, later.silent) refl;
          same_line = later.same_line ∙ stuck.same_line;
          same_shell = later.same_shell ∙ stuck.same_shell;
        })

  module _ (tty : Bool) where
    -- The end of the input on an empty line ends the loop, or leaves a warning that was given.
    leave-ends :
        (os : Os) (s : MainState Place)
        → ((leave dirs shell_home tty os s).0 ≡ false)
          ⊎ (((leave dirs shell_home tty os s).2.eof_warned ≡ true)
              × ((leave dirs shell_home tty os s).2.accum_line ≡ s.accum_line))
    unfolding leave jobs_has_stopped
    leave-ends os s =
        if_elim
          (λ (r : Round Place).
            (r.0 ≡ false) ⊎ ((r.2.eof_warned ≡ true) × (r.2.accum_line ≡ s.accum_line)))
          ((jobs_has_stopped os s.shell.jobs).0 && not s.eof_warned) (inr (refl, refl)) (inl refl)

    leave-warned :
        (os : Os) (s : MainState Place)
        → s.eof_warned ≡ true
        → (leave dirs shell_home tty os s).0 ≡ false
    unfolding leave jobs_has_stopped
    leave-warned os s e =
        let none : ((jobs_has_stopped os s.shell.jobs).0 && not s.eof_warned) ≡ false =
          ap (λ b. (jobs_has_stopped os s.shell.jobs).0 && not b) e ∙ and-false _ in
        rw (none, if◌then◌else◌) refl

    main_round-ends :
        (r : MainRound) (s : MainState Place)
        → r.input ≡ end_of_file
        → s.accum_line ≡ []
        → ((main_round dirs shell_home tty r s).0 ≡ false)
          ⊎ (((main_round dirs shell_home tty r s).2.eof_warned ≡ true)
              × ((main_round dirs shell_home tty r s).2.accum_line ≡ []))
    unfolding main_round greet end_input
    main_round-ends r s i e = rw (i, e, if◌then◌else◌) (leave-ends r.at_end _)

    main_round-warned :
        (r : MainRound) (s : MainState Place)
        → r.input ≡ end_of_file
        → s.accum_line ≡ []
        → s.eof_warned ≡ true
        → (main_round dirs shell_home tty r s).0 ≡ false
    unfolding main_round greet end_input
    main_round-warned r s i e warned = rw (i, e, if◌then◌else◌) (leave-warned r.at_end _ warned)

    -- Two ends of the input in a row, with no line half typed, end the shell: stopped jobs and
    -- whatever else the operating system answers only put it off by one warning.
    pub main_loop-ends :
        (r₁ r₂ : MainRound) (rs : List MainRound) (s : MainState Place)
        → r₁.input ≡ end_of_file
        → r₂.input ≡ end_of_file
        → s.accum_line ≡ []
        → (main_loop dirs shell_home tty (r₁ ∷ r₂ ∷ rs) s).0 ≡ false
    unfolding main_loop
    main_loop-ends r₁ r₂ rs s i₁ i₂ e = elim (main_round-ends r₁ s i₁ e) [
      | inl over ↦ rw (over, if◌then◌else◌) refl
      | inr warned ↦
          if_elim (λ (r : Round Place). r.0 ≡ false) (main_round dirs shell_home tty r₁ s).0
            (rw
              (
                main_round-warned r₂ (main_round dirs shell_home tty r₁ s).2 i₂ warned.1 warned.0,
                if◌then◌else◌,
              )
              refl)
            refl
    ]
