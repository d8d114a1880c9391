-- ===== src/Shell/Main/Prompt/Shown.antt =====
-- What the path in the prompt of c-shell/src/main.c says.
use mathlib.Core.List.{append-nil}
use mini_project.Common.{
  ◌≤◌, Option, none, some, [], ◌∷◌, ◌++◌, ◌≡◌, refl, ap, ◌∙◌, sym, ◌==◌, ==_iff, inl, inr, arith,
  if◌then◌else◌, subst, if_cases, Bool-cases, length, length-append, take, take_all,
}
use mini_project.Shell.Token.{Bytes}
use mini_project.Shell.Builtins.{same, same-eq}
use mini_project.Shell.Main.Prompt.{behind, with_tilde, get_display_path}

-- The path that is meant: a tilde at the head stands for the home directory.
unfoldable pub expand : Bytes → Bytes → Bytes
expand home_dir [] = []
expand home_dir (c ∷ s) = if c == b'~' then home_dir ++ s else c ∷ s

behind-append : (p s t : Bytes) → behind p s ≡ some t → s ≡ p ++ t
unfolding behind
behind-append [] s t h = ground arith
behind-append (c ∷ p) [] t h = cc
behind-append (c ∷ p) (d ∷ s) t h = elim (Bool-cases (c == d)) [
  | inl e ↦
      (let rest : s ≡ p ++ t =
          behind-append p s t (subst (λ b. (if b then behind p s else none) ≡ some t) e h) in
        ground (arith, rest))
  | inr e ↦
      (let bad : none ≡ some t = subst (λ b. (if b then behind p s else none) ≡ some t) e h in cc)
]

module _ (h s : Bytes) (fits : length (b'/' ∷ s) ≤ 4095) where
  abbrev home : Bytes
  home = b'/' ∷ h

  abbrev cwd : Bytes
  cwd = b'/' ∷ s

  abbrev Stands : Bytes → Type 0
  Stands out = expand home out ≡ cwd

  as_it_is : Stands (take 4095 cwd)
  unfolding expand
  as_it_is = rw (take_all 4095 cwd fits) refl

  below_home : (t : Bytes) → s ≡ h ++ (b'/' ∷ t) → Stands (take 4095 (b'~' ∷ b'/' ∷ t))
  unfolding expand
  below_home t e =
      let count = length-append h (b'/' ∷ t) in
      let short : length (b'~' ∷ b'/' ∷ t) ≤ 4095 = omega (arith, fits, count, ap length e) in
      ap (expand home) (take_all 4095 (b'~' ∷ b'/' ∷ t) short) ∙ ap (λ x. b'/' ∷ x) (sym e)

  tilde-Stands : (o : Option Bytes) → behind h s ≡ o → Stands (take 4095 (with_tilde cwd o))
  tilde-Stands none e = as_it_is
  tilde-Stands (some []) e = as_it_is
  tilde-Stands (some (c ∷ t)) e =
      if_cases (λ out. Stands (take 4095 out)) (c == b'/') (b'~' ∷ c ∷ t) cwd
        (λ slash.
          let is_slash : c ≡ b'/' = (==_iff c b'/').0 slash in
          subst (λ d. Stands (take 4095 (b'~' ∷ d ∷ t))) (sym is_slash)
            (below_home t (behind-append h s (c ∷ t) e ∙ ap (λ d. h ++ d ∷ t) is_slash)))
        (λ other. as_it_is)

  -- The path that is written stands for the directory, when the home directory and the directory
  -- are absolute and the directory has at most 4095 bytes.
  expand-get_display_path : expand home (get_display_path home (some cwd)) ≡ cwd
  unfolding get_display_path behind expand
  expand-get_display_path =
      if_cases Stands (same cwd home) (b'~' ∷ []) (take 4095 (with_tilde cwd (behind home cwd)))
        (λ at_home. append-nil home ∙ sym (same-eq cwd home at_home))
        (λ elsewhere. tilde-Stands (behind h s) refl)
