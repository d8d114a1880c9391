-- ===== src/Shell/Peek/Forward.antt =====
-- The two readers of c-shell/src/peek.c against each other.
use mathlib.Core.List.{reverse, reverse-cons, append_assoc, append-nil}
use mini_project.Common.{
  ℕ, ◌<◌, Bool, true, List, [], ◌∷◌, ◌++◌, ◌≡◌, ◌≢◌, refl, sym, ap, ◌∙◌, if◌then◌else◌, decide,
}
use mini_project.Shell.Token.{Bytes}
use mini_project.Shell.Peek.{is_newline, unended, getlines, read_lines, read_lines_backward}
use mini_project.Shell.Peek.Backward.{split, read_lines_backward-split}

-- All parts but an empty last one.
abbrev pub without_empty_last : Bytes → List Bytes → List Bytes
without_empty_last part [] = unended part
without_empty_last part (next ∷ rest) = part ∷ without_empty_last next rest

getlines-split :
    (line bytes : Bytes)
    → getlines line bytes ≡ without_empty_last (line ++ (split bytes).0) (split bytes).1
unfolding getlines
getlines-split line [] = ap unended (sym (append-nil line))
getlines-split line (c ∷ s) =
    decide (λ ls. ls ≡ without_empty_last (line ++ (split (c ∷ s)).0) (split (c ∷ s)).1)
      (is_newline c) (line ∷ getlines [] s) (getlines (line ++ c ∷ []) s)
      (λ e. rw (e, if◌then◌else◌, append-nil line) (ap (◌∷◌ line) (getlines-split [] s)))
      (λ e.
        rw (e, if◌then◌else◌)
          (getlines-split (line ++ c ∷ []) s
            ∙ ap (λ part. without_empty_last part (split s).1)
                (append_assoc line (c ∷ []) (split s).0)))

-- The last part.
abbrev pub last_part : Bytes → List Bytes → Bytes
last_part part [] = part
last_part part (next ∷ rest) = last_part next rest

without_empty_last-all :
    (part : Bytes) (rest : List Bytes)
    → last_part part rest ≢ []
    → without_empty_last part rest ≡ part ∷ rest
without_empty_last-all [] [] h = elim (h refl) [ ]
without_empty_last-all (c ∷ part) [] h = refl
without_empty_last-all part (next ∷ rest) h = ap (◌∷◌ part) (without_empty_last-all next rest h)

unended-nonempty : (part : Bytes) → part ≢ [] → unended part ≡ part ∷ []
unended-nonempty [] h = elim (h refl) [ ]
unended-nonempty (c ∷ part) h = refl

-- When the first line of a file is not empty and the file does not end in a newline, the backward
-- reader gives the lines of the forward reader in reverse.
pub read_lines_backward-read_lines :
    (size : ℕ) (can_read : ℕ → Bool) (bytes : Bytes)
    → 0 < size
    → ((pos : ℕ) → can_read pos ≡ true)
    → (split bytes).0 ≢ []
    → last_part (split bytes).0 (split bytes).1 ≢ []
    → read_lines_backward size can_read bytes ≡ reverse (read_lines bytes)
unfolding read_lines
read_lines_backward-read_lines size can_read bytes positive reads first last =
    let (part, rest) = split bytes in
    read_lines_backward-split size can_read bytes positive reads
    ∙ ap (λ end. reverse rest ++ end) (unended-nonempty part first)
    ∙ sym (reverse-cons part rest)
    ∙ ap reverse (sym (getlines-split [] bytes ∙ without_empty_last-all part rest last))
