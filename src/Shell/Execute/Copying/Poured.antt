-- ===== src/Shell/Execute/Copying/Poured.antt =====
-- What the feeder and the writer of c-shell/src/execute.c bring to their ends.
use mathlib.Core.List.{append_assoc, append-nil}
use mini_project.Common.{
  ℕ, zero, suc, ◌+◌, ◌≤◌, true, false, Option, none, some, List, [], ◌∷◌, ◌++◌, ◌≡◌, refl, sym, ap,
  ◌∙◌, arith, leb, Bool-cases, inl, inr, if◌then◌else◌, length, length-append, take, drop,
}
use mini_project.Shell.Token.{Bytes}
use mini_project.Shell.Execute.Copying.{
  buf_size, chunks_from, chunks_of, Fed, fed, stuck, feed_chunks, feed_file, feed_files,
  await_feeder, redirect_input,
}

-- Bytes one after the other.
unfoldable pub joined : List Bytes → Bytes
joined [] = []
joined (s ∷ ss) = s ++ joined ss

abbrev pub content_of : Option Bytes → Bytes
content_of none = []
content_of (some s) = s

-- What is in the files that can be read.
unfoldable pub contents : (Bytes → Option Bytes) → List Bytes → Bytes
contents read [] = []
contents read (f ∷ fs) = content_of (read f) ++ contents read fs

pub take-drop : (n : ℕ) (s : Bytes) → take n s ++ drop n s ≡ s
take-drop zero s = refl
take-drop (suc n) [] = refl
take-drop (suc n) (c ∷ s) = ap (λ t. c ∷ t) (take-drop n s)

pub length-drop : (n : ℕ) (s : Bytes) → length (drop n s) ≤ length s
length-drop zero s = omega arith
length-drop (suc n) [] = omega arith
length-drop (suc n) (c ∷ s) = omega (arith, length-drop n s)

take-append : (n : ℕ) (s t : Bytes) → n ≤ length s → take n (s ++ t) ≡ take n s
take-append zero s t h = refl
take-append (suc n) [] t h = let bad : ⊥ = omega (arith, h) in elim bad [ ]
take-append (suc n) (c ∷ s) t h = ap (λ r. c ∷ r) (take-append n s t (omega (arith, h)))

joined-chunks_from : (fuel : ℕ) (s : Bytes) → length s ≤ fuel → joined (chunks_from fuel s) ≡ s
unfolding chunks_from joined
joined-chunks_from zero [] h = refl
joined-chunks_from zero (c ∷ s) h = let bad : ⊥ = omega (arith, h) in elim bad [ ]
joined-chunks_from (suc fuel) [] h = refl
joined-chunks_from (suc fuel) (c ∷ s) h =
    let less = length-drop 4095 s in
    ap (λ t. take buf_size (c ∷ s) ++ t)
      (joined-chunks_from fuel (drop buf_size (c ∷ s)) (omega (arith, h, less)))
    ∙ take-drop buf_size (c ∷ s)

-- Bytes in a pipe: all of them, or as many as it has room for.
abbrev pub poured : ℕ → Bytes → Fed
poured capacity s = if leb (length s) capacity then fed s else stuck (take capacity s)

module _ (capacity : ℕ) where
  poured_full :
      (s t : Bytes)
      → leb (length s) capacity ≡ false
      → poured capacity (s ++ t) ≡ stuck (take capacity s)
  poured_full s t full =
      let count = length-append s t in
      let long : leb (length (s ++ t)) capacity ≡ false = ground arith in
      rw (long, if◌then◌else◌) (ap stuck (take-append capacity s t (ground arith)))

  feed_chunks-poured :
      (cs : List Bytes) (sent : Bytes)
      → length sent ≤ capacity
      → feed_chunks capacity cs sent ≡ poured capacity (sent ++ joined cs)
  unfolding feed_chunks joined
  feed_chunks-poured [] sent h =
      let fits : leb (length sent) capacity ≡ true = ground arith in
      rw (append-nil sent, fits, if◌then◌else◌) refl
  feed_chunks-poured (c ∷ cs) sent h =
      let count = length-append sent c in
      elim (Bool-cases (leb (length sent + length c) capacity))
        as (λ x. feed_chunks capacity (c ∷ cs) sent ≡ poured capacity (sent ++ (c ++ joined cs))) [
          | inl e ↦
              rw (feed_chunks, e)
                (feed_chunks-poured cs (sent ++ c) (ground arith)
                  ∙ ap (poured capacity) (append_assoc sent c (joined cs)))
          | inr e ↦
              let full : leb (length (sent ++ c)) capacity ≡ false = ground arith in
              rw (feed_chunks, e)
                (sym (poured_full (sent ++ c) (joined cs) full)
                  ∙ ap (poured capacity) (append_assoc sent c (joined cs)))
        ]

  feed_file-poured :
      (o : Option Bytes) (sent : Bytes)
      → length sent ≤ capacity
      → feed_file capacity o sent ≡ poured capacity (sent ++ content_of o)
  unfolding feed_file chunks_of
  feed_file-poured none sent h =
      let fits : leb (length sent) capacity ≡ true = ground arith in
      rw (append-nil sent, fits, if◌then◌else◌) refl
  feed_file-poured (some s) sent h =
      feed_chunks-poured (chunks_from (length s) s) sent h
      ∙ ap (λ t. poured capacity (sent ++ t)) (joined-chunks_from (length s) s (omega arith))

  feed_files-poured :
      (read : Bytes → Option Bytes) (fs : List Bytes) (sent : Bytes)
      → length sent ≤ capacity
      → feed_files read capacity fs sent ≡ poured capacity (sent ++ contents read fs)
  unfolding feed_files contents
  feed_files-poured read [] sent h =
      let fits : leb (length sent) capacity ≡ true = ground arith in
      rw (append-nil sent, fits, if◌then◌else◌) refl
  feed_files-poured read (f ∷ fs) sent h =
      let here = sent ++ content_of (read f) in
      let first = feed_file-poured (read f) sent h in
      elim (Bool-cases (leb (length here) capacity))
        as (λ x.
          feed_files read capacity (f ∷ fs) sent
          ≡ poured capacity (sent ++ (content_of (read f) ++ contents read fs))) [
            | inl e ↦
                let whole : poured capacity here ≡ fed here = rw (e, if◌then◌else◌) refl in
                rw (feed_files, first ∙ whole)
                  (feed_files-poured read fs here (ground arith)
                    ∙ ap (poured capacity)
                        (append_assoc sent (content_of (read f)) (contents read fs)))
            | inr e ↦
                let part : poured capacity here ≡ stuck (take capacity here) =
                  rw (e, if◌then◌else◌) refl in
                rw (feed_files, first ∙ part)
                  (sym (poured_full here (contents read fs) e)
                    ∙ ap (poured capacity)
                        (append_assoc sent (content_of (read f)) (contents read fs)))
          ]

  -- With two or more input files, a pipe and a feeder, the program is started with what is in the
  -- files that can be read, one after the other, exactly if the pipe has room for all of it; else
  -- it is never started, and the pipe is full.
  pub redirect_input-poured :
      (read : Bytes → Option Bytes) (f g : Bytes) (fs : List Bytes)
      → redirect_input true true read capacity (f ∷ g ∷ fs)
        ≡ await_feeder (poured capacity (contents read (f ∷ g ∷ fs)))
  unfolding redirect_input
  redirect_input-poured read f g fs =
      ap await_feeder (feed_files-poured read (f ∷ g ∷ fs) [] (omega arith))
