-- ===== src/Shell/Peek/Backward.antt =====
-- The backward reader of c-shell/src/peek.c against the split of the bytes at newlines.
use mathlib.Core.List.{reverse, reverse-cons, append-nil}
use mini_project.Common.{
  ℕ, zero, suc, ◌+◌, ◌-◌, ◌≤◌, ◌<◌, Bool, true, Option, none, some, List, [], ◌∷◌, ◌++◌, ◌≡◌, refl,
  sym, ap, ◌≢◌, Bool-cases, inl, inr, ◌∙◌, ltb, if◌then◌else◌, length, take, drop, arith, subst,
}
use mini_project.Shell.Token.{Bytes}
use mini_project.Shell.Peek.{
  is_newline, Scan, leftover, scan_byte, scan_chunk, end_seg, end_chunk, read_chunks, push_leftover,
  scan_start, read_lines_backward, unended,
}

-- The parts between newlines: the first, and the others.
abbrev pub split : Bytes → Bytes × List Bytes
split [] = ([], [])
split (c ∷ s) =
    let (first, rest) = split s in if is_newline c then ([], first ∷ rest) else (c ∷ first, rest)

-- The lines in reverse, without an empty first one.
abbrev pub reversed : Bytes × List Bytes → List Bytes
reversed (first, rest) = reverse rest ++ unended first

-- A scan has read the bytes whose parts are given.
record Holds (s : Scan) (parts : Bytes × List Bytes) : Type 0 where
  first_part : s.seg ++ leftover s.lo ≡ parts.0
  other_parts : s.la ≡ reverse parts.1
  lo_used : s.lo ≢ some []

end_seg-leftover :
    (seg : Bytes) (lo : Option Bytes) → leftover (end_seg seg lo) ≡ seg ++ leftover lo
end_seg-leftover [] lo = refl
end_seg-leftover (c ∷ seg) lo = refl

end_seg-used : (seg : Bytes) (lo : Option Bytes) → lo ≢ some [] → end_seg seg lo ≢ some []
end_seg-used [] lo h e = h e
end_seg-used (c ∷ seg) lo h e = cc

end_chunk-Holds :
    (s : Scan) (parts : Bytes × List Bytes) → Holds s parts → Holds (end_chunk s) parts
unfolding end_chunk
end_chunk-Holds s parts h = record {
  first_part = end_seg-leftover s.seg s.lo ∙ h.first_part;
  other_parts = h.other_parts;
  lo_used = end_seg-used s.seg s.lo h.lo_used;
}

scan_byte-Holds :
    (c : ℕ) (s : Scan) (rest : Bytes)
    → Holds s (split rest)
    → Holds (scan_byte c s) (split (c ∷ rest))
unfolding scan_byte
scan_byte-Holds c s rest h = elim (Bool-cases (is_newline c)) [
  | inl e ↦
      rw (e, if◌then◌else◌)
        (record {
          first_part = refl;
          other_parts =
              rw (h.first_part, h.other_parts) (sym (reverse-cons (split rest).0 (split rest).1));
          lo_used = λ f. cc;
        })
  | inr e ↦
      rw (e, if◌then◌else◌)
        (record {
          first_part = ap (◌∷◌ c) h.first_part;
          other_parts = h.other_parts;
          lo_used = h.lo_used;
        })
]

scan_chunk-Holds :
    (word : Bytes) (s : Scan) (rest : Bytes)
    → Holds s (split rest)
    → Holds (scan_chunk word s) (split (word ++ rest))
unfolding scan_chunk
scan_chunk-Holds [] s rest h = h
scan_chunk-Holds (c ∷ word) s rest h =
    scan_byte-Holds c (scan_chunk word s) (word ++ rest) (scan_chunk-Holds word s rest h)

take-append-drop : (n : ℕ) (xs : Bytes) → take n xs ++ drop n xs ≡ xs
take-append-drop zero xs = refl
take-append-drop (suc n) [] = refl
take-append-drop (suc n) (x ∷ xs) = ap (◌∷◌ x) (take-append-drop n xs)

drop-nil : (n : ℕ) → drop {A = ℕ} n [] ≡ []
drop-nil zero = refl
drop-nil (suc n) = refl

drop-drop : (m n k : ℕ) (xs : Bytes) → m + n ≡ k → drop n (drop m xs) ≡ drop k xs
drop-drop zero n k xs e = ap (λ i. drop i xs) (omega (arith, e))
drop-drop (suc m) n zero xs e = let bad : ⊥ = omega (arith, e) in elim bad [ ]
drop-drop (suc m) n (suc k) [] e = drop-nil n
drop-drop (suc m) n (suc k) (x ∷ xs) e = drop-drop m n k xs (omega (arith, e))

drop-length : (xs : Bytes) → drop (length xs) xs ≡ []
drop-length [] = refl
drop-length (x ∷ xs) = drop-length xs

-- One round: the bytes of the chunk, and those read before.
chunk-split :
    (pos' toread pos : ℕ) (bytes : Bytes)
    → pos' + toread ≡ pos
    → take toread (drop pos' bytes) ++ drop pos bytes ≡ drop pos' bytes
chunk-split pos' toread pos bytes e =
    ap (λ rest. take toread (drop pos' bytes) ++ rest) (sym (drop-drop pos' toread pos bytes e))
    ∙ take-append-drop toread (drop pos' bytes)

-- What a scan holds at the end of a chunk.
record Done (s : Scan) (parts : Bytes × List Bytes) : Type 0 where
  holds : Holds s parts
  no_seg : s.seg ≡ []

module _ (size : ℕ) (can_read : ℕ → Bool) (bytes : Bytes) (positive : 0 < size)
    (reads : (pos : ℕ) → can_read pos ≡ true) where
  read_chunks-Done :
      (fuel pos : ℕ) (s : Scan)
      → pos ≤ fuel
      → Done s (split (drop pos bytes))
      → Done (read_chunks fuel size can_read bytes pos s) (split bytes)
  unfolding read_chunks
  read_chunks-Done zero zero s h d = d
  read_chunks-Done zero (suc pos) s h d = let bad : ⊥ = omega (arith, h) in elim bad [ ]
  read_chunks-Done (suc fuel) zero s h d = d
  read_chunks-Done (suc fuel) (suc pos) s h d =
      let toread = if ltb size (suc pos) then size else suc pos in
      let pos' = suc pos - toread in
      let word = take toread (drop pos' bytes) in
      let sum : pos' + toread ≡ suc pos = ground arith in
      let less : pos' ≤ fuel = ground arith in
      rw (reads pos', if◌then◌else◌)
        (read_chunks-Done fuel pos' (end_chunk (scan_chunk word s)) less (record {
          holds = end_chunk-Holds (scan_chunk word s) (split (drop pos' bytes)) (
              subst (λ b. Holds (scan_chunk word s) (split b))
                (chunk-split pos' toread (suc pos) bytes sum)
                (scan_chunk-Holds word s (drop (suc pos) bytes) d.holds));
          no_seg = unfold end_chunk in refl;
        }))

leftover-reversed :
    (lo : Option Bytes) (la : List Bytes) (first : Bytes) (rest : List Bytes)
    → leftover lo ≡ first
    → la ≡ reverse rest
    → lo ≢ some []
    → push_leftover (record { seg = []; lo = lo; la = la }) ≡ reversed (first, rest)
leftover-reversed none la first rest f l u = rw (sym f, l) (sym (append-nil (reverse rest)))
leftover-reversed (some []) la first rest f l u = elim (u refl) [ ]
leftover-reversed (some (c ∷ lo)) la first rest f l u = rw (sym f, l) refl

push_leftover-Done :
    (s : Scan) (parts : Bytes × List Bytes) → Done s parts → push_leftover s ≡ reversed parts
push_leftover-Done s parts d =
    leftover-reversed s.lo s.la parts.0 parts.1
      (subst (λ seg. seg ++ leftover s.lo ≡ parts.0) d.no_seg d.holds.first_part)
      d.holds.other_parts d.holds.lo_used

module _ (size : ℕ) (can_read : ℕ → Bool) (bytes : Bytes) where
  -- The backward reader terminates and gives, for every size of its chunks above 0, the parts
  -- between the newlines of the file from the last to the first, the first only if it is not empty,
  -- provided that no read fails.
  pub read_lines_backward-split :
      0 < size
      → ((pos : ℕ) → can_read pos ≡ true)
      → read_lines_backward size can_read bytes ≡ reversed (split bytes)
  unfolding read_lines_backward
  read_lines_backward-split positive reads = push_leftover-Done _ (split bytes) (
      read_chunks-Done size can_read bytes positive reads (length bytes) (length bytes) scan_start
        (omega arith)
        (rw (drop-length bytes) (record {
          holds = record { first_part = refl; other_parts = refl; lo_used = λ e. cc };
          no_seg = refl;
        })))
