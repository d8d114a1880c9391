-- ===== src/Shell/Execute/Copying/Written.antt =====
-- What the writer of c-shell/src/execute.c brings into the output files.
use mathlib.Core.List.{append_assoc, append-nil}
use mini_project.Common.{
  ℕ, zero, suc, ◌≤◌, false, List, [], ◌∷◌, ◌++◌, ◌≡◌, ◌≢◌, refl, sym, ap, ◌∙◌, arith, ◌==◌,
  if◌then◌else◌, length, take, drop, All, map,
}
use mini_project.Shell.Token.{Bytes}
use mini_project.Shell.Execute.Copying.{write_rest, write_chunk, Sink, write_sinks, write_outputs}
use mini_project.Shell.Execute.Copying.Poured.{joined, take-drop, length-drop}

-- `write` does not fail: it takes a byte at least when it is given one.
unfoldable Takes : (Bytes → Bytes → ℕ) → Type 0
Takes write = (out : Bytes) (c : ℕ) (s : Bytes) → write out (c ∷ s) ≢ 0

drop_shorter : (w c : ℕ) (s : Bytes) → w ≢ 0 → length (drop w (c ∷ s)) ≤ length s
drop_shorter zero c s h = let bad : ⊥ = h refl in elim bad [ ]
drop_shorter (suc w) c s h = length-drop w s

write_rest-append :
    (write : Bytes → Bytes → ℕ) (fuel : ℕ) (out rest : Bytes)
    → Takes write
    → length rest ≤ fuel
    → write_rest write fuel out rest ≡ out ++ rest
unfolding write_rest Takes
write_rest-append write zero out [] h fits = sym (append-nil out)
write_rest-append write (suc fuel) out [] h fits = sym (append-nil out)
write_rest-append write zero out (c ∷ s) h fits = let bad : ⊥ = omega (arith, fits) in elim bad [ ]
write_rest-append write (suc fuel) out (c ∷ s) h fits =
    let w = write out (c ∷ s) in
    let some_taken : w == 0 ≡ false = ground (arith, h out c s) in
    let shorter = drop_shorter w c s (h out c s) in
    rw (some_taken, if◌then◌else◌)
      (write_rest-append write fuel (out ++ take w (c ∷ s)) (drop w (c ∷ s)) h
          (omega (arith, fits, shorter))
        ∙ append_assoc out (take w (c ∷ s)) (drop w (c ∷ s))
        ∙ ap (λ t. out ++ t) (take-drop w (c ∷ s)))

abbrev with_bytes : Bytes → Sink → Sink
with_bytes s k = record k { content = k.content ++ s }

write_sinks-map :
    (c : Bytes) (ks : List Sink)
    → All (λ k. Takes k.write) ks
    → write_sinks c ks ≡ map (with_bytes c) ks
unfolding write_sinks write_chunk
write_sinks-map c [] h = refl
write_sinks-map c (k ∷ ks) h =
    ap (λ s. record k { content = s } ∷ write_sinks c ks)
      (write_rest-append k.write (length c) k.content c h.0 (omega arith))
    ∙ ap (λ l. with_bytes c k ∷ l) (write_sinks-map c ks h.1)

with_bytes-Takes :
    (c : Bytes) (ks : List Sink)
    → All (λ k. Takes k.write) ks
    → All (λ k. Takes k.write) (map (with_bytes c) ks)
with_bytes-Takes c [] h = tt
with_bytes-Takes c (k ∷ ks) h = (h.0, with_bytes-Takes c ks h.1)

with_bytes_append :
    (s t : Bytes) (ks : List Sink)
    → map (with_bytes t) (map (with_bytes s) ks) ≡ map (with_bytes (s ++ t)) ks
with_bytes_append s t [] = refl
with_bytes_append s t (k ∷ ks) =
    ap (λ u. record k { content = u } ∷ map (with_bytes t) (map (with_bytes s) ks))
      (append_assoc k.content s t)
    ∙ ap (λ l. with_bytes (s ++ t) k ∷ l) (with_bytes_append s t ks)

with_nothing : (ks : List Sink) → ks ≡ map (with_bytes []) ks
with_nothing [] = refl
with_nothing (k ∷ ks) =
    ap (λ u. record k { content = u } ∷ ks) (sym (append-nil k.content))
    ∙ ap (λ l. with_bytes [] k ∷ l) (with_nothing ks)

-- When no write fails, every output file gets all that the program has written behind what stood
-- in it, however many bytes each read gives and each write takes.
write_outputs-map :
    (cs : List Bytes) (ks : List Sink)
    → All (λ k. Takes k.write) ks
    → write_outputs cs ks ≡ map (with_bytes (joined cs)) ks
unfolding write_outputs joined
write_outputs-map [] ks h = with_nothing ks
write_outputs-map (c ∷ cs) ks h =
    ap (write_outputs cs) (write_sinks-map c ks h)
    ∙ write_outputs-map cs (map (with_bytes c) ks) (with_bytes-Takes c ks h)
    ∙ with_bytes_append c (joined cs) ks
