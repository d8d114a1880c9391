-- ===== src/Shell/Hop/Recorded.antt =====
-- What a visit leaves in the database of c-shell/src/hop.c.
use mini_project.Common.{
  ℕ, zero, suc, ◌+◌, ◌≤◌, ◌<◌, Bool, true, false, ◌&&◌, List, [], ◌∷◌, ◌++◌, ◌≡◌, refl, ap, ◌∙◌,
  inl, inr, arith, ltb, ◌==◌, if◌then◌else◌, if_cases, decide, Bool-cases, length, any,
  update_first, take,
}
use mini_project.Shell.Token.{Bytes}
use mini_project.Shell.Builtins.{same}
use mini_project.Shell.Hop.{
  Entry, score, has_path, new_entry, visit_again, find_lowest, replace, evict, update_frecency,
}

-- An entry for the path that was visited at this time.
abbrev pub is_visit : ℕ → Bytes → Entry → Bool
is_visit now abs_path e = has_path abs_path e && e.last_access == now

same_refl : (s : Bytes) → same s s ≡ true
unfolding same
same_refl [] = refl
same_refl (c ∷ s) = ground (arith, same_refl s)

take-short : (n : ℕ) (s : Bytes) → length s ≤ n → take n s ≡ s
take-short zero [] h = refl
take-short (suc n) [] h = refl
take-short zero (c ∷ s) h = elim (too_long (length s) h) [ ]
  where
    too_long : (n : ℕ) → ¬ (suc n ≤ 0)
    too_long n = omega arith
take-short (suc n) (c ∷ s) h = ap (λ t. c ∷ t) (take-short n s (omega (arith, h)))

new_entry-visit :
    (now : ℕ) (abs_path : Bytes)
    → length abs_path ≤ 4095
    → is_visit now abs_path (new_entry now abs_path) ≡ true
new_entry-visit now abs_path h =
    ap (λ p. same p abs_path && now == now) (take-short 4095 abs_path h) ∙ itself
  where
    itself : (same abs_path abs_path && now == now) ≡ true
    itself = ap (λ b. b && now == now) (same_refl abs_path) ∙ ground arith

any-update_first :
    (now : ℕ) (abs_path : Bytes) (es : List Entry)
    → any (has_path abs_path) es ≡ true
    → any (is_visit now abs_path) (update_first (has_path abs_path) (visit_again now) es) ≡ true
unfolding any update_first
any-update_first now abs_path [] h = h
any-update_first now abs_path (e ∷ es) h = elim (Bool-cases (has_path abs_path e)) [
  | inl t ↦ ground arith
  | inr f ↦ let ih = any-update_first now abs_path es (ground arith) in ground arith
]

any-append :
    (test : Entry → Bool) (es : List Entry) (new : Entry)
    → test new ≡ true
    → any test (es ++ new ∷ []) ≡ true
unfolding any
any-append test [] new h = ground arith
any-append test (e ∷ es) new h = let ih = any-append test es new h in ground arith

any-replace :
    (test : Entry → Bool) (i : ℕ) (es : List Entry) (new : Entry)
    → test new ≡ true
    → i < length es
    → any test (replace i new es) ≡ true
unfolding any replace
any-replace test i [] new h b = elim (nothing_below i b) [ ]
  where
    nothing_below : (i : ℕ) → ¬ (i < 0)
    nothing_below i = omega arith
any-replace test zero (e ∷ es) new h b = ground arith
any-replace test (suc i) (e ∷ es) new h b =
    let ih = any-replace test i es new h (omega (arith, b)) in ground arith

find_lowest_lt :
    (now i min_idx min_sc : ℕ) (es : List Entry)
    → min_idx < i
    → find_lowest now i min_idx min_sc es < i + length es
unfolding find_lowest
find_lowest_lt now i min_idx min_sc [] h = omega (arith, h)
find_lowest_lt now i min_idx min_sc (e ∷ es) h =
    decide (λ (r : ℕ). r < i + suc (length es)) (ltb (score now e) min_sc) _ _
      (λ t. omega (arith, find_lowest_lt now (i + 1) i (score now e) es (omega arith)))
      (λ f. omega (arith, find_lowest_lt now (i + 1) min_idx min_sc es (omega (arith, h))))

any-evict :
    (test : Entry → Bool) (now : ℕ) (new : Entry) (es : List Entry)
    → test new ≡ true
    → 0 < length es
    → any test (evict now new es) ≡ true
unfolding evict
any-evict test now new [] h b = elim (no_entry b) [ ]
  where
    no_entry : ¬ (0 < 0)
    no_entry = omega arith
any-evict test now new (e ∷ es) h b =
    any-replace test (find_lowest now 1 0 (score now e) es) (e ∷ es) new h
      (omega (arith, find_lowest_lt now 1 0 (score now e) es (omega arith)))

-- After a visit of a directory whose path is below 4096 bytes, the database has an entry with this
-- path and the time of the visit, whether the path was known, was added, or took the place of
-- another one.
pub update_frecency-is_visit :
    (now : ℕ) (abs_path : Bytes) (db : List Entry)
    → length abs_path ≤ 4095
    → any (is_visit now abs_path) (update_frecency now abs_path db) ≡ true
unfolding update_frecency
update_frecency-is_visit now abs_path db h =
    let new = new_entry now abs_path in
    let P : List Entry → Type 0 = λ r. any (is_visit now abs_path) r ≡ true in
    if_cases P (any (has_path abs_path) db) (update_first (has_path abs_path) (visit_again now) db)
      (if ltb (length db) 256 then db ++ new ∷ [] else evict now new db)
      (λ e. any-update_first now abs_path db e)
      (λ e.
        if_cases P (ltb (length db) 256) (db ++ new ∷ []) (evict now new db)
          (λ f. any-append (is_visit now abs_path) db new (new_entry-visit now abs_path h))
          (λ f.
            any-evict (is_visit now abs_path) now new db (new_entry-visit now abs_path h)
              (full (length db) f)))
  where
    full : (n : ℕ) → ltb n 256 ≡ false → 0 < n
    full n f = ground arith
