-- ===== src/Shell/Hop/History/RoundTrip.antt =====
-- The database of c-shell/src/hop.c comes back from the history file.
use mathlib.Core.List.{append_assoc, append-nil}
use mini_project.Common.{
  ℕ, zero, suc, ◌≤◌, ◌<◌, Bool, true, false, Option, none, some, List, [], ◌∷◌, ◌++◌, ◌≡◌, refl,
  sym, ap, ◌∙◌, ◌==◌, arith, if◌then◌else◌, subst, All, All-append, length, length-append, take_all,
}
use mini_project.Shell.Token.{Bytes}
use mini_project.Shell.Builtins.{isdigit}
use mini_project.Shell.Decimal.{
  print_nat, read_digits, IsDigits, print_nat-IsDigits, print_nat-IsSome, read_digits-print_nat,
  length-print_nat_int, length-print_nat_long,
}
use mini_project.Shell.Hop.{Entry, max_entries}
use mini_project.Shell.Hop.History.{
  print_entry, save_history, line_room, fgets_from, is_space, is_blank, is_digit_or_dash, skip,
  number_at, second_number, scan_numbers, is_end, keep_end, strip_end, path_part, entry_of,
  load_line, load_lines, load_history,
}

-- Bytes that all pass a test are skipped, up to one that does not.
skip-append :
    (test : ℕ → Bool) (s : Bytes) (c : ℕ) (rest : Bytes)
    → All (λ d. test d ≡ true) s
    → test c ≡ false
    → skip test (s ++ c ∷ rest) ≡ c ∷ rest
unfolding skip
skip-append test [] c rest h e = rw (e, if◌then◌else◌) refl
skip-append test (d ∷ s) c rest h e = rw (h.0, if◌then◌else◌) (skip-append test s c rest h.1 e)

-- Nothing is skipped at a byte that does not pass.
skip_none : (test : ℕ → Bool) (c : ℕ) (s : Bytes) → test c ≡ false → skip test (c ∷ s) ≡ c ∷ s
unfolding skip
skip_none test c s e = rw (e, if◌then◌else◌) refl

strip_end-append : (p : Bytes) → All (λ c. is_end c ≡ false) p → strip_end (p ++ b'\n' ∷ []) ≡ p
unfolding strip_end
strip_end-append [] h = refl
strip_end-append (c ∷ []) h = rw (h.0, if◌then◌else◌) refl
strip_end-append (c ∷ d ∷ p) h = ap (keep_end c) (strip_end-append (d ∷ p) h.1)

module _ (n : ℕ) (c : ℕ) (rest : Bytes) where
  -- A number at the head is not skipped as space.
  skip-print_nat :
      (test : ℕ → Bool)
      → ((d : ℕ) → isdigit d ≡ true → test d ≡ false)
      → skip test (print_nat n ++ c ∷ rest) ≡ print_nat n ++ c ∷ rest
  skip-print_nat test h =
      let (d, s, e) = print_nat-IsSome n in
      let digit : isdigit d ≡ true = (subst IsDigits e (print_nat-IsDigits n)).0 in
      rw e (skip_none test d (s ++ c ∷ rest) (h d digit))

  number_at-print_nat : isdigit c ≡ false → number_at (print_nat n ++ c ∷ rest) ≡ some (n, c ∷ rest)
  number_at-print_nat h =
      let (d, s, e) = print_nat-IsSome n in
      let digit : isdigit d ≡ true = (subst IsDigits e (print_nat-IsDigits n)).0 in
      let read : read_digits 0 (d ∷ (s ++ c ∷ rest)) ≡ (n, c ∷ rest) =
        subst (λ t. read_digits 0 (t ++ c ∷ rest) ≡ (n, c ∷ rest)) e
          (read_digits-print_nat n c rest h) in
      rw (e, digit, if◌then◌else◌, read) refl

digit-not_space : (d : ℕ) → isdigit d ≡ true → is_space d ≡ false
digit-not_space d h = ground arith

digit-not_blank : (d : ℕ) → isdigit d ≡ true → is_blank d ≡ false
digit-not_blank d h = ground arith

-- An absolute path that fits the array `path` and has no end of a line in it.
unfoldable pub IsPath : Bytes → Type 0
IsPath p = (s : Bytes) × (p ≡ b'/' ∷ s) × All (λ c. is_end c ≡ false) p × (length p ≤ 4095)

module _ (m n : ℕ) (s : Bytes) where
  abbrev tail_of : Bytes
  tail_of = print_nat n ++ b' ' ∷ s

  scan_numbers-print_entry : scan_numbers (print_nat m ++ b' ' ∷ tail_of) ≡ some (m, n)
  unfolding scan_numbers skip
  scan_numbers-print_entry =
      ap (λ t. second_number (number_at t)) (skip-print_nat m b' ' tail_of is_space digit-not_space)
      ∙ ap second_number (number_at-print_nat m b' ' tail_of refl)
      ∙ ap (λ t. last_of (number_at t)) (skip-print_nat n b' ' s is_space digit-not_space)
      ∙ ap last_of (number_at-print_nat n b' ' s refl)
    where
      last_of : Option (ℕ × Bytes) → Option (ℕ × ℕ)
      last_of r = elim r [ none ↦ none | some (last, more) ↦ some (m, last) ]

digits_or_dashes : (s : Bytes) → IsDigits s → All (λ d. is_digit_or_dash d ≡ true) s
digits_or_dashes [] h = tt
digits_or_dashes (d ∷ s) h =
    let passes : is_digit_or_dash d ≡ true = ground arith in (passes, digits_or_dashes s h.1)

path_part-print_entry :
    (m n : ℕ) (s : Bytes)
    → path_part (print_nat m ++ b' ' ∷ (print_nat n ++ b' ' ∷ (b'/' ∷ s))) ≡ strip_end (b'/' ∷ s)
unfolding path_part skip
path_part-print_entry m n s =
    let behind = b' ' ∷ (b'/' ∷ s) in
    let second = print_nat n ++ behind in
    ap (λ t. strip_end (after_first (skip isdigit t)))
      (skip-print_nat m b' ' second is_blank digit-not_blank)
    ∙ ap (λ t. strip_end (after_first t))
        (skip-append isdigit (print_nat m) b' ' second (print_nat-IsDigits m) refl)
    ∙ ap (λ t. strip_end (skip is_blank (skip is_digit_or_dash t)))
        (skip-print_nat n b' ' (b'/' ∷ s) is_blank digit-not_blank)
    ∙ ap (λ t. strip_end (skip is_blank t))
        (skip-append is_digit_or_dash (print_nat n) b' ' (b'/' ∷ s)
          (digits_or_dashes (print_nat n) (print_nat-IsDigits n)) refl)
  where
    after_first : Bytes → Bytes
    after_first t = skip is_blank (skip is_digit_or_dash (skip is_blank t))

load_line-print_entry : (e : Entry) → IsPath e.path → load_line (print_entry e) ≡ some e
unfolding load_line print_entry IsPath
load_line-print_entry e (s, eq, ends, short) =
    let path_end = ap (λ p. p ++ b'\n' ∷ []) eq in
    let stripped : strip_end (b'/' ∷ s ++ b'\n' ∷ []) ≡ b'/' ∷ s =
      strip_end-append (b'/' ∷ s) (subst (All (λ c. is_end c ≡ false)) eq ends) in
    let bound : length (b'/' ∷ s) ≤ 4095 = subst (λ p. length p ≤ 4095) eq short in
    ap
      (λ p.
        entry_of
          (scan_numbers (print_nat e.frequency ++ b' ' ∷ (print_nat e.last_access ++ b' ' ∷ p)))
          (path_part (print_nat e.frequency ++ b' ' ∷ (print_nat e.last_access ++ b' ' ∷ p))))
      path_end
    ∙ ap
        (λ r. entry_of r (
          path_part (
            print_nat e.frequency
            ++ b' ' ∷ (print_nat e.last_access ++ b' ' ∷ (b'/' ∷ s ++ b'\n' ∷ [])))))
        (scan_numbers-print_entry e.frequency e.last_access (b'/' ∷ s ++ b'\n' ∷ []))
    ∙ ap (entry_of (some (e.frequency, e.last_access)))
        (path_part-print_entry e.frequency e.last_access (s ++ b'\n' ∷ []) ∙ stripped)
    ∙ ap (λ p. some (record { path = p; frequency = e.frequency; last_access = e.last_access }))
        (take_all 4095 (b'/' ∷ s) bound ∙ sym eq)

-- A line of a file is read up to its newline, when the buffer has room for it.
fgets_from-append :
    (line : Bytes) (room : ℕ) (s rest : Bytes)
    → All (λ c. is_end c ≡ false) s
    → length s < room
    → fgets_from line room (s ++ b'\n' ∷ rest)
      ≡ (line ++ (s ++ b'\n' ∷ [])) ∷ fgets_from [] line_room rest
unfolding fgets_from
fgets_from-append line zero s rest h short = let bad : ⊥ = omega (arith, short) in elim bad [ ]
fgets_from-append line (suc room) [] rest h short = refl
fgets_from-append line (suc room) (c ∷ s) rest h short =
    let other : c == b'\n' ≡ false = ground arith in
    let assoc : (line ++ c ∷ []) ++ (s ++ b'\n' ∷ []) ≡ line ++ (c ∷ s ++ b'\n' ∷ []) =
      append_assoc line (c ∷ []) (s ++ b'\n' ∷ []) in
    rw (fgets_from, other)
      (fgets_from-append (line ++ c ∷ []) room s rest h.1 (omega (arith, short))
        ∙ ap (λ l. l ∷ fgets_from [] line_room rest) assoc)

-- The frequency is an `int` and the time a `long`, and the path is absolute.
unfoldable pub IsKept : Entry → Type 0
IsKept e = (e.frequency < 2147483648) × (e.last_access < 9223372036854775808) × IsPath e.path

digits-not_end : (s : Bytes) → IsDigits s → All (λ c. is_end c ≡ false) s
digits-not_end [] h = tt
digits-not_end (d ∷ s) h =
    let not_end : is_end d ≡ false = ground arith in (not_end, digits-not_end s h.1)

-- The line of an entry without its newline.
abbrev line_of : Entry → Bytes
line_of e = print_nat e.frequency ++ (b' ' ∷ (print_nat e.last_access ++ (b' ' ∷ e.path)))

print_entry-line_of : (e : Entry) (rest : Bytes) → print_entry e ++ rest ≡ line_of e ++ b'\n' ∷ rest
unfolding print_entry
print_entry-line_of e rest = simp (append_assoc)

line_of-not_end : (e : Entry) → IsPath e.path → All (λ c. is_end c ≡ false) (line_of e)
unfolding IsPath
line_of-not_end e (s, eq, ends, short) =
    let digits_end = λ (n : ℕ). digits-not_end (print_nat n) (print_nat-IsDigits n) in
    All-append (λ c. is_end c ≡ false) (print_nat e.frequency)
      (b' ' ∷ (print_nat e.last_access ++ b' ' ∷ e.path)) (digits_end e.frequency)
      (
        refl,
        All-append (λ c. is_end c ≡ false) (print_nat e.last_access) (b' ' ∷ e.path)
            (digits_end e.last_access) (refl, ends),
      )

length-line_of : (e : Entry) → IsKept e → length (line_of e) < line_room
unfolding IsKept IsPath
length-line_of e (freq, last, (s, eq, ends, short)) =
    let first =
      length-append (print_nat e.frequency) (b' ' ∷ (print_nat e.last_access ++ b' ' ∷ e.path)) in
    let second = length-append (print_nat e.last_access) (b' ' ∷ e.path) in
    let int = length-print_nat_int e.frequency freq in
    let long = length-print_nat_long e.last_access last in
    omega (arith, first, second, int, long, short)

fgets_from-save_history :
    (e : Entry) (db : List Entry)
    → IsKept e
    → fgets_from [] line_room (save_history (e ∷ db))
      ≡ print_entry e ∷ fgets_from [] line_room (save_history db)
unfolding save_history IsKept
fgets_from-save_history e db h =
    ap (fgets_from [] line_room) (print_entry-line_of e (save_history db))
    ∙ fgets_from-append [] line_room (line_of e) (save_history db) (line_of-not_end e h.2)
        (length-line_of e h)
    ∙ ap (λ l. l ∷ fgets_from [] line_room (save_history db))
        (sym (print_entry-line_of e []) ∙ append-nil (print_entry e))

load_lines-save_history :
    (room : ℕ) (db : List Entry)
    → All IsKept db
    → length db ≤ room
    → load_lines room (fgets_from [] line_room (save_history db)) ≡ db
unfolding load_lines IsKept save_history fgets_from
load_lines-save_history zero [] h fits = refl
load_lines-save_history (suc room) [] h fits = refl
load_lines-save_history zero (e ∷ db) h fits = let bad : ⊥ = omega (arith, fits) in elim bad [ ]
load_lines-save_history (suc room) (e ∷ db) h fits =
    let loaded = load_line-print_entry e h.0.2 in
    ap (load_lines (suc room)) (fgets_from-save_history e db h.0)
    ∙ rw (load_lines, loaded)
        (ap (λ t. e ∷ t) (load_lines-save_history room db h.1 (omega (arith, fits))))

-- The database that `save_history` writes is the one that `load_history` reads, whatever it held
-- before, when it has at most 256 entries, each with a frequency below 2 ^ 31, a time below 2 ^ 63
-- and an absolute path of at most 4095 bytes without a newline or a carriage return.
pub load_history-save_history :
    (db old : List Entry)
    → All IsKept db
    → length db ≤ max_entries
    → load_history (some (save_history db)) old ≡ db
unfolding load_history
load_history-save_history db old h fits = load_lines-save_history max_entries db h fits
