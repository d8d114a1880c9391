-- ===== src/Shell/Decimal.antt =====
-- Natural numbers in decimal, as the C library prints them and reads them back.
use mini_project.Common.{
  ℕ, zero, suc, ◌+◌, ◌-◌, ◌*◌, ◌/◌, ◌%◌, ◌<◌, true, false, [], ◌∷◌, ◌++◌, ◌≡◌, refl, arith, ltb,
  if◌then◌else◌, Bool-cases, inl, inr, All, if_elim, if_cases, subst, sym, ap, ◌∙◌, ◌≤◌, length,
}
use mini_project.Shell.Token.{Bytes}
use mini_project.Shell.Builtins.{isdigit}

-- The first argument is fuel; a number needs less than its successor.
unfoldable pub digits : ℕ → ℕ → Bytes → Bytes
digits zero n out = out
digits (suc fuel) n out =
    let out' = (b'0' + n % 10) ∷ out in
    let more = digits fuel (n / 10) out' in if ltb n 10 then out' else more

unfoldable pub print_nat : ℕ → Bytes
unfolding digits
print_nat n = digits (suc n) n []

-- The value of the digits at the head, and what stands behind them.
unfoldable pub read_digits : ℕ → Bytes → ℕ × Bytes
read_digits n [] = (n, [])
read_digits n (c ∷ s) =
    let more = read_digits (n * 10 + (c - b'0')) s in if isdigit c then more else (n, c ∷ s)

abbrev pub IsDigits : Bytes → Type 0
IsDigits s = All (λ c. isdigit c ≡ true) s

digits-IsDigits : (fuel n : ℕ) (out : Bytes) → IsDigits out → IsDigits (digits fuel n out)
unfolding digits
digits-IsDigits zero n out h = h
digits-IsDigits (suc fuel) n out h =
    let digit : isdigit (b'0' + n % 10) ≡ true = ground arith in
    if_elim IsDigits (ltb n 10) (digit, h)
      (digits-IsDigits fuel (n / 10) ((b'0' + n % 10) ∷ out) (digit, h))

pub print_nat-IsDigits : (n : ℕ) → IsDigits (print_nat n)
unfolding print_nat
print_nat-IsDigits n = digits-IsDigits (suc n) n [] tt

-- There is a first byte.
abbrev pub IsSome : Bytes → Type 0
IsSome s = (c : ℕ) × (t : Bytes) × (s ≡ c ∷ t)

digits-IsSome : (fuel n c : ℕ) (out : Bytes) → IsSome (digits fuel n (c ∷ out))
unfolding digits
digits-IsSome zero n c out = (c, out, refl)
digits-IsSome (suc fuel) n c out =
    if_elim IsSome (ltb n 10) (b'0' + n % 10, c ∷ out, refl)
      (digits-IsSome fuel (n / 10) (b'0' + n % 10) (c ∷ out))

pub print_nat-IsSome : (n : ℕ) → IsSome (print_nat n)
unfolding print_nat digits
print_nat-IsSome n =
    if_elim IsSome (ltb n 10) (b'0' + n % 10, [], refl)
      (digits-IsSome n (n / 10) (b'0' + n % 10) [])

read_digits_last :
    (n : ℕ) (out : Bytes) → read_digits (n / 10) ((b'0' + n % 10) ∷ out) ≡ read_digits n out
unfolding read_digits
read_digits_last n out =
    let digit : isdigit (b'0' + n % 10) ≡ true = ground arith in
    let whole : n / 10 * 10 + (b'0' + n % 10 - b'0') ≡ n = omega arith in
    rw (digit, if◌then◌else◌, whole) refl

read_digits-digits :
    (fuel n : ℕ) (out : Bytes) → n < fuel → read_digits 0 (digits fuel n out) ≡ read_digits n out
unfolding digits
read_digits-digits zero n out h = let bad : ⊥ = omega (arith, h) in elim bad [ ]
read_digits-digits (suc fuel) n out h =
    if_cases (λ s. read_digits 0 s ≡ read_digits n out) (ltb n 10) ((b'0' + n % 10) ∷ out)
      (digits fuel (n / 10) ((b'0' + n % 10) ∷ out))
      (λ small.
        let none : n / 10 ≡ 0 = ground arith in
        subst (λ m. read_digits m ((b'0' + n % 10) ∷ out) ≡ read_digits n out) none
          (read_digits_last n out))
      (λ large.
        let less : n / 10 < fuel = ground arith in
        read_digits-digits fuel (n / 10) ((b'0' + n % 10) ∷ out) less ∙ read_digits_last n out)

digits-append :
    (fuel n : ℕ) (out rest : Bytes) → digits fuel n (out ++ rest) ≡ digits fuel n out ++ rest
unfolding digits
digits-append zero n out rest = refl
digits-append (suc fuel) n out rest = elim (Bool-cases (ltb n 10)) [
  | inl e ↦ rw (e, if◌then◌else◌) refl
  | inr e ↦ rw (e, if◌then◌else◌) (digits-append fuel (n / 10) ((b'0' + n % 10) ∷ out) rest)
]

-- A printed number is read back, and reading stops at the next byte that is no digit.
pub read_digits-print_nat :
    (n c : ℕ) (rest : Bytes)
    → isdigit c ≡ false
    → read_digits 0 (print_nat n ++ c ∷ rest) ≡ (n, c ∷ rest)
unfolding print_nat read_digits
read_digits-print_nat n c rest h =
    ap (read_digits 0) (sym (digits-append (suc n) n [] (c ∷ rest)))
    ∙ read_digits-digits (suc n) n (c ∷ rest) (omega arith)
    ∙ rw (h, if◌then◌else◌) refl

abbrev ten_to : ℕ → ℕ
ten_to zero = 1
ten_to (suc k) = 10 * ten_to k

length-digits :
    (k fuel n : ℕ) (out : Bytes)
    → n < ten_to (suc k)
    → length (digits fuel n out) ≤ suc k + length out
unfolding digits
length-digits k zero n out h = omega arith
length-digits zero (suc fuel) n out h =
    let small : ltb n 10 ≡ true = ground arith in rw (small, if◌then◌else◌) (omega arith)
length-digits (suc k) (suc fuel) n out h =
    let less : n / 10 < ten_to (suc k) = omega (arith, h) in
    let more = length-digits k fuel (n / 10) ((b'0' + n % 10) ∷ out) less in
    let last : length ((b'0' + n % 10) ∷ out) ≤ suc (suc k) + length out = omega arith in
    let fewer : length (digits fuel (n / 10) ((b'0' + n % 10) ∷ out)) ≤ suc (suc k) + length out =
      omega (arith, more) in
    if_elim (λ (s : Bytes). length s ≤ suc (suc k) + length out) (ltb n 10) last fewer

-- A number below 2 ^ 31 has at most ten digits.
pub length-print_nat_int : (n : ℕ) → n < 2147483648 → length (print_nat n) ≤ 10
unfolding print_nat
length-print_nat_int n h = length-digits 9 (suc n) n [] (omega (arith, h))

-- A number below 2 ^ 63 has at most nineteen.
pub length-print_nat_long : (n : ℕ) → n < 9223372036854775808 → length (print_nat n) ≤ 19
unfolding print_nat
length-print_nat_long n h = length-digits 18 (suc n) n [] (omega (arith, h))
