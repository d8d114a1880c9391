-- ===== src/Common/Lists.antt =====
-- Lists measured and indexed by native numbers, under the library's names.
use Prim.Native.Nat.{ℕ, zero, suc, ◌+◌, ◌≤◌}
use mathlib.Core.Path.{◌≡◌, refl, subst, ap}
use mathlib.Core.List.{List, [], ◌∷◌, ◌++◌}
use mathlib.Core.Bool.{Bool, true, false}
use mathlib.Core.Option.{Option, none, some}
use mini_project.Common.Tests.{if◌then◌else◌, Bool-cases}
use mathlib.Core.Logic.{inl, inr}
use native.Mathlib.Omega.{arith}

module _ {ℓ} {A : Type ℓ} where
  abbrev pub length : List A → ℕ
  length [] = 0
  length (x ∷ xs) = suc (length xs)

  abbrev pub take : ℕ → List A → List A
  take zero xs = []
  take (suc n) [] = []
  take (suc n) (x ∷ xs) = x ∷ take n xs

  abbrev pub drop : ℕ → List A → List A
  drop zero xs = xs
  drop (suc n) [] = []
  drop (suc n) (x ∷ xs) = drop n xs

  pub length-append : (xs ys : List A) → length (xs ++ ys) ≡ length xs + length ys
  length-append [] ys = omega arith
  length-append (x ∷ xs) ys = omega (arith, length-append xs ys)

  pub take_all : (n : ℕ) (xs : List A) → length xs ≤ n → take n xs ≡ xs
  take_all zero [] h = refl
  take_all (suc n) [] h = refl
  take_all zero (x ∷ xs) h = let bad : ⊥ = omega (arith, h) in elim bad [ ]
  take_all (suc n) (x ∷ xs) h = ap (λ t. x ∷ t) (take_all n xs (omega (arith, h)))

-- A predicate on every element, by recursion, so that the tactics read its parts.
abbrev pub All {ℓ κ} : {A : Type ℓ} → (A → Type κ) → List A → Type κ
All P [] = Unit
All P (x ∷ xs) = P x × All P xs

pub All-append {ℓ κ} :
    {A : Type ℓ} (P : A → Type κ) (xs ys : List A) → All P xs → All P ys → All P (xs ++ ys)
All-append P [] ys hx hy = hy
All-append P (x ∷ xs) ys hx hy = (hx.0, All-append P xs ys hx.1 hy)

-- Searches and updates by position.
module _ {ℓ} {A : Type ℓ} where
  unfoldable pub update_first : (A → Bool) → (A → A) → List A → List A
  update_first test f [] = []
  update_first test f (x ∷ xs) = if test x then f x ∷ xs else x ∷ update_first test f xs

  unfoldable pub find_index : (A → Bool) → List A → Option ℕ
  find_index test [] = none
  find_index test (x ∷ xs) =
      if test x then some 0 else elim (find_index test xs) [ none ↦ none | some i ↦ some (suc i) ]

  unfoldable pub any : (A → Bool) → List A → Bool
  any test [] = false
  any test (x ∷ xs) = if test x then true else any test xs

  unfoldable pub filter_by : (A → Bool) → List A → List A
  filter_by test [] = []
  filter_by test (x ∷ xs) = let rest = filter_by test xs in if test x then x ∷ rest else rest

  unfoldable pub get_elem? : List A → ℕ → Option A
  get_elem? [] i = none
  get_elem? (x ∷ xs) zero = some x
  get_elem? (x ∷ xs) (suc i) = get_elem? xs i

  unfoldable pub modify : ℕ → (A → A) → List A → List A
  modify i f [] = []
  modify zero f (x ∷ xs) = f x ∷ xs
  modify (suc i) f (x ∷ xs) = x ∷ modify i f xs

module _ {A : Type 0} (test : A → Bool) where
  -- What the search for the first element that passes a test found.
  abbrev pub Found : List A → Option ℕ → Type 0
  Found xs none = All (λ x. test x ≡ false) xs
  Found xs (some i) = (x : A) × (get_elem? xs i ≡ some x) × (test x ≡ true)

  Found-next :
      (x : A) (xs : List A) (o : Option ℕ)
      → test x ≡ false
      → Found xs o
      → Found (x ∷ xs) (elim o [ none ↦ none | some i ↦ some (suc i) ])
  unfolding get_elem?
  Found-next x xs none e h = (e, h)
  Found-next x xs (some i) e h = h

  pub find_index-Found : (xs : List A) → Found xs (find_index test xs)
  unfolding find_index
  find_index-Found [] = tt
  find_index-Found (x ∷ xs) = elim (Bool-cases (test x)) [
    | inl e ↦ rw (e, if◌then◌else◌) (x, unfold get_elem? in refl, e)
    | inr e ↦ rw (e, if◌then◌else◌) (Found-next x xs (find_index test xs) e (find_index-Found xs))
  ]

-- What passes a test does.
pub All-filter_by :
    {A : Type 0} (test : A → Bool) (xs : List A) → All (λ x. test x ≡ true) (filter_by test xs)
unfolding filter_by
All-filter_by test [] = tt
All-filter_by test (x ∷ xs) = elim (Bool-cases (test x)) [
  | inl e ↦ rw (e, if◌then◌else◌) (e, All-filter_by test xs)
  | inr e ↦ rw (e, if◌then◌else◌) (All-filter_by test xs)
]

pub All-get_elem? :
    {A : Type 0} (P : A → Type 0) (xs : List A) (i : ℕ) (x : A)
    → All P xs
    → get_elem? xs i ≡ some x
    → P x
unfolding get_elem?
All-get_elem? P [] i x a e = cc
All-get_elem? P (y ∷ xs) zero x a e = let h : y ≡ x = cc in subst P h a.0
All-get_elem? P (y ∷ xs) (suc i) x a e = All-get_elem? P xs i x a.1 e
