-- ===== src/Common/Sorting.antt =====
-- `qsort` with a comparison: the elements in an order in which none stands behind one that it
-- should precede. `le` is whether the comparison is not positive.
use mathlib.Core.List.{List, [], ◌∷◌, Perm}
use mathlib.Core.List.Perm
use mathlib.Core.Path.{◌≡◌}
use mathlib.Core.Bool.{Bool, true, false}
use mathlib.Core.Logic.{inl, inr}
use mini_project.Common.Tests.{if◌then◌else◌, Bool-cases}
use mini_project.Common.Lists.{All}

module _ {A : Type 0} (le : A → A → Bool) where
  unfoldable pub insert_by : A → List A → List A
  insert_by x [] = x ∷ []
  insert_by x (y ∷ ys) = let rest = insert_by x ys in if le x y then x ∷ y ∷ ys else y ∷ rest

  unfoldable pub sort_by : List A → List A
  unfolding insert_by
  sort_by [] = []
  sort_by (x ∷ xs) = insert_by x (sort_by xs)

  -- Every element goes before all that stand behind it.
  abbrev pub IsSortedBy : List A → Type 0
  IsSortedBy [] = Unit
  IsSortedBy (x ∷ xs) = All (λ y. le x y ≡ true) xs × IsSortedBy xs

  insert_by-perm : (x : A) (ys : List A) → Perm (insert_by x ys) (x ∷ ys)
  unfolding insert_by
  insert_by-perm x [] = Perm.refl _
  insert_by-perm x (y ∷ ys) = elim (Bool-cases (le x y)) [
    | inl e ↦ rw (e, if◌then◌else◌) (Perm.refl _)
    | inr e ↦
        rw (e, if◌then◌else◌) (Perm.trans (Perm.cons y (insert_by-perm x ys)) (Perm.swap x y ys))
  ]

  pub sort_by-perm : (xs : List A) → Perm (sort_by xs) xs
  unfolding sort_by
  sort_by-perm [] = Perm.refl []
  sort_by-perm (x ∷ xs) = Perm.trans (insert_by-perm x (sort_by xs)) (Perm.cons x (sort_by-perm xs))

  module _ (total : (x y : A) → le x y ≡ false → le y x ≡ true)
      (trans : (x y z : A) → le x y ≡ true → le y z ≡ true → le x z ≡ true) where
    insert_by-All :
        (n x : A) (ys : List A)
        → le n x ≡ true
        → All (λ y. le n y ≡ true) ys
        → All (λ y. le n y ≡ true) (insert_by x ys)
    unfolding insert_by
    insert_by-All n x [] h hs = (h, tt)
    insert_by-All n x (y ∷ ys) h hs = elim (Bool-cases (le x y)) [
      | inl e ↦ rw (e, if◌then◌else◌) (h, hs)
      | inr e ↦ rw (e, if◌then◌else◌) (hs.0, insert_by-All n x ys h hs.1)
    ]

    All-mono :
        (n m : A) (ys : List A)
        → le n m ≡ true
        → All (λ y. le m y ≡ true) ys
        → All (λ y. le n y ≡ true) ys
    All-mono n m [] h hs = tt
    All-mono n m (y ∷ ys) h hs = (trans n m y h hs.0, All-mono n m ys h hs.1)

    insert_by-IsSortedBy : (x : A) (ys : List A) → IsSortedBy ys → IsSortedBy (insert_by x ys)
    unfolding insert_by
    insert_by-IsSortedBy x [] h = (tt, tt)
    insert_by-IsSortedBy x (y ∷ ys) h = elim (Bool-cases (le x y)) [
      | inl e ↦ rw (e, if◌then◌else◌) ((e, All-mono x y ys e h.0), h)
      | inr e ↦
          rw (e, if◌then◌else◌)
            (insert_by-All y x ys (total x y e) h.0, insert_by-IsSortedBy x ys h.1)
    ]

    pub sort_by-IsSortedBy : (xs : List A) → IsSortedBy (sort_by xs)
    unfolding sort_by
    sort_by-IsSortedBy [] = tt
    sort_by-IsSortedBy (x ∷ xs) = insert_by-IsSortedBy x (sort_by xs) (sort_by-IsSortedBy xs)
