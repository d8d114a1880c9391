-- ===== src/Shell/Hop/Ranking.antt =====
-- Which directory the lookup of c-shell/src/hop.c gives.
use mini_project.Common.{
  ℕ, zero, suc, ◌+◌, Bool, true, false, ◌&&◌, Option, none, some, List, [], ◌∷◌, ◌≡◌, ◌≢◌, refl, ap,
  ◌∙◌, arith, ltb, if_cases, decide, length, All, get_elem?,
}
use mini_project.Shell.Token.{Bytes}
use mini_project.Shell.Hop.{
  Entry, score, exchange, sort_rounds, first_match, is_match, frecency_lookup,
}

module _ (now : ℕ) where
  exchange-All :
      (P : Entry → Type 0) (x : Entry) (xs : List Entry)
      → P x
      → All P xs
      → All P ((exchange now x xs).0 ∷ (exchange now x xs).1)
  unfolding exchange
  exchange-All P x [] h a = (h, tt)
  exchange-All P x (y ∷ ys) h a =
      decide (λ (r : Entry × List Entry). All P (r.0 ∷ r.1)) (ltb (score now x) (score now y)) _ _
        (λ e. let q = exchange-All P y ys a.0 a.1 in (q.0, (h, q.1)))
        (λ e. let q = exchange-All P x ys h a.1 in (q.0, (a.0, q.1)))

  All-exchange :
      (P : Entry → Type 0) (x : Entry) (xs : List Entry)
      → All P ((exchange now x xs).0 ∷ (exchange now x xs).1)
      → All P (x ∷ xs)
  unfolding exchange
  All-exchange P x [] a = a
  All-exchange P x (y ∷ ys) a =
      decide (λ (r : Entry × List Entry). All P (r.0 ∷ r.1) → All P (x ∷ y ∷ ys))
        (ltb (score now x) (score now y)) _ _ (λ e a. (a.1.0, All-exchange P y ys (a.0, a.1.1)))
        (λ e a. let q = All-exchange P x ys (a.0, a.1.1) in (q.0, (a.1.0, q.1))) a

  length-exchange : (x : Entry) (xs : List Entry) → length (exchange now x xs).1 ≡ length xs
  unfolding exchange
  length-exchange x [] = refl
  length-exchange x (y ∷ ys) =
      decide (λ (r : Entry × List Entry). length r.1 ≡ suc (length ys))
        (ltb (score now x) (score now y)) _ _ (λ e. ap suc (length-exchange y ys))
        (λ e. ap suc (length-exchange x ys))

  abbrev NotHigher : Entry → Entry → Type 0
  NotHigher m e = ltb (score now m) (score now e) ≡ false

  below_higher :
      (m y x : Entry) → NotHigher m y → ltb (score now x) (score now y) ≡ true → NotHigher m x
  below_higher m y x h e = ground arith

  below_equal :
      (m x y : Entry) → NotHigher m x → ltb (score now x) (score now y) ≡ false → NotHigher m y
  below_equal m x y h e = ground arith

  exchange_highest :
      (x : Entry) (xs : List Entry)
      → NotHigher (exchange now x xs).0 x
        × All (NotHigher (exchange now x xs).0) (exchange now x xs).1
  unfolding exchange
  exchange_highest x [] = (ground arith, tt)
  exchange_highest x (y ∷ ys) =
      decide (λ (r : Entry × List Entry). NotHigher r.0 x × All (NotHigher r.0) r.1)
        (ltb (score now x) (score now y)) _ _
        (λ e.
          let q = exchange_highest y ys in
          let b = below_higher (exchange now y ys).0 y x q.0 e in (b, (b, q.1)))
        (λ e.
          let q = exchange_highest x ys in
          (q.0, (below_equal (exchange now x ys).0 x y q.0 e, q.1)))

  -- The scores do not rise along the list.
  abbrev Ranked : List Entry → Type 0
  Ranked [] = Unit
  Ranked (e ∷ es) = All (NotHigher e) es × Ranked es

  sort_rounds-All :
      (P : Entry → Type 0) (n : ℕ) (es : List Entry) → All P es → All P (sort_rounds now n es)
  unfolding sort_rounds
  sort_rounds-All P zero es a = a
  sort_rounds-All P (suc n) [] a = tt
  sort_rounds-All P (suc n) (e ∷ es) a =
      let q = exchange-All P e es a.0 a.1 in (q.0, sort_rounds-All P n (exchange now e es).1 q.1)

  All-sort_rounds :
      (P : Entry → Type 0) (n : ℕ) (es : List Entry) → All P (sort_rounds now n es) → All P es
  unfolding sort_rounds
  All-sort_rounds P zero es a = a
  All-sort_rounds P (suc n) [] a = tt
  All-sort_rounds P (suc n) (e ∷ es) a =
      All-exchange P e es (a.0, All-sort_rounds P n (exchange now e es).1 a.1)

  suc_ne_zero : (n : ℕ) → suc n ≢ 0
  suc_ne_zero n = omega arith

  sort_rounds-Ranked : (n : ℕ) (es : List Entry) → length es ≡ n → Ranked (sort_rounds now n es)
  unfolding sort_rounds
  sort_rounds-Ranked zero [] h = tt
  sort_rounds-Ranked zero (e ∷ es) h = elim (suc_ne_zero (length es) h) [ ]
  sort_rounds-Ranked (suc n) [] h = tt
  sort_rounds-Ranked (suc n) (e ∷ es) h =
      let (m, rest) = exchange now e es in
      (
        sort_rounds-All (NotHigher m) n rest (exchange_highest e es).1,
        sort_rounds-Ranked n rest (omega (arith, length-exchange e es, h)),
      )

  -- An entry that passes the test with a higher score than `m`.
  abbrev beats : (Entry → Bool) → Entry → Entry → Bool
  beats test m e = test e && ltb (score now m) (score now e)

  -- A result of the lookup: the path of an entry that passes the test, such that no entry that
  -- passes it has a higher score; or nothing when no entry passes.
  pub data BestMatch (test : Entry → Bool) (P : Entry → Type 0) (es : List Entry)
      : Option Bytes → Type 0 where
    no_match : All (λ e. test e ≡ false) es → BestMatch test P es none
    best :
        (m : Entry)
        → P m
        → test m ≡ true
        → All (λ e. beats test m e ≡ false) es
        → BestMatch test P es (some m.path)

  none_beats :
      (test : Entry → Bool) (m : Entry) (es : List Entry)
      → All (NotHigher m) es
      → All (λ e. beats test m e ≡ false) es
  none_beats test m [] a = tt
  none_beats test m (e ∷ es) a = (ground arith, none_beats test m es a.1)

  skip_entry :
      (test : Entry → Bool) (P : Entry → Type 0) (e : Entry) (es : List Entry) (r : Option Bytes)
      → test e ≡ false
      → BestMatch test P es r
      → BestMatch test P (e ∷ es) r
  skip_entry test P e es _ h (no_match a) = no_match (h, a)
  skip_entry test P e es _ h (best m p t a) = best m p t (ground arith, a)

  first_match-Best :
      (test : Entry → Bool) (P : Entry → Type 0) (es : List Entry)
      → All P es
      → Ranked es
      → BestMatch test P es (first_match test es)
  unfolding first_match
  first_match-Best test P [] a r = no_match tt
  first_match-Best test P (e ∷ es) a r =
      if_cases (BestMatch test P (e ∷ es)) (test e) (some e.path) (first_match test es)
        (λ h. best e a.0 h (ground arith, none_beats test e es r.0))
        (λ h. skip_entry test P e es _ h (first_match-Best test P es a.1 r.1))

abbrev pub IsIn : List Entry → Entry → Type 0
IsIn db e = (i : ℕ) × (get_elem? db i ≡ some e)

all-IsIn :
    (db es : List Entry) (i : ℕ)
    → ((k : ℕ) → get_elem? db (i + k) ≡ get_elem? es k)
    → All (IsIn db) es
unfolding get_elem?
all-IsIn db [] i h = tt
all-IsIn db (e ∷ es) i h =
    ((i + 0, h 0), all-IsIn db es (i + 1) (λ k. ap (get_elem? db) (omega arith) ∙ h (suc k)))

unsorted :
    (now : ℕ) (test : Entry → Bool) (db : List Entry) (n : ℕ) (r : Option Bytes)
    → BestMatch now test (IsIn db) (sort_rounds now n db) r
    → BestMatch now test (IsIn db) db r
unsorted now test db n _ (no_match a) = no_match (All-sort_rounds now _ n db a)
unsorted now test db n _ (best m p t a) = best m p t (All-sort_rounds now _ n db a)

-- The lookup gives the path of an entry of the database that contains the name and is a
-- directory, such that no other such entry has a higher score; it gives none only when there is no
-- such entry.
pub frecency_lookup-BestMatch :
    (now : ℕ) (is_dir : Bytes → Bool) (name : Bytes) (db : List Entry)
    → BestMatch now (is_match is_dir name) (IsIn db) db (frecency_lookup now is_dir name db)
unfolding frecency_lookup
frecency_lookup-BestMatch now is_dir name db =
    unsorted now (is_match is_dir name) db (length db) _ (
      first_match-Best now (is_match is_dir name) (IsIn db) (sort_rounds now (length db) db)
        (sort_rounds-All now (IsIn db) (length db) db
          (all-IsIn db db 0 (λ k. ap (get_elem? db) (omega arith))))
        (sort_rounds-Ranked now (length db) db refl))
