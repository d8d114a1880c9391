-- ===== src/Kernel/Scheduler/Fifo.antt =====
-- Which process the FIFO scheduler of xv6/kernel/proc.c chooses.
use mini_project.Common.{
  ℕ, suc, ◌+◌, Bool, true, false, ◌&&◌, Option, none, some, List, [], ◌∷◌, ◌≡◌, refl, sym, subst,
  inl, inr, arith, if◌then◌else◌, Bool-cases, All, get_elem?,
}
use mini_project.Kernel.Proc.{Proc, Kernel, is_runnable, int_lt}
use mini_project.Kernel.Scheduler.{is_earlier, find_earliest, start_fifo, schedule_fifo}

int_lt_trans : (a b c : ℕ) → int_lt a b ≡ true → int_lt b c ≡ true → int_lt a c ≡ true
unfolding int_lt
int_lt_trans a b c h k = ground arith

int_lt_asymm : (a b : ℕ) → int_lt a b ≡ true → int_lt b a ≡ false
unfolding int_lt
int_lt_asymm a b h = ground arith

int_lt_irrefl : (a : ℕ) → int_lt a a ≡ false
unfolding int_lt
int_lt_irrefl a = ground arith

-- A runnable process that was created before `ctime`.
abbrev is_older : ℕ → Proc → Bool
is_older ctime p = is_runnable p.state && int_lt p.ctime ctime

abbrev NoneOlder : ℕ → List Proc → Type 0
NoneOlder ctime ps = All (λ p. is_older ctime p ≡ false) ps

abbrev NoneRunnable : List Proc → Type 0
NoneRunnable ps = All (λ p. is_runnable p.state ≡ false) ps

-- What the loop finds in the slots `ps` from `i` on when it holds `held` before.
data Best (i : ℕ) (held : Option (ℕ × ℕ)) (ps : List Proc) : Option ℕ → Type 0 where
  nothing : held ≡ none → NoneRunnable ps → Best i held ps none
  kept : (e c : ℕ) → held ≡ some (e, c) → NoneOlder c ps → Best i held ps (some e)
  newer :
      (k j : ℕ) (p : Proc)
      → j ≡ i + k
      → get_elem? ps k ≡ some p
      → is_runnable p.state ≡ true
      → is_earlier held p.ctime ≡ true
      → NoneOlder p.ctime ps
      → Best i held ps (some j)

both_true : (a b : Bool) → (a && b) ≡ true → (a ≡ true) × (b ≡ true)
both_true a b h = ground arith

earlier_trans :
    (held : Option (ℕ × ℕ)) (c d : ℕ)
    → is_earlier held c ≡ true
    → int_lt d c ≡ true
    → is_earlier held d ≡ true
unfolding is_earlier
earlier_trans none c d h k = refl
earlier_trans (some (e, x)) c d h k = int_lt_trans d c x k h

not_older : (p : Proc) (c : ℕ) → int_lt p.ctime c ≡ false → is_older c p ≡ false
not_older p c h = ground arith

taken :
    (i : ℕ) (held : Option (ℕ × ℕ)) (p : Proc) (ps : List Proc) (r : Option ℕ)
    → (is_runnable p.state && is_earlier held p.ctime) ≡ true
    → Best (i + 1) (some (i, p.ctime)) ps r
    → Best i held (p ∷ ps) r
unfolding get_elem? is_earlier
taken i held p ps _ h (nothing e n) = cc
taken i held p ps _ h (kept e c eq n) =
    let (run, first) = both_true (is_runnable p.state) (is_earlier held p.ctime) h in
    let ei : e ≡ i = cc in
    let ci : c ≡ p.ctime = cc in
    newer 0 e p (omega (arith, ei)) refl run first
      (not_older p p.ctime (int_lt_irrefl p.ctime), subst (λ c. NoneOlder c ps) ci n)
taken i held p ps _ h (newer k j q eq get run first n) =
    let (_, mine) = both_true (is_runnable p.state) (is_earlier held p.ctime) h in
    newer (suc k) j q (omega (arith, eq)) get run (earlier_trans held p.ctime q.ctime mine first)
      (not_older p q.ctime (int_lt_asymm q.ctime p.ctime first), n)

not_taken_none :
    (held : Option (ℕ × ℕ)) (p : Proc)
    → held ≡ none
    → (is_runnable p.state && is_earlier held p.ctime) ≡ false
    → is_runnable p.state ≡ false
unfolding is_earlier
not_taken_none none p e h = ground arith
not_taken_none (some x) p e h = cc

not_taken_some :
    (held : Option (ℕ × ℕ)) (p : Proc) (e c : ℕ)
    → held ≡ some (e, c)
    → (is_runnable p.state && is_earlier held p.ctime) ≡ false
    → is_older c p ≡ false
unfolding is_earlier
not_taken_some none p e c eq h = cc
not_taken_some (some (f, d)) p e c eq h =
    let ci : d ≡ c = cc in subst (λ c. is_older c p ≡ false) ci h

not_taken_older :
    (held : Option (ℕ × ℕ)) (p : Proc) (c : ℕ)
    → is_earlier held c ≡ true
    → (is_runnable p.state && is_earlier held p.ctime) ≡ false
    → is_older c p ≡ false
unfolding is_earlier
not_taken_older none p c k h = ground arith
not_taken_older (some (e, d)) p c k h = elim (Bool-cases (int_lt p.ctime c)) [
  | inl t ↦ let u = int_lt_trans p.ctime c d t k in ground arith
  | inr f ↦ not_older p c f
]

passed :
    (i : ℕ) (held : Option (ℕ × ℕ)) (p : Proc) (ps : List Proc) (r : Option ℕ)
    → (is_runnable p.state && is_earlier held p.ctime) ≡ false
    → Best (i + 1) held ps r
    → Best i held (p ∷ ps) r
unfolding get_elem?
passed i held p ps _ h (nothing e n) = nothing e (not_taken_none held p e h, n)
passed i held p ps _ h (kept e c eq n) = kept e c eq (not_taken_some held p e c eq h, n)
passed i held p ps _ h (newer k j q eq get run first n) =
    newer (suc k) j q (omega (arith, eq)) get run first (not_taken_older held p q.ctime first h, n)

find_earliest-Best :
    (i : ℕ) (held : Option (ℕ × ℕ)) (ps : List Proc) → Best i held ps (find_earliest i held ps)
unfolding find_earliest
find_earliest-Best i none [] = nothing refl tt
find_earliest-Best i (some (e, c)) [] = kept e c refl tt
find_earliest-Best i held (p ∷ ps) =
    let take = is_runnable p.state && is_earlier held p.ctime in
    elim (Bool-cases take) [
      | inl t ↦
          subst
            (λ b.
              Best i held (p ∷ ps)
                (find_earliest (i + 1) (if b then some (i, p.ctime) else held) ps))
            (sym t) (taken i held p ps _ t (find_earliest-Best (i + 1) (some (i, p.ctime)) ps))
      | inr f ↦
          subst
            (λ b.
              Best i held (p ∷ ps)
                (find_earliest (i + 1) (if b then some (i, p.ctime) else held) ps))
            (sym f) (passed i held p ps _ f (find_earliest-Best (i + 1) held ps))
    ]

-- A choice of FIFO.
pub data FifoChoice (ps : List Proc) : Option ℕ → Type 0 where
  idle : NoneRunnable ps → FifoChoice ps none
  oldest :
      (i : ℕ) (p : Proc)
      → get_elem? ps i ≡ some p
      → is_runnable p.state ≡ true
      → NoneOlder p.ctime ps
      → FifoChoice ps (some i)

Best-choice : (ps : List Proc) (r : Option ℕ) → Best 0 none ps r → FifoChoice ps r
Best-choice ps _ (nothing e n) = idle n
Best-choice ps _ (kept e c eq n) = cc
Best-choice ps _ (newer k j p eq get run first n) =
    let jk : k ≡ j = omega (arith, eq) in
    oldest j p (subst (λ k. get_elem? ps k ≡ some p) jk get) run n

started_of : (k : Kernel) (o : Option ℕ) → (start_fifo o k).0 ≡ o
started_of k none = refl
started_of k (some i) = refl

-- The FIFO scheduler chooses a runnable process such that no runnable process was created before
-- it, and it chooses none only when no process is runnable.
pub schedule_fifo-FifoChoice : (k : Kernel) → FifoChoice k.procs (schedule_fifo k).0
unfolding schedule_fifo
schedule_fifo-FifoChoice k =
    let chosen = find_earliest 0 none k.procs in
    subst (FifoChoice k.procs) (sym (started_of k chosen))
      (Best-choice k.procs chosen (find_earliest-Best 0 none k.procs))
