-- ===== src/Shell/Snoop/Counts.antt =====
-- What the statistics of c-shell/src/snoop.c count.
use mini_project.Common.{
  ℕ, suc, ◌+◌, ◌≤◌, ◌<◌, Bool, true, false, Option, none, some, List, [], ◌∷◌, ◌++◌, ◌≡◌, refl, sym,
  ap, ◌∙◌, arith, ◌==◌, ==_iff, ltb, if◌then◌else◌, if_cases, Bool-cases, inl, inr, length,
  length-append, any, update_first, All, All-append, subst,
}
use mini_project.Shell.Snoop.{
  SysStat, max_syscalls, Stop, untraceable, gone, other_stop, trap, Trace, is_of, count_call,
  new_stat, add_syscall_time, is_call,
}

-- How often a number stands in a list.
abbrev pub one_if : Bool → ℕ
one_if b = if b then 1 else 0

abbrev pub count : ℕ → List ℕ → ℕ
count n [] = 0
count n (m ∷ ms) = one_if (m == n) + count n ms

abbrev pub bump : ℕ → (ℕ → ℕ) → ℕ → ℕ
bump num f n = f n + one_if (num == n)

abbrev pub call_of : ℕ → List ℕ → List ℕ
call_of num rest = if is_call num then num ∷ rest else rest

module _ {D : Type 0} where
  -- The numbers at the first stop of each pair, in order.
  abbrev pub finished_calls : List (Stop D) → Option (ℕ × D) → List ℕ
  finished_calls [] entry = []
  finished_calls (untraceable ∷ stops) entry = []
  finished_calls (gone ∷ stops) entry = []
  finished_calls (other_stop ∷ stops) entry = finished_calls stops entry
  finished_calls (trap none ∷ stops) entry = finished_calls stops entry
  finished_calls (trap (some call) ∷ stops) none = finished_calls stops (some call)
  finished_calls (trap (some call) ∷ stops) (some entry) =
      call_of entry.0 (finished_calls stops none)

  -- Each system call has one entry.
  abbrev pub Distinct : List (SysStat D) → Type 0
  Distinct [] = Unit
  Distinct (st ∷ sts) = All (λ u. (u.sys_num == st.sys_num) ≡ false) sts × Distinct sts

  -- `f` tells how often each number has been recorded.
  pub record Counts (f : ℕ → ℕ) (sts : List (SysStat D)) : Type 0 where
    pub right : All (λ st. st.calls ≡ f st.sys_num) sts
    pub complete : (n : ℕ) → any (is_of n) sts ≡ false → length sts < max_syscalls → f n ≡ 0
    pub bounded : length sts ≤ max_syscalls
    pub distinct : Distinct sts

  any-false_at :
      (n : ℕ) (st : SysStat D) (sts : List (SysStat D)) (b : Bool)
      → b ≡ (st.sys_num == n)
      → (if b then true else any (is_of n) sts) ≡ false
      → ((st.sys_num == n) ≡ false) × (any (is_of n) sts ≡ false)
  any-false_at n st sts true e h = cc
  any-false_at n st sts false e h = (sym e, h)

  any-false :
      (n : ℕ) (sts : List (SysStat D))
      → any (is_of n) sts ≡ false
      → All (λ st. (st.sys_num == n) ≡ false) sts
  unfolding any
  any-false n [] h = tt
  any-false n (st ∷ sts) h =
      let (here, more) = any-false_at n st sts (st.sys_num == n) refl h in
      (here, any-false n sts more)

  -- The numbers in a list of entries.
  abbrev nums : List (SysStat D) → List ℕ
  nums [] = []
  nums (st ∷ sts) = st.sys_num ∷ nums sts

  module _ (elapsed plus : D → D → D) (num : ℕ) (duration : D) (f : ℕ → ℕ) where
    apart-right :
        (sts : List (SysStat D))
        → All (λ st. (st.sys_num == num) ≡ false) sts
        → All (λ st. st.calls ≡ f st.sys_num) sts
        → All (λ st. st.calls ≡ bump num f st.sys_num) sts
    apart-right [] a h = tt
    apart-right (st ∷ sts) a h =
        let apart = a.0 in let same = h.0 in (ground arith, apart-right sts a.1 h.1)

    updated-right :
        (sts : List (SysStat D))
        → Distinct sts
        → All (λ st. st.calls ≡ f st.sys_num) sts
        → All
            (λ st. st.calls ≡ bump num f st.sys_num)
            (update_first (is_of num) (count_call elapsed plus duration) sts)
    unfolding update_first
    updated-right [] d h = tt
    updated-right (st ∷ sts) d h = elim (Bool-cases (st.sys_num == num)) [
      | inl e ↦
          let same = h.0 in
          let apart =
            subst (λ n. All (λ u. (u.sys_num == n) ≡ false) sts) ((==_iff st.sys_num num).0 e)
              d.0 in
          rw (e, if◌then◌else◌) (ground arith, apart-right sts apart h.1)
      | inr e ↦ let same = h.0 in rw (e, if◌then◌else◌) (ground arith, updated-right sts d.1 h.1)
    ]

    abbrev update : List (SysStat D) → List (SysStat D)
    update sts = update_first (is_of num) (count_call elapsed plus duration) sts

    any-update : (n : ℕ) (sts : List (SysStat D)) → any (is_of n) (update sts) ≡ any (is_of n) sts
    unfolding update_first any
    any-update n [] = refl
    any-update n (st ∷ sts) = elim (Bool-cases (st.sys_num == num)) [
      | inl e ↦ rw (e, if◌then◌else◌) refl
      | inr e ↦
          rw (e, if◌then◌else◌) (ap (λ b. if st.sys_num == n then true else b) (any-update n sts))
    ]

    length-update : (sts : List (SysStat D)) → length (update sts) ≡ length sts
    unfolding update_first
    length-update [] = refl
    length-update (st ∷ sts) = elim (Bool-cases (st.sys_num == num)) [
      | inl e ↦ rw (e, if◌then◌else◌) refl
      | inr e ↦ rw (e, if◌then◌else◌) (ap suc (length-update sts))
    ]

    apart-update :
        (n : ℕ) (sts : List (SysStat D))
        → All (λ u. (u.sys_num == n) ≡ false) sts
        → All (λ u. (u.sys_num == n) ≡ false) (update sts)
    unfolding update_first
    apart-update n [] h = tt
    apart-update n (st ∷ sts) h = elim (Bool-cases (st.sys_num == num)) [
      | inl e ↦ rw (e, if◌then◌else◌) h
      | inr e ↦ rw (e, if◌then◌else◌) (h.0, apart-update n sts h.1)
    ]

    Distinct-update : (sts : List (SysStat D)) → Distinct sts → Distinct (update sts)
    unfolding update_first
    Distinct-update [] d = tt
    Distinct-update (st ∷ sts) d = elim (Bool-cases (st.sys_num == num)) [
      | inl e ↦ rw (e, if◌then◌else◌) d
      | inr e ↦ rw (e, if◌then◌else◌) (apart-update st.sys_num sts d.0, Distinct-update sts d.1)
    ]

    any-append :
        (n : ℕ) (sts : List (SysStat D)) (st : SysStat D)
        → any (is_of n) (sts ++ st ∷ []) ≡ false
        → (any (is_of n) sts ≡ false) × ((st.sys_num == n) ≡ false)
    unfolding any
    any-append n [] st h =
        let (here, more) = any-false_at n st [] (st.sys_num == n) refl h in (refl, here)
    any-append n (u ∷ sts) st h =
        let (here, more) = any-false_at n u (sts ++ st ∷ []) (u.sys_num == n) refl h in
        let (old, new) = any-append n sts st more in (rw (here, if◌then◌else◌) old, new)

    Distinct-append :
        (sts : List (SysStat D)) (st : SysStat D)
        → Distinct sts
        → All (λ u. (u.sys_num == st.sys_num) ≡ false) sts
        → Distinct (sts ++ st ∷ [])
    Distinct-append [] st d h = (tt, tt)
    Distinct-append (u ∷ sts) st d h =
        let apart = h.0 in
        let flipped : (st.sys_num == u.sys_num) ≡ false = ground arith in
        (
          All-append (λ v. (v.sys_num == u.sys_num) ≡ false) sts (st ∷ []) d.0 (flipped, tt),
          Distinct-append sts st d.1 h.1,
        )

    tracked-apart :
        (sts : List (SysStat D)) (n : ℕ)
        → any (is_of num) sts ≡ true
        → any (is_of n) sts ≡ false
        → (num == n) ≡ false
    tracked-apart sts n h k = elim (Bool-cases (num == n)) [
      | inl e ↦
          let same : any (is_of num) sts ≡ any (is_of n) sts =
            ap (λ m. any (is_of m) sts) ((==_iff num n).0 e) in
          cc
      | inr e ↦ e
    ]

    appended-Counts :
        (order : ℕ) (sts : List (SysStat D))
        → Counts f sts
        → any (is_of num) sts ≡ false
        → length sts < max_syscalls
        → Counts (bump num f) (sts ++ new_stat num duration order ∷ [])
    appended-Counts order sts c untracked room =
        let st = new_stat num duration order in
        let apart = any-false num sts untracked in
        let first = c.complete num untracked room in
        let more = length-append sts (st ∷ []) in
        record {
          right =
              All-append (λ u. u.calls ≡ bump num f u.sys_num) sts (st ∷ [])
                (apart-right sts apart c.right) ((ground arith), tt);
          complete = λ n absent still.
              let (old, new) = any-append n sts st absent in
              let none = c.complete n old room in ground arith;
          bounded = omega (arith, more, room);
          distinct = Distinct-append sts st c.distinct apart;
        }

    pub add-Counts :
        (t : Trace D)
        → Counts f t.sys_stats
        → Counts (bump num f) (add_syscall_time elapsed plus num duration t).sys_stats
    unfolding add_syscall_time
    add-Counts t c =
        if_cases (λ (u : Trace D). Counts (bump num f) u.sys_stats) (any (is_of num) t.sys_stats) _
          _
          (λ tracked. record {
            right = updated-right t.sys_stats c.distinct c.right;
            complete = λ n untracked room.
                let absent = sym (any-update n t.sys_stats) ∙ untracked in
                let apart = tracked-apart t.sys_stats n tracked absent in
                let none = c.complete n absent (omega (arith, length-update t.sys_stats, room)) in
                ground arith;
            bounded = omega (arith, length-update t.sys_stats, c.bounded);
            distinct = Distinct-update t.sys_stats c.distinct;
          })
          (λ untracked.
            if_cases (λ (u : Trace D). Counts (bump num f) u.sys_stats)
              (ltb (length t.sys_stats) max_syscalls) _ _
              (λ room. appended-Counts t.first_seen_counter t.sys_stats c untracked (ground arith))
              (λ full. record {
                right = apart-right t.sys_stats (any-false num t.sys_stats untracked) c.right;
                complete = λ n absent room. ground arith;
                bounded = c.bounded;
                distinct = c.distinct;
              }))
