-- ===== src/Shell/Snoop/Report.antt =====
-- What `snoop` of c-shell/src/snoop.c reports of a traced process.
use mathlib.Core.List.{Perm}
use mini_project.Common.{
  ℕ, ◌+◌, true, false, Option, none, some, List, [], ◌∷◌, ◌≡◌, refl, sym, ◌∙◌, arith, ltb,
  if◌then◌else◌, if_cases, if_elim, length, any, All, sort_by-perm, sort_by-IsSortedBy, IsSortedBy,
}
use mini_project.Shell.Snoop.{
  SysStat, max_syscalls, Stop, untraceable, gone, other_stop, trap, Trace, is_of, add_syscall_time,
  is_call, on_trap, trace_loop, stat_le, trace_start, trace_report,
}
use mini_project.Shell.Snoop.Counts.{count, call_of, finished_calls, Counts, bump, add-Counts}

stat_le-total : {D : Type 0} (a b : SysStat D) → stat_le a b ≡ false → stat_le b a ≡ true
stat_le-total a b h = ground arith

stat_le_trans :
    {D : Type 0} (a b c : SysStat D) → stat_le a b ≡ true → stat_le b c ≡ true → stat_le a c ≡ true
stat_le_trans a b c h k = ground arith

module _ {D : Type 0} where
  pub Counts-ext :
      (f g : ℕ → ℕ) (sts : List (SysStat D)) → ((n : ℕ) → f n ≡ g n) → Counts f sts → Counts g sts
  Counts-ext f g sts e c = record {
    right = right-ext sts c.right;
    complete = λ n absent room. sym (e n) ∙ c.complete n absent room;
    bounded = c.bounded;
    distinct = c.distinct;
  }
    where
      right-ext :
          (sts : List (SysStat D))
          → All (λ st. st.calls ≡ f st.sys_num) sts
          → All (λ st. st.calls ≡ g st.sys_num) sts
      right-ext [] h = tt
      right-ext (st ∷ sts) h = (h.0 ∙ e st.sys_num, right-ext sts h.1)

  module _ (elapsed plus : D → D → D) where
    recorded : (ℕ → ℕ) → List (Stop D) → Option (ℕ × D) → ℕ → ℕ
    recorded f stops entry n = f n + count n (finished_calls stops entry)

    add-entry :
        (num : ℕ) (duration : D) (t : Trace D)
        → (add_syscall_time elapsed plus num duration t).entry ≡ t.entry
    unfolding add_syscall_time
    add-entry num duration t =
        if_elim (λ (u : Trace D). u.entry ≡ t.entry) (any (is_of num) t.sys_stats) refl
          (if_elim (λ (u : Trace D). u.entry ≡ t.entry) (ltb (length t.sys_stats) max_syscalls) refl
            refl)

    -- What is known of the loop over the rest of the stops.
    abbrev Later : List (Stop D) → Type 0
    Later stops =
        (u : Trace D) (g : ℕ → ℕ)
        → Counts g u.sys_stats
        → Counts (recorded g stops u.entry) (trace_loop elapsed plus stops u).sys_stats

    trap-Counts :
        (num : ℕ) (now : D) (stops : List (Stop D)) (entry : Option (ℕ × D)) (t : Trace D)
        (f : ℕ → ℕ)
        → Later stops
        → Counts f t.sys_stats
        → Counts
            (recorded f (trap (some (num, now)) ∷ stops) entry)
            (trace_loop elapsed plus stops (on_trap elapsed plus num now entry t)).sys_stats
    unfolding recorded
    trap-Counts num now stops none t f later c = later (record t { entry = some (num, now) }) f c
    trap-Counts num now stops (some (current, start)) t f later c =
        let t' = record t { entry = none } in
        let duration = elapsed now start in
        let whole : ℕ → ℕ = λ n. f n + count n (call_of current (finished_calls stops none)) in
        if_cases (λ (u : Trace D). Counts whole (trace_loop elapsed plus stops u).sys_stats)
          (is_call current) (add_syscall_time elapsed plus current duration t') t'
          (λ e.
            Counts-ext _ whole _
              (λ n. rw (add-entry current duration t', e, if◌then◌else◌) (omega arith))
              (later (add_syscall_time elapsed plus current duration t') (bump current f)
                (add-Counts elapsed plus current duration f t' c)))
          (λ e. Counts-ext _ whole _ (λ n. rw (e, if◌then◌else◌) refl) (later t' f c))

    trace_loop-Counts : (stops : List (Stop D)) → Later stops
    unfolding trace_loop recorded
    trace_loop-Counts [] t f c = Counts-ext f _ t.sys_stats (λ n. omega arith) c
    trace_loop-Counts (untraceable ∷ stops) t f c = Counts-ext f _ t.sys_stats (λ n. omega arith) c
    trace_loop-Counts (gone ∷ stops) t f c = Counts-ext f _ t.sys_stats (λ n. omega arith) c
    trace_loop-Counts (other_stop ∷ stops) t f c = trace_loop-Counts stops t f c
    trace_loop-Counts (trap none ∷ stops) t f c = trace_loop-Counts stops t f c
    trace_loop-Counts (trap (some (num, now)) ∷ stops) t f c =
        trap-Counts num now stops t.entry t f (trace_loop-Counts stops) c

    -- The report is an order of a table that has one entry for each number and at most 1,024
    -- entries: more calls first, and at the same number of calls the one that was seen first. An
    -- entry tells how many pairs of stops, taken in turns from the first, began with its number,
    -- and a number that has no entry in a table that is not full has begun none.
    pub trace_report-Counts :
        (stops : List (Stop D))
        → (sts : List (SysStat D)) × Perm (trace_report elapsed plus stops) sts
          × IsSortedBy stat_le (trace_report elapsed plus stops)
          × Counts (λ n. count n (finished_calls stops none)) sts
    unfolding trace_report recorded
    trace_report-Counts stops =
        let sts = (trace_loop elapsed plus stops trace_start).sys_stats in
        (
          sts,
          sort_by-perm stat_le sts,
          sort_by-IsSortedBy stat_le stat_le-total stat_le_trans sts,
          Counts-ext _ _ sts (λ n. omega arith)
              (trace_loop-Counts stops trace_start (λ n. 0)
                (record {
                  right = tt;
                  complete = λ n absent room. refl;
                  bounded = omega arith;
                  distinct = tt;
                })),
        )
