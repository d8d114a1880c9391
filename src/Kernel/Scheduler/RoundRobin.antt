-- ===== src/Kernel/Scheduler/RoundRobin.antt =====
-- When the round robin scheduler of xv6/kernel/proc.c lets the processor wait.
use mini_project.Common.{
  ℕ, zero, suc, ◌+◌, ◌<◌, true, false, ◌≡◌, refl, ap, subst, sym, ◌∙◌, inl, inr, arith, Bool-cases,
  get_elem?, if◌then◌else◌,
}
use mini_project.Kernel.Proc.{Kernel, with_proc}
use mini_project.Kernel.Scheduler.{set_running, visit, round_robin_pass}

module _ (run : ℕ → Kernel → Kernel) where
  abbrev IsIdle : ℕ → ℕ → Kernel → Type 0
  IsIdle zero i k = Unit
  IsIdle (suc n) i k = (visit (get_elem? k.procs i) ≡ false) × IsIdle n (i + 1) k

  pass-IsIdle :
      (n i : ℕ) (k : Kernel)
      → (round_robin_pass run n i k).0 ≡ false
      → ((round_robin_pass run n i k).1 ≡ k) × IsIdle n i k
  unfolding round_robin_pass
  pass-IsIdle zero i k h = (refl, tt)
  pass-IsIdle (suc n) i k h = elim (Bool-cases (visit (get_elem? k.procs i))) [
    | inl t ↦ ground arith
    | inr f ↦
        let l = if visit (get_elem? k.procs i) then run i (with_proc i set_running k) else k in
        let same_kernel : l ≡ k = ap (λ b. if b then run i (with_proc i set_running k) else k) f in
        let rest : (round_robin_pass run n (i + 1) l).0 ≡ false =
          sym (ap (λ b. if b then true else (round_robin_pass run n (i + 1) l).0) f) ∙ h in
        let (e, idle) = pass-IsIdle n (i + 1) l rest in
        (e ∙ same_kernel, (f, subst (IsIdle n (i + 1)) same_kernel idle))
  ]

  IsIdle-at :
      (n i m : ℕ) (k : Kernel) → IsIdle n i k → m < n → visit (get_elem? k.procs (i + m)) ≡ false
  IsIdle-at zero i m k h b = elim (nothing_below m b) [ ]
    where
      nothing_below : (m : ℕ) → ¬ (m < 0)
      nothing_below m = omega arith
  IsIdle-at (suc n) i zero k h b =
      subst (λ j. visit (get_elem? k.procs j) ≡ false) (omega arith) h.0
  IsIdle-at (suc n) i (suc m) k h b =
      subst (λ j. visit (get_elem? k.procs j) ≡ false) (omega arith)
        (IsIdle-at n (i + 1) m k h.1 (omega (arith, b)))

-- When a pass over the 64 slots finds no process to run, no slot holds a runnable process, and the
-- pass has changed nothing; this holds whatever running a process does.
pub round_robin_pass-idle :
    (run : ℕ → Kernel → Kernel) (k : Kernel) (m : ℕ)
    → (round_robin_pass run 64 0 k).0 ≡ false
    → m < 64
    → ((round_robin_pass run 64 0 k).1 ≡ k) × (visit (get_elem? k.procs m) ≡ false)
round_robin_pass-idle run k m h b =
    let (e, idle) = pass-IsIdle run 64 0 k h in
    (
      e,
      subst (λ j. visit (get_elem? k.procs j) ≡ false) (omega arith)
          (IsIdle-at run 64 0 m k idle b),
    )
