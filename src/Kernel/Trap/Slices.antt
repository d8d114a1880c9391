-- ===== src/Kernel/Trap/Slices.antt =====
-- How long a process keeps its queue and the processor under MLFQ, xv6/kernel/trap.c.
use mini_project.Common.{
  ℕ, zero, suc, ◌+◌, ◌<◌, ◌≤◌, true, false, List, [], ◌∷◌, ◌≡◌, ◌↔◌, refl, ap, ◌∙◌, arith, ltb,
  if◌then◌else◌, All, any, Bool-cases, inl, inr,
}
use mini_project.Kernel.Proc.{Proc}
use mini_project.Kernel.Scheduler.{in_queue}
use mini_project.Kernel.Scheduler.Mlfq.{is_between, NoneBetween, none_more, none_at}
use mini_project.Kernel.Trap.{slice_ticks, slice_ends, use_tick, any_above, should_yield}

-- `n` timer interrupts in which the process runs.
unfoldable pub use_ticks : ℕ → Proc → Proc
unfolding use_tick
use_ticks zero p = p
use_ticks (suc n) p = use_tick (use_ticks n p)

use_tick_short :
    (p : Proc)
    → p.ticks_used + 1 < slice_ticks p.priority
    → use_tick p ≡ record p { ticks_used = p.ticks_used + 1 }
unfolding use_tick slice_ends
use_tick_short p h = ground arith

use_ticks_short :
    (p : Proc) (n : ℕ)
    → p.ticks_used + n < slice_ticks p.priority
    → use_ticks n p ≡ record p { ticks_used = p.ticks_used + n }
unfolding use_ticks
use_ticks_short p zero h = ap (λ m. record p { ticks_used = m }) (omega arith)
use_ticks_short p (suc n) h =
    ap use_tick (use_ticks_short p n (omega (arith, h)))
    ∙ use_tick_short (record p { ticks_used = p.ticks_used + n }) (omega (arith, h))
    ∙ ap (λ m. record p { ticks_used = m }) (omega arith)

-- The queue below, or the last one again.
abbrev pub below : ℕ → ℕ
below q = if ltb q 3 then q + 1 else q

use_tick_last :
    (p : Proc)
    → p.ticks_used + 1 ≡ slice_ticks p.priority
    → use_tick p ≡ record p { ticks_used = 0; priority = below p.priority }
unfolding use_tick slice_ends
use_tick_last p h = ground arith

-- A process at the start of its time slice stays in its queue while it uses fewer ticks than the
-- slice has, and the tick that completes the slice moves it to the queue below, or leaves it in
-- the last one, at the start of a slice.
pub use_ticks-slice :
    (p : Proc) (n m : ℕ)
    → p.ticks_used ≡ 0
    → n + 1 ≡ slice_ticks p.priority
    → m ≤ n
    → (use_ticks m p ≡ record p { ticks_used = m })
      × (use_ticks (suc n) p ≡ record p { ticks_used = 0; priority = below p.priority })
unfolding use_ticks
use_ticks-slice p n m z e h = (
  use_ticks_short p m (omega (arith, z, e, h))
      ∙ ap (λ m. record p { ticks_used = m }) (omega (arith, z)),
  ap use_tick (use_ticks_short p n (omega (arith, z, e)))
      ∙ use_tick_last (record p { ticks_used = p.ticks_used + n }) (omega (arith, z, e)),
)

any-none :
    (q : ℕ) (ps : List Proc) → any (in_queue q) ps ≡ false → All (λ p. in_queue q p ≡ false) ps
unfolding any
any-none q [] h = tt
any-none q (p ∷ ps) h = elim (Bool-cases (in_queue q p)) [
  | inl t ↦ ground arith
  | inr f ↦ (f, any-none q ps (ground arith))
]

none-any :
    (q : ℕ) (ps : List Proc) → All (λ p. in_queue q p ≡ false) ps → any (in_queue q) ps ≡ false
unfolding any
none-any q [] h = refl
none-any q (p ∷ ps) h = ap (λ b. if b then true else any (in_queue q) ps) h.0 ∙ none-any q ps h.1

none_fewer :
    (q r : ℕ) (ps : List Proc)
    → q < r
    → NoneBetween q r ps
    → All (λ p. in_queue q p ≡ false) ps × NoneBetween (q + 1) r ps
none_fewer q r [] b h = (tt, tt)
none_fewer q r (p ∷ ps) b h =
    let rest = none_fewer q r ps b h.1 in ((here p h.0, rest.0), (later p h.0, rest.1))
  where
    here : (p : Proc) → is_between q r p ≡ false → in_queue q p ≡ false
    here p k = ground arith

    later : (p : Proc) → is_between q r p ≡ false → is_between (q + 1) r p ≡ false
    later p k = ground arith

any_above-none :
    (n q r : ℕ) (ps : List Proc) → q + n ≡ r → any_above n q ps ≡ false → NoneBetween q r ps
unfolding any_above
any_above-none zero q r ps e h = none_at q r ps (omega (arith, e))
any_above-none (suc n) q r ps e h = elim (Bool-cases (any (in_queue q) ps)) [
  | inl t ↦ ground arith
  | inr f ↦
      none_more q r ps (any-none q ps f)
        (any_above-none n (q + 1) r ps (omega (arith, e)) (ground arith))
]

none-any_above :
    (n q r : ℕ) (ps : List Proc) → q + n ≡ r → NoneBetween q r ps → any_above n q ps ≡ false
unfolding any_above
none-any_above zero q r ps e h = refl
none-any_above (suc n) q r ps e h =
    let (here, later) = none_fewer q r ps (omega (arith, e)) h in
    ap (λ b. if b then true else any_above n (q + 1) ps) (none-any q ps here)
    ∙ none-any_above n (q + 1) r ps (omega (arith, e)) later

-- A process keeps the processor at a timer interrupt exactly when this tick does not complete its
-- time slice and no process is runnable in a queue above its own.
pub should_yield-false_iff :
    (ps : List Proc) (p : Proc)
    → (should_yield ps p ≡ false)
      ↔ ((p.ticks_used + 1 < slice_ticks p.priority) × NoneBetween 0 p.priority ps)
unfolding should_yield slice_ends
should_yield-false_iff ps p =
    (keeps, λ h. stays h.0 (none-any_above p.priority 0 p.priority ps (omega arith) h.1))
  where
    keeps :
        should_yield ps p ≡ false
        → (p.ticks_used + 1 < slice_ticks p.priority) × NoneBetween 0 p.priority ps
    keeps h = (ground arith, any_above-none p.priority 0 p.priority ps (omega arith) (ground arith))

    stays :
        p.ticks_used + 1 < slice_ticks p.priority
        → any_above p.priority 0 ps ≡ false
        → should_yield ps p ≡ false
    stays h k = ground arith
