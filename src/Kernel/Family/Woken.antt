-- ===== src/Kernel/Family/Woken.antt =====
-- What `kexit` of xv6/kernel/proc.c makes of the parent that waits for the process.
use mathlib.Core.Option
use mini_project.Common.{
  ℕ, zero, suc, true, false, some, List, [], ◌∷◌, ◌≡◌, ◌≢◌, ◌⊎◌, inl, inr, refl, sym, ap, ◌∙◌, ◌==◌,
  ==_iff, if◌then◌else◌, if_elim, if_cases, any, Bool-cases, get_elem?, modify,
}
use mini_project.Kernel.Proc.{
  ProcState, unused, used, sleeping, runnable, running, zombie, Proc, Kernel, is_sleeping, wake_one,
  rouse, each, wakeup, is_child, pass_on, reparent,
}
use mini_project.Kernel.Proc.Wakeups.{get_elem?-each}

-- The state after being woken: a sleeper becomes runnable.
unfoldable pub woken_state : ProcState → ProcState
woken_state sleeping = runnable
woken_state s = s

woken_twice : (s : ProcState) → woken_state (woken_state s) ≡ woken_state s
unfolding woken_state
woken_twice sleeping = refl
woken_twice unused = refl
woken_twice used = refl
woken_twice runnable = refl
woken_twice running = refl
woken_twice zombie = refl

woken_other : (s : ProcState) → is_sleeping s ≡ false → woken_state s ≡ s
unfolding woken_state
woken_other sleeping h = cc
woken_other unused h = refl
woken_other used h = refl
woken_other runnable h = refl
woken_other running h = refl
woken_other zombie h = refl

rouse-state : (p : Proc) → (rouse p).state ≡ woken_state p.state
unfolding woken_state
rouse-state p = go p.state
  where
    go :
        (s : ProcState)
        → (if is_sleeping s then record p { state = runnable } else record p { state = s }).state
          ≡ woken_state s
    go sleeping = refl
    go unused = refl
    go used = refl
    go runnable = refl
    go running = refl
    go zombie = refl

-- The process in a slot, with a property of it.
abbrev pub At : (Proc → Type 0) → ℕ → List Proc → Type 0
At P i ps = (p : Proc) × (get_elem? ps i ≡ some p) × P p

each-At :
    (P Q : Proc → Type 0) (f : Proc → Proc) (i : ℕ) (ps : List Proc)
    → ((p : Proc) → P p → Q (f p))
    → At P i ps
    → At Q i (each f ps)
each-At P Q f i ps h (p, e, q) = (f p, get_elem?-each f ps i ∙ ap (Option.map f) e, h p q)

pub get_elem?-modify_other :
    (i c : ℕ) (f : Proc → Proc) (ps : List Proc)
    → i ≢ c
    → get_elem? (modify c f ps) i ≡ get_elem? ps i
unfolding get_elem? modify
get_elem?-modify_other i c f [] h = refl
get_elem?-modify_other zero zero f (p ∷ ps) h = elim (h refl) [ ]
get_elem?-modify_other zero (suc c) f (p ∷ ps) h = refl
get_elem?-modify_other (suc i) zero f (p ∷ ps) h = refl
get_elem?-modify_other (suc i) (suc c) f (p ∷ ps) h =
    get_elem?-modify_other i c f ps (λ e. h (ap suc e))

-- `m` is the process in a slot at first, and sleeps, if it does, on `chan`.
module _ (chan : ℕ) (m : Proc) where
  -- It has been woken, or is as it was.
  abbrev Follows : Proc → Type 0
  Follows p =
      (p.state ≡ woken_state m.state)
      ⊎ ((p.state ≡ m.state) × (is_sleeping m.state ≡ true → p.chan ≡ chan))

  roused : (p : Proc) → Follows p → woken_state p.state ≡ woken_state m.state
  roused p (inl e) = ap woken_state e ∙ woken_twice m.state
  roused p (inr (e, h)) = ap woken_state e

  wake_one-Follows : (other : ℕ) (p : Proc) → Follows p → Follows (wake_one other p)
  unfolding wake_one
  wake_one-Follows other p h =
      if_elim Follows (p.chan == other) (inl (rouse-state (record p { chan = 0 }) ∙ roused p h)) h

  wake_one-woken : (p : Proc) → Follows p → (wake_one chan p).state ≡ woken_state m.state
  unfolding wake_one
  wake_one-woken p h =
      if_cases (λ (q : Proc). q.state ≡ woken_state m.state) (p.chan == chan)
        (rouse (record p { chan = 0 })) p (λ e. rouse-state (record p { chan = 0 }) ∙ roused p h)
        (λ e. left p h e)
    where
      left : (p : Proc) → Follows p → (p.chan == chan) ≡ false → p.state ≡ woken_state m.state
      left p (inl s) e = s
      left p (inr (s, there)) e = elim (Bool-cases (is_sleeping m.state)) [
        | inl z ↦ let here : (p.chan == chan) ≡ true = (==_iff p.chan chan).1 (there z) in cc
        | inr z ↦ s ∙ sym (woken_other m.state z)
      ]

  pass_on-Follows : (c init : ℕ) (p : Proc) → Follows p → Follows (pass_on c init p)
  pass_on-Follows c init p h = if_elim Follows (is_child c p) h h

  module _ (i : ℕ) where
    wakeup-Follows :
        (other : ℕ) (k : Kernel) → At Follows i k.procs → At Follows i (wakeup other k).procs
    unfolding wakeup
    wakeup-Follows other k h =
        each-At Follows Follows (wake_one other) i k.procs (wake_one-Follows other) h

    pub reparent-Follows :
        (c init other : ℕ) (k : Kernel)
        → At Follows i k.procs
        → At Follows i (reparent c init other k).procs
    unfolding reparent
    reparent-Follows c init other k h =
        let passed =
          each-At Follows Follows (pass_on c init) i k.procs (pass_on-Follows c init) h in
        if_elim (λ (l : Kernel). At Follows i l.procs) (any (is_child c) k.procs)
          (wakeup-Follows other (record k { procs = each (pass_on c init) k.procs }) passed) passed

    -- The wakeup on its channel.
    pub wakeup-woken :
        (k : Kernel)
        → At Follows i k.procs
        → At (λ p. p.state ≡ woken_state m.state) i (wakeup chan k).procs
    unfolding wakeup
    wakeup-woken k h =
        each-At Follows (λ p. p.state ≡ woken_state m.state) (wake_one chan) i k.procs
          wake_one-woken h
