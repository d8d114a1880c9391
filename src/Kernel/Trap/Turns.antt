-- ===== src/Kernel/Trap/Turns.antt =====
-- Who runs after the end of a time slice in the last queue of MLFQ, xv6/kernel/trap.c and
-- xv6/kernel/proc.c.
use mini_project.Common.{
  ℕ, suc, ◌+◌, ◌-◌, ◌%◌, ◌<◌, Bool, true, false, none, some, List, [], ◌∷◌, ◌++◌, ◌≡◌, refl, sym,
  ap, ◌∙◌, arith, ◌==◌, leb, if◌then◌else◌, if_elim, All, All-append, length, get_elem?, find_index,
  modify,
}
use mini_project.Kernel.Proc.{Proc, Kernel, mlfq, is_runnable, with_proc, each, set_runnable, yield}
use mini_project.Kernel.Scheduler.{in_queue, or_next, find_queue, boost, start, schedule_mlfq}
use mini_project.Kernel.Scheduler.Mlfq.{is_between, NoneBetween, chosen_of}
use mini_project.Kernel.Trap.{
  add_rtime, add_wtime, account, slice_ends, use_tick, should_yield, yields, timer_tick,
}

-- Lists around one element.
module _ {A : Type 0} where
  get_elem?-append :
      (xs : List A) (x : A) (ys : List A) → get_elem? (xs ++ x ∷ ys) (length xs) ≡ some x
  unfolding get_elem?
  get_elem?-append [] x ys = refl
  get_elem?-append (y ∷ xs) x ys = get_elem?-append xs x ys

  modify-append :
      (f : A → A) (xs : List A) (x : A) (ys : List A)
      → modify (length xs) f (xs ++ x ∷ ys) ≡ xs ++ f x ∷ ys
  unfolding modify
  modify-append f [] x ys = refl
  modify-append f (y ∷ xs) x ys = ap (λ l. y ∷ l) (modify-append f xs x ys)

  find_index-append :
      (test : A → Bool) (xs : List A) (x : A) (ys : List A)
      → All (λ y. test y ≡ false) xs
      → test x ≡ true
      → find_index test (xs ++ x ∷ ys) ≡ some (length xs)
  unfolding find_index
  find_index-append test [] x ys h e = rw (e, if◌then◌else◌) refl
  find_index-append test (y ∷ xs) x ys h e =
      rw (h.0, if◌then◌else◌, find_index-append test xs x ys h.1 e) refl

  find_index-none :
      (test : A → Bool) (xs : List A) → All (λ y. test y ≡ false) xs → find_index test xs ≡ none
  unfolding find_index
  find_index-none test [] h = refl
  find_index-none test (y ∷ xs) h = rw (h.0, if◌then◌else◌, find_index-none test xs h.1) refl

length-each : (f : Proc → Proc) (ps : List Proc) → length (each f ps) ≡ length ps
length-each f [] = refl
length-each f (p ∷ ps) = ap suc (length-each f ps)

account-append :
    (front : List Proc) (p : Proc) (ps : List Proc)
    → account (length front) (front ++ p ∷ ps)
      ≡ each add_wtime front ++ add_rtime p ∷ each add_wtime ps
unfolding account
account-append [] p ps = refl
account-append (q ∷ front) p ps = ap (λ l. add_wtime q ∷ l) (account-append front p ps)

in_queue-add_wtime : (q : ℕ) (p : Proc) → in_queue q (add_wtime p) ≡ in_queue q p
unfolding add_wtime
in_queue-add_wtime q p =
    if_elim (λ (r : Proc). in_queue q r ≡ in_queue q p) (is_runnable p.state) refl refl

-- Nobody of a queue is runnable, also when the waiting has been counted.
not_in_queue :
    (q r : ℕ) (ps : List Proc)
    → q < r
    → NoneBetween 0 r ps
    → All (λ p. in_queue q p ≡ false) (each add_wtime ps)
not_in_queue q r [] l h = tt
not_in_queue q r (p ∷ ps) l h = (in_queue-add_wtime q p ∙ out p h.0, not_in_queue q r ps l h.1)
  where
    out : (p : Proc) → is_between 0 r p ≡ false → in_queue q p ≡ false
    out p h = ground arith

module _ (front : List Proc) (p : Proc) (ps : List Proc) (k : Kernel) where
  -- The process in its slot, between the others.
  abbrev pub placed : Kernel
  placed = record k { procs = front ++ p ∷ ps }

  -- What it is after the interrupt.
  abbrev spent : Proc
  spent = set_runnable (use_tick (add_rtime p))

  abbrev after_tick : List Proc
  after_tick = each add_wtime front ++ spent ∷ each add_wtime ps

  abbrev index : ℕ
  index = length front

  abbrev waited : List Proc
  waited = each add_wtime front

  abbrev counted : Proc → List Proc
  counted q = waited ++ q ∷ each add_wtime ps

  modify-index : (f : Proc → Proc) (q : Proc) → modify index f (counted q) ≡ counted (f q)
  modify-index f q =
      ap (λ n. modify n f (counted q)) (sym (length-each add_wtime front))
      ∙ modify-append f waited q (each add_wtime ps)

  get_elem?-index : (q : Proc) → get_elem? (counted q) index ≡ some q
  get_elem?-index q =
      ap (get_elem? (counted q)) (sym (length-each add_wtime front))
      ∙ get_elem?-append waited q (each add_wtime ps)

  abbrev with_procs : List Proc → Kernel
  with_procs l = record k { procs = l }

  -- What follows the counting.
  finish : Bool → List Proc → Kernel
  finish leaves l =
      if leaves
      then with_procs (modify index set_runnable (modify index use_tick l))
      else with_procs (modify index use_tick l)

  -- The interrupt that ends the slice.
  timer_tick-placed : slice_ends p ≡ true → timer_tick mlfq index placed ≡ with_procs after_tick
  unfolding timer_tick with_proc yield should_yield slice_ends add_rtime finish
  timer_tick-placed ends =
      ap (λ l. finish (yields mlfq l (get_elem? l index)) l) (account-append front p ps)
      ∙ ap (λ o. finish (yields mlfq (counted (add_rtime p)) o) (counted (add_rtime p)))
          (get_elem?-index (add_rtime p))
      ∙ rw (ends, if◌then◌else◌) refl
      ∙ ap (λ l. with_procs (modify index set_runnable l)) (modify-index use_tick (add_rtime p))
      ∙ ap with_procs (modify-index set_runnable (use_tick (add_rtime p)))

  not_due :
      (l : List Proc)
      → (k.ticks + (4294967296 - k.ticks_since_boost)) % 4294967296 < 48
      → boost (with_procs l) ≡ with_procs l
  unfolding boost
  not_due l early =
      let due : leb 48 ((k.ticks + (4294967296 - k.ticks_since_boost)) % 4294967296) ≡ false =
        ground (arith, early) in
      rw (due, if◌then◌else◌) refl

  -- The last queue has no queue below it.
  spent_stays : p.priority ≡ 3 → slice_ends p ≡ true → (use_tick (add_rtime p)).priority ≡ 3
  unfolding use_tick add_rtime slice_ends
  spent_stays last ends = rw (ends, last, if◌then◌else◌) refl

  find_queue-after_tick :
      (use_tick (add_rtime p)).priority ≡ 3
      → NoneBetween 0 4 front
      → NoneBetween 0 3 ps
      → find_queue 4 0 after_tick ≡ some index
  unfolding find_queue
  find_queue-after_tick stays before behind =
      ap (λ o. or_next o (find_queue 3 1 after_tick)) (above 0 (omega arith) refl)
      ∙ ap (λ o. or_next o (find_queue 2 2 after_tick)) (above 1 (omega arith) refl)
      ∙ ap (λ o. or_next o (find_queue 1 3 after_tick)) (above 2 (omega arith) refl)
      ∙ ap (λ o. or_next o none)
          (find_index-append (in_queue 3) waited spent (each add_wtime ps)
              (not_in_queue 3 4 front (omega arith) before) (ap (λ n. n == 3) stays)
            ∙ ap some (length-each add_wtime front))
    where
      above : (q : ℕ) → q < 3 → 3 == q ≡ false → find_index (in_queue q) after_tick ≡ none
      above q l other = find_index-none (in_queue q) after_tick (
          All-append (λ r. in_queue q r ≡ false) waited (spent ∷ each add_wtime ps)
            (not_in_queue q 4 front (omega (arith, l)) before)
            (ap (λ n. n == q) stays ∙ other, not_in_queue q 3 ps l behind))

  -- Nobody else of the last queue comes to run: when the slice of a process in the last queue ends,
  -- no boost is due, no process in a slot before it is runnable and none behind it in a queue above
  -- the last, the scheduler takes the same process again, whatever waits behind it in the last queue.
  pub timer_tick-schedule_mlfq :
      p.priority ≡ 3
      → slice_ends p ≡ true
      → NoneBetween 0 4 front
      → NoneBetween 0 3 ps
      → (k.ticks + (4294967296 - k.ticks_since_boost)) % 4294967296 < 48
      → (schedule_mlfq (timer_tick mlfq index placed)).0 ≡ some index
  unfolding schedule_mlfq
  timer_tick-schedule_mlfq last ends before behind early =
      let k' = with_procs after_tick in
      let found = find_queue-after_tick (spent_stays last ends) before behind in
      ap (λ k''. (schedule_mlfq k'').0) (timer_tick-placed ends)
      ∙ ap (λ k''. (start (find_queue 4 0 k''.procs) k'').0) (not_due after_tick early)
      ∙ chosen_of k' (find_queue 4 0 k'.procs)
      ∙ found
