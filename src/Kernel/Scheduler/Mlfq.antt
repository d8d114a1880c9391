-- ===== src/Kernel/Scheduler/Mlfq.antt =====
-- Which process the MLFQ scheduler of xv6/kernel/proc.c chooses.
use mini_project.Common.{
  ◌-◌, ◌%◌, ap, if◌then◌else◌, ℕ, zero, suc, ◌+◌, ◌<◌, Bool, true, false, ◌&&◌, Option, none, some,
  List, [], ◌∷◌, ◌≡◌, refl, sym, subst, arith, ltb, leb, All, Found, find_index-Found, find_index,
  get_elem?,
}
use mini_project.Kernel.Proc.{Proc, Kernel, is_runnable, each}
use mini_project.Kernel.Scheduler.{
  in_queue, or_next, find_queue, boost_proc, boost, start, schedule_mlfq,
}

-- A runnable process in one of the queues from `q` up to before `r`.
abbrev pub is_between : ℕ → ℕ → Proc → Bool
is_between q r p = is_runnable p.state && (leb q p.priority && ltb p.priority r)

abbrev pub NoneBetween : ℕ → ℕ → List Proc → Type 0
NoneBetween q r ps = All (λ p. is_between q r p ≡ false) ps

-- A choice of MLFQ among the queues from `q` up to before `r`.
pub data QueueChoice (q r : ℕ) (ps : List Proc) : Option ℕ → Type 0 where
  idle : NoneBetween q r ps → QueueChoice q r ps none
  highest :
      (i : ℕ) (p : Proc)
      → get_elem? ps i ≡ some p
      → is_between q r p ≡ true
      → NoneBetween q p.priority ps
      → QueueChoice q r ps (some i)

pub none_more :
    (q r : ℕ) (ps : List Proc)
    → All (λ p. in_queue q p ≡ false) ps
    → NoneBetween (q + 1) r ps
    → NoneBetween q r ps
none_more q r [] h k = tt
none_more q r (p ∷ ps) h k = (next p h.0 k.0, none_more q r ps h.1 k.1)
  where
    next :
        (p : Proc)
        → in_queue q p ≡ false
        → is_between (q + 1) r p ≡ false
        → is_between q r p ≡ false
    next p h k = ground arith

pub none_at : (q r : ℕ) (ps : List Proc) → r ≡ q → NoneBetween q r ps
none_at q r [] e = tt
none_at q r (p ∷ ps) e = (next p, none_at q r ps e)
  where
    next : (p : Proc) → is_between q r p ≡ false
    next p = ground arith

join_queues :
    (q r : ℕ) (ps : List Proc) (here later : Option ℕ)
    → q < r
    → Found (in_queue q) ps here
    → QueueChoice (q + 1) r ps later
    → QueueChoice q r ps (or_next here later)
join_queues q r ps none _ b h (idle n) = idle (none_more q r ps h n)
join_queues q r ps none _ b h (highest i p get m n) =
    highest i p get (ground arith) (none_more q p.priority ps h n)
join_queues q r ps (some i) later b (p, get, m) c =
    highest i p get (ground arith) (none_at q p.priority ps (ground arith))

find_queue-QueueChoice :
    (n q r : ℕ) (ps : List Proc) → q + n ≡ r → QueueChoice q r ps (find_queue n q ps)
unfolding find_queue
find_queue-QueueChoice zero q r ps e = idle (none_at q r ps (omega (arith, e)))
find_queue-QueueChoice (suc n) q r ps e =
    join_queues q r ps (find_index (in_queue q) ps) (find_queue n (q + 1) ps) (omega (arith, e))
      (find_index-Found (in_queue q) ps) (find_queue-QueueChoice n (q + 1) r ps (omega (arith, e)))

pub chosen_of : (k : Kernel) (o : Option ℕ) → (start o k).0 ≡ o
chosen_of k none = refl
chosen_of k (some i) = refl

-- The MLFQ scheduler chooses, after the boost if one is due, a runnable process in one of the four
-- queues such that no process is runnable in a queue above it, and it chooses none only when no
-- process of these queues is runnable.
pub schedule_mlfq-QueueChoice : (k : Kernel) → QueueChoice 0 4 (boost k).procs (schedule_mlfq k).0
unfolding schedule_mlfq
schedule_mlfq-QueueChoice k =
    let chosen = find_queue 4 0 (boost k).procs in
    subst (QueueChoice 0 4 (boost k).procs) (sym (chosen_of (boost k) chosen))
      (find_queue-QueueChoice 4 0 4 (boost k).procs refl)

-- What a boost makes of the kernel.
abbrev pub boosted : Kernel → Kernel
boosted k = record k { ticks_since_boost = k.ticks; procs = each boost_proc k.procs }

elapsed :
    (since ticks n : ℕ)
    → since < 4294967296
    → n < 4294967296
    → ticks ≡ (since + n) % 4294967296
    → (ticks + (4294967296 - since)) % 4294967296 ≡ n
elapsed since ticks n h k e = omega (arith, h, k, e)

-- When `n` ticks have passed since the last boost, a round of the scheduler boosts exactly if `n`
-- is at least 48, also when the counter of ticks has wrapped around in between.
pub boost-elapsed :
    (k : Kernel) (n : ℕ)
    → k.ticks_since_boost < 4294967296
    → n < 4294967296
    → k.ticks ≡ (k.ticks_since_boost + n) % 4294967296
    → boost k ≡ (if leb 48 n then boosted k else k)
unfolding boost
boost-elapsed k n h b e =
    ap (λ m. if leb 48 m then boosted k else k) (elapsed k.ticks_since_boost k.ticks n h b e)
