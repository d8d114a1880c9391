-- ===== src/Kernel/Family/Scan.antt =====
-- A parent that waits in `kwait` or `waitx` of xv6/kernel/proc.c does not miss a child that exits.
use mathlib.Core.Option
use mini_project.Common.{
  ℕ, Bool, true, false, ◌&&◌, inr, ==_iff, Option, none, some, List, [], ◌∷◌, ◌≡◌, ◌≢◌, refl, sym,
  ap, ◌∙◌, ◌==◌, if◌then◌else◌, if_elim, if_cases, All, All-get_elem?, any, arith, find_index-Found,
  Found, get_elem?, modify,
}
use mini_project.Kernel.Proc.{
  Proc, Kernel, ProcState, zombie, is_zombie, is_sleeping, with_proc, wake_one, rouse, each, wakeup,
  points_to, is_child, pass_on, reparent, address_of, parent_at, become_zombie, kexit,
}
use mini_project.Kernel.Proc.Wakeups.{get_elem?-each, get_elem?-modify_at}
use mini_project.Kernel.Invariant.{All-modify}
use mini_project.Kernel.Family.{
  WaitEnd, returned, failed, is_zombie_child, found_child, copies_at, pid_at, wait_at, wait_pass,
}
use mini_project.Kernel.Family.Woken.{
  woken_state, At, get_elem?-modify_other, reparent-Follows, wakeup-woken,
}
use mini_project.Kernel.Family.Orphans.{wake_one-parent, eq_false}

-- The parent of the process in a slot.
abbrev parent_in : ℕ → List Proc → Option ℕ
parent_in c ps = parent_at (get_elem? ps c)

map-parent :
    (f : Proc → Proc) (o : Option Proc) (i : Option ℕ)
    → ((p : Proc) → p.parent ≡ i → (f p).parent ≡ i)
    → (p : Proc) → o ≡ some p
    → p.parent ≡ i
    → parent_at (Option.map f o) ≡ i
map-parent f o i h p e q = rw e (h p q)

each-parent :
    (f : Proc → Proc) (ps : List Proc) (c i : ℕ) (p : Proc)
    → ((p : Proc) → p.parent ≡ some i → (f p).parent ≡ some i)
    → get_elem? ps c ≡ some p
    → p.parent ≡ some i
    → (q : Proc) × (get_elem? (each f ps) c ≡ some q) × (q.parent ≡ some i)
each-parent f ps c i p h e q = (f p, get_elem?-each f ps c ∙ ap (Option.map f) e, h p q)

-- Nobody sleeps on a channel or has prepared to.
abbrev pub NoWaiter : ℕ → List Proc → Type 0
NoWaiter chan ps = All (λ p. (p.chan == chan) ≡ false) ps

rouse-chan : (p : Proc) → (rouse p).chan ≡ p.chan
rouse-chan p = if_elim (λ (q : Proc). q.chan ≡ p.chan) (is_sleeping p.state) refl refl

wake_one-NoWaiter : (chan : ℕ) (p : Proc) → chan ≢ 0 → ((wake_one chan p).chan == chan) ≡ false
unfolding wake_one
wake_one-NoWaiter chan p h =
    if_cases (λ (q : Proc). (q.chan == chan) ≡ false) (p.chan == chan)
      (rouse (record p { chan = 0 })) p
      (λ e.
        ap (λ n. n == chan) (rouse-chan (record p { chan = 0 })) ∙ eq_false 0 chan (λ z. h (sym z)))
      (λ e. e)

each_wake-NoWaiter :
    (chan : ℕ) (ps : List Proc) → chan ≢ 0 → NoWaiter chan (each (wake_one chan) ps)
each_wake-NoWaiter chan [] h = tt
each_wake-NoWaiter chan (p ∷ ps) h = (wake_one-NoWaiter chan p h, each_wake-NoWaiter chan ps h)

pass_on-parent :
    (c init i : ℕ) (p : Proc) → i ≢ c → p.parent ≡ some i → (pass_on c init p).parent ≡ some i
pass_on-parent c init i p n e =
    let other : is_child c p ≡ false = ap (points_to c) e ∙ eq_false i c n in
    rw (other, if◌then◌else◌) e

-- A process with the parent `i` in slot `c`.
abbrev HasChild : ℕ → ℕ → Kernel → Type 0
HasChild i c k = (p : Proc) × (get_elem? k.procs c ≡ some p) × (p.parent ≡ some i)

wakeup-HasChild : (chan i c : ℕ) (k : Kernel) → HasChild i c k → HasChild i c (wakeup chan k)
unfolding wakeup
wakeup-HasChild chan i c k (p, e, q) =
    each-parent (wake_one chan) k.procs c i p (λ p h. wake_one-parent chan p ∙ h) e q

reparent-HasChild :
    (init chan i c : ℕ) (k : Kernel)
    → i ≢ c
    → HasChild i c k
    → HasChild i c (reparent c init chan k)
unfolding reparent
reparent-HasChild init chan i c k n (p, e, q) =
    let passed : HasChild i c (record k { procs = each (pass_on c init) k.procs }) =
      each-parent (pass_on c init) k.procs c i p (λ p h. pass_on-parent c init i p n h) e q in
    if_elim (λ (l : Kernel). HasChild i c l) (any (is_child c) k.procs)
      (wakeup-HasChild chan i c (record k { procs = each (pass_on c init) k.procs }) passed) passed

is_dead_child :
    (z : Proc) (i : ℕ) → z.parent ≡ some i → z.state ≡ zombie → is_zombie_child i z ≡ true
is_dead_child z i e d = let here : (i == i) ≡ true = ground arith in rw (e, d, here) refl

-- The end of a wait that has found a child: what was copied out of it, or a copy that fails.
abbrev pub end_with : ℕ → Option (List (ℕ × ℕ)) → WaitEnd
end_with pid none = failed
end_with pid (some writes) = returned pid writes

-- A scan ends with a child of `i` that has exited.
pub record EndsWithChild (copies : Proc → Option (List (ℕ × ℕ))) (i : ℕ) (ps : List Proc)
    (r : WaitEnd) : Type 0 where
  pub slot : ℕ
  pub z : Proc
  pub there : get_elem? ps slot ≡ some z
  pub own : z.parent ≡ some i
  pub dead : z.state ≡ zombie
  pub ends : r ≡ end_with z.pid (copies z)

found_child-end :
    (o : Option (List (ℕ × ℕ))) (j pid : ℕ) (k : Kernel)
    → (found_child o j pid k).0 ≡ end_with pid o
found_child-end none j pid k = refl
found_child-end (some writes) j pid k = refl

points_to-own : (i : ℕ) (o : Option ℕ) → points_to i o ≡ true → o ≡ some i
points_to-own i none h = cc
points_to-own i (some j) h = ap some ((==_iff j i).0 h)

is_zombie-state : (s : ProcState) → is_zombie s ≡ true → s ≡ zombie
is_zombie-state zombie h = refl
is_zombie-state s h = cc

both : (a b : Bool) → a && b ≡ true → (a ≡ true) × (b ≡ true)
both a b h = ground arith

-- With a zombie child in the table a scan ends with one.
zombie-wait_at :
    (copies : Proc → Option (List (ℕ × ℕ))) (chan i : ℕ) (o : Option ℕ) (k : Kernel) (c : ℕ)
    (z : Proc)
    → Found (is_zombie_child i) k.procs o
    → get_elem? k.procs c ≡ some z
    → is_zombie_child i z ≡ true
    → EndsWithChild copies i k.procs (wait_at copies chan i o k).0
zombie-wait_at copies chan i none k c z f e h =
    let missed : is_zombie_child i z ≡ false =
      All-get_elem? (λ p. is_zombie_child i p ≡ false) k.procs c z f e in
    let bad : true ≡ false = sym h ∙ missed in cc
zombie-wait_at copies chan i (some j) k c z (y, there, test) e h =
    let (own, dead) = both (is_child i y) (is_zombie y.state) test in
    record {
      slot = j;
      z = y;
      there = there;
      own = points_to-own i y.parent own;
      dead = is_zombie-state y.state dead;
      ends =
          found_child-end (copies_at copies (get_elem? k.procs j)) j _ k
          ∙ ap (λ o. end_with (pid_at o) (copies_at copies o)) there;
    }

module _ (proc_at : ℕ → ℕ) (init i c status : ℕ) (k : Kernel) (p m : Proc) (address : proc_at i ≢ 0)
    (not_init : c ≢ init) (not_own : i ≢ c) (found : get_elem? k.procs c ≡ some p)
    (child : p.parent ≡ some i) (mother : get_elem? k.procs i ≡ some m)
    (waits : is_sleeping m.state ≡ true → m.chan ≡ proc_at i) where
  -- When a child that is not `initproc` exits, its parent, another slot whose address is not null,
  -- and which sleeps, if it does, on its own address, is not asleep any more: it is runnable if it
  -- slept, and else in the state it was in. Nobody has prepared to sleep on that address, so that
  -- a parent that is about to sleep runs on; and the next scan by the parent ends with a child of
  -- its own that has exited: it gives the id of that child and what is copied out for it, or fails
  -- if a copy does.
  pub kexit-wait_pass :
      (copies : Proc → Option (List (ℕ × ℕ))) (chan : ℕ)
      → At (λ q. q.state ≡ woken_state m.state) i (kexit proc_at init c status k).procs
        × NoWaiter (proc_at i) (kexit proc_at init c status k).procs
        × EndsWithChild copies i
            (kexit proc_at init c status k).procs
            (wait_pass copies chan i (kexit proc_at init c status k)).0
  unfolding kexit with_proc wakeup become_zombie wait_pass
  kexit-wait_pass copies chan =
      let k' = reparent c init (proc_at init) k in
      let (q, e, r) = reparent-HasChild init (proc_at init) i c k not_own (p, found, child) in
      let k'' = wakeup (proc_at i) k' in
      let (z, f, s) = wakeup-HasChild (proc_at i) i c k' (q, e, r) in
      let dead = become_zombie status k''.ticks in
      let owner : address_of proc_at (parent_at (get_elem? k'.procs c)) ≡ proc_at i =
        ap (λ o. address_of proc_at (parent_at o)) e ∙ ap (address_of proc_at) r in
      let (m', g, up) =
        wakeup-woken (proc_at i) m i k' (
          reparent-Follows (proc_at i) m i c init (proc_at init) k
            (m, mother, inr (refl, waits))) in
      rw (eq_false c init not_init, if◌then◌else◌, owner)
        (
          (m', get_elem?-modify_other i c dead k''.procs not_own ∙ g, up),
          All-modify (λ q. (q.chan == proc_at i) ≡ false) c dead k''.procs (λ q h. h)
              (each_wake-NoWaiter (proc_at i) k'.procs address),
          zombie-wait_at copies chan i _ _ c (dead z)
              (find_index-Found (is_zombie_child i) (modify c dead k''.procs))
              (get_elem?-modify_at c dead k''.procs ∙ ap (Option.map dead) f)
              (is_dead_child (dead z) i s refl),
        )
