-- ===== src/Kernel/Proc/Wakeups.antt =====
-- Sleeping and waking in xv6/kernel/proc.c.
use mathlib.Core.Option
use mini_project.Common.{
  ℕ, zero, suc, false, ◌&&◌, some, List, [], ◌∷◌, ◌≡◌, ◌≢◌, refl, ap, ◌∙◌, arith, ◌==◌, ==_iff,
  if_cases, All, get_elem?, modify,
}
use mini_project.Kernel.Proc.{
  Proc, Kernel, Policy, fifo, mlfq, round_robin, running, is_sleeping, with_proc, sleep_prepare,
  fall_asleep, sleep, wake_one, each, wakeup,
}

-- No process sleeps on the channel.
abbrev pub NoSleeper : ℕ → List Proc → Type 0
NoSleeper chan ps = All (λ p. (is_sleeping p.state && p.chan == chan) ≡ false) ps

wake_one-awake :
    (chan : ℕ) (p : Proc)
    → chan ≢ 0
    → (is_sleeping (wake_one chan p).state && (wake_one chan p).chan == chan) ≡ false
unfolding wake_one
wake_one-awake chan p h = ground arith

each_wake-NoSleeper :
    (chan : ℕ) (ps : List Proc) → chan ≢ 0 → NoSleeper chan (each (wake_one chan) ps)
each_wake-NoSleeper chan [] h = tt
each_wake-NoSleeper chan (p ∷ ps) h = (wake_one-awake chan p h, each_wake-NoSleeper chan ps h)

pub get_elem?-each :
    (f : Proc → Proc) (ps : List Proc) (i : ℕ)
    → get_elem? (each f ps) i ≡ Option.map f (get_elem? ps i)
unfolding get_elem?
get_elem?-each f [] i = refl
get_elem?-each f (p ∷ ps) zero = refl
get_elem?-each f (p ∷ ps) (suc i) = get_elem?-each f ps i

pub get_elem?-modify_at :
    (i : ℕ) (f : Proc → Proc) (ps : List Proc)
    → get_elem? (modify i f ps) i ≡ Option.map f (get_elem? ps i)
unfolding get_elem? modify
get_elem?-modify_at i f [] = refl
get_elem?-modify_at zero f (p ∷ ps) = refl
get_elem?-modify_at (suc i) f (p ∷ ps) = get_elem?-modify_at i f ps

woken :
    (chan : ℕ) (p : Proc)
    → p.state ≡ running
    → wake_one chan (record p { chan = chan }) ≡ record p { chan = 0 }
unfolding wake_one
woken chan p r = ground arith

no_channel :
    (policy : Policy) (p : Proc)
    → fall_asleep policy (record p { chan = 0 }) ≡ record p { chan = 0 }
unfolding fall_asleep
no_channel mlfq p = refl
no_channel fifo p = refl
no_channel round_robin p = refl

prepared :
    (i chan : ℕ) (k : Kernel)
    → chan ≢ 0
    → (sleep_prepare i chan k).procs ≡ modify i (λ p. record p { chan = chan }) k.procs
unfolding sleep_prepare with_proc
prepared i chan k h =
    if_cases (λ (l : Kernel). l.procs ≡ modify i (λ p. record p { chan = chan }) k.procs)
      (chan == 0) k (record k { procs = modify i (λ p. record p { chan = chan }) k.procs })
      (λ e. elim (h ((==_iff chan 0).0 e)) [ ]) (λ e. refl)

-- After a wakeup on a channel no process sleeps on it.
pub wakeup-NoSleeper : (chan : ℕ) (k : Kernel) → chan ≢ 0 → NoSleeper chan (wakeup chan k).procs
unfolding wakeup
wakeup-NoSleeper chan k h = each_wake-NoSleeper chan k.procs h

-- No wakeup is lost: when a wakeup comes between the time at which a running process has prepared
-- to sleep on a channel and the call of `sleep`, the process does not sleep but runs on, with no
-- channel and otherwise unchanged.
pub sleep-wakeup-sleep_prepare :
    (policy : Policy) (i chan : ℕ) (k : Kernel) (p : Proc)
    → chan ≢ 0
    → get_elem? k.procs i ≡ some p
    → p.state ≡ running
    → get_elem? (sleep policy i (wakeup chan (sleep_prepare i chan k))).procs i
      ≡ some (record p { chan = 0 })
unfolding sleep wakeup with_proc
sleep-wakeup-sleep_prepare policy i chan k p h e r =
    get_elem?-modify_at i (fall_asleep policy) (each (wake_one chan) (sleep_prepare i chan k).procs)
    ∙ ap (Option.map (fall_asleep policy)) (
        get_elem?-each (wake_one chan) (sleep_prepare i chan k).procs i
        ∙ ap (λ ps. Option.map (wake_one chan) (get_elem? ps i)) (prepared i chan k h)
        ∙ ap (Option.map (wake_one chan)) (
            get_elem?-modify_at i (λ p. record p { chan = chan }) k.procs
            ∙ ap (Option.map (λ (p : Proc). record p { chan = chan })) e)
        ∙ ap some (woken chan p r))
    ∙ ap some (no_channel policy p)
