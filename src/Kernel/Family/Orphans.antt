-- ===== src/Kernel/Family/Orphans.antt =====
-- What `kexit` of xv6/kernel/proc.c does to the children and to the parent of a process.
use mini_project.Common.{
  ℕ, false, some, List, [], ◌∷◌, ◌≡◌, ◌≢◌, refl, sym, ap, ◌∙◌, ◌==◌, if◌then◌else◌, if_elim,
  if_cases, All, any, arith, get_elem?,
}
use mini_project.Kernel.Proc.{
  Proc, Kernel, is_sleeping, with_proc, wake_one, rouse, each, wakeup, set_parent, points_to,
  is_child, pass_on, reparent, address_of, parent_at, become_zombie, kexit,
}
use mini_project.Kernel.Invariant.{All-each, All-modify}

rouse-parent : (p : Proc) → (rouse p).parent ≡ p.parent
rouse-parent p = if_elim (λ (q : Proc). q.parent ≡ p.parent) (is_sleeping p.state) refl refl

pub wake_one-parent : (chan : ℕ) (p : Proc) → (wake_one chan p).parent ≡ p.parent
unfolding wake_one
wake_one-parent chan p =
    if_elim (λ (q : Proc). q.parent ≡ p.parent) (p.chan == chan)
      (rouse-parent (record p { chan = 0 })) refl

pub eq_false : (a b : ℕ) → a ≢ b → (a == b) ≡ false
eq_false a b h = ground arith

module _ (i init : ℕ) (other : init ≢ i) where
  abbrev IsLeft : Proc → Type 0
  IsLeft p = is_child i p ≡ false

  pass_on-IsLeft : (p : Proc) → IsLeft (pass_on i init p)
  pass_on-IsLeft p =
      if_cases (λ (q : Proc). IsLeft q) (is_child i p) (set_parent (some init) p) p
        (λ e. eq_false init i other) (λ e. e)

  wake_one-IsLeft : (chan : ℕ) (p : Proc) → IsLeft p → IsLeft (wake_one chan p)
  wake_one-IsLeft chan p h = ap (points_to i) (wake_one-parent chan p) ∙ h

  wakeup-IsLeft : (chan : ℕ) (k : Kernel) → All IsLeft k.procs → All IsLeft (wakeup chan k).procs
  unfolding wakeup
  wakeup-IsLeft chan k h = All-each IsLeft (wake_one chan) k.procs (wake_one-IsLeft chan) h

  passed-IsLeft : (ps : List Proc) → All IsLeft (each (pass_on i init) ps)
  passed-IsLeft [] = tt
  passed-IsLeft (p ∷ ps) = (pass_on-IsLeft p, passed-IsLeft ps)

  reparent-IsLeft : (chan : ℕ) (k : Kernel) → All IsLeft (reparent i init chan k).procs
  unfolding reparent
  reparent-IsLeft chan k =
      if_elim (λ (l : Kernel). All IsLeft l.procs) (any (is_child i) k.procs)
        (wakeup-IsLeft chan (record k { procs = each (pass_on i init) k.procs })
          (passed-IsLeft k.procs))
        (passed-IsLeft k.procs)

  -- A process that has exited is the parent of no process.
  pub kexit-IsLeft :
      (proc_at : ℕ → ℕ) (status : ℕ) (k : Kernel)
      → All (λ p. is_child i p ≡ false) (kexit proc_at init i status k).procs
  unfolding kexit with_proc
  kexit-IsLeft proc_at status k =
      let k' = reparent i init (proc_at init) k in
      let k'' = wakeup (address_of proc_at (parent_at (get_elem? k'.procs i))) k' in
      rw (eq_false i init (λ e. other (sym e)), if◌then◌else◌)
        (All-modify IsLeft i (become_zombie status k''.ticks) k''.procs (λ p h. h)
          (wakeup-IsLeft _ k' (reparent-IsLeft (proc_at init) k)))
