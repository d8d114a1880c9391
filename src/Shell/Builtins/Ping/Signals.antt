-- ===== src/Shell/Builtins/Ping/Signals.antt =====
-- Which signals c-shell/src/ping.c sends.
use mini_project.Common.{
  Found, any, get_elem?, ℕ, ◌<◌, ◌%◌, Bool, true, false, Option, none, some, List, [], ◌∷◌, ◌≡◌,
  refl, sym, subst, arith, if_elim, if_cases, ◌==◌,
}
use mini_project.Shell.Token.{Bytes, Token}
use mini_project.Shell.Jobs.Types.{JobEntry, JobTable, Os, Event, kill_group, kill_process}
use mini_project.Shell.Jobs.Refresh.{jobs_refresh_states}
use mini_project.Shell.Jobs.Table.{
  matches_live, tracks, jobs_get_by_id, jobs_pid_is_tracked, signal_found, signal_group,
  jobs_send_signal_to_job, jobs_send_signal_to_pid,
}
use mini_project.Shell.Jobs.Table.Lookup.{jobs_get_by_id-Found}
use mini_project.Shell.Builtins.{text_of, is_all_digits, atoi}
use mini_project.Shell.Builtins.Ping.{
  invalid_syntax, null_read, no_such_process, sent, Answer, reply, ping_job, ping_pid, ping_target,
  ping_signal, ping_cmd,
}

-- What `ping` answers to the tokens `list` when its lookup leaves the table `u`.
pub data PingOutcome (list : List Token) (t u : JobTable) : Answer → Type 0 where
  refused : PingOutcome list t u (invalid_syntax, [], t)
  crashed :
      (name target sig : Token)
      → list ≡ name ∷ target ∷ sig ∷ []
      → text_of target.type target.text ≡ none
      → PingOutcome list t u (null_read, [], t)
  nobody : PingOutcome list t u (no_such_process, [], u)
  to_group :
      (job_id raw sig i : ℕ) (j : JobEntry) (target : Bytes)
      → get_elem? u.jobs_list i ≡ some j
      → matches_live job_id j ≡ true
      → sig ≡ raw % 64
      → sig < 64
      → PingOutcome list t u (sent raw target, kill_group j.pgid sig ∷ [], u)
  to_process :
      (pid raw sig : ℕ) (target : Bytes)
      → any (tracks pid) u.jobs_list ≡ true
      → sig ≡ raw % 64
      → sig < 64
      → PingOutcome list t u (sent raw target, kill_process pid sig ∷ [], u)

module _ (os : Os) (list : List Token) (t : JobTable) where
  abbrev Fits : Answer → Type 0
  Fits a = PingOutcome list t (jobs_refresh_states os t) a

  signal_bound : (raw : ℕ) → raw % 64 < 64
  signal_bound raw = omega arith

  Found-signal :
      (job_id raw : ℕ) (target : Bytes) (u : JobTable) (found : Option ℕ)
      → Found (matches_live job_id) u.jobs_list found
      → PingOutcome list t u (
        reply raw target (signal_found found (raw % 64) u).0,
        (signal_found found (raw % 64) u).1,
        u,
      )
  unfolding signal_found signal_group
  Found-signal job_id raw target u none h = nobody
  Found-signal job_id raw target u (some i) (j, e, m) =
      subst (λ o. PingOutcome list t u (sent raw target, signal_group o (raw % 64), u)) (sym e)
        (to_group job_id raw (raw % 64) i j target e m refl (signal_bound raw))

  to_job :
      (job_id raw : ℕ) (target : Bytes)
      → Fits (
          let (found, events, t') = jobs_send_signal_to_job os job_id (raw % 64) t in
          (reply raw target found, events, t'))
  unfolding jobs_send_signal_to_job jobs_get_by_id
  to_job job_id raw target =
      Found-signal job_id raw target (jobs_refresh_states os t) (jobs_get_by_id os job_id t).0
        (jobs_get_by_id-Found os job_id t)

  to_pid :
      (pid raw : ℕ) (target : Bytes)
      → Fits (
          let (found, events, t') = jobs_send_signal_to_pid os pid (raw % 64) t in
          (reply raw target found, events, t'))
  unfolding jobs_send_signal_to_pid jobs_pid_is_tracked
  to_pid pid raw target =
      let u = jobs_refresh_states os t in
      let Q : Bool × List Event × JobTable → Type 0 =
        λ x. PingOutcome list t u (reply raw target x.0, x.1, x.2) in
      if_cases Q (any (tracks pid) u.jobs_list) (true, kill_process pid (raw % 64) ∷ [], u)
        (false, [], u) (λ h. to_process pid raw (raw % 64) target h refl (signal_bound raw))
        (λ h. nobody)

  ping_job-Fits : (raw : ℕ) (target number : Bytes) → Fits (ping_job os raw target number t)
  unfolding ping_job
  ping_job-Fits raw target number =
      if_elim Fits (is_all_digits (some number)) (to_job (atoi number) raw target) refused

  ping_pid-Fits : (raw : ℕ) (target : Bytes) → Fits (ping_pid os raw target t)
  unfolding ping_pid
  ping_pid-Fits raw target =
      if_elim Fits (is_all_digits (some target)) (to_pid (atoi target) raw target) refused

  ping_target-Fits :
      (name target sig : Token) (raw : ℕ) (text : Option Bytes)
      → list ≡ name ∷ target ∷ sig ∷ []
      → text_of target.type target.text ≡ text
      → Fits (ping_target os raw text t)
  unfolding ping_target
  ping_target-Fits name target sig raw none e h = crashed name target sig e h
  ping_target-Fits name target sig raw (some []) e h = ping_pid-Fits raw []
  ping_target-Fits name target sig raw (some (c ∷ s)) e h =
      if_elim Fits (c == b'%') (ping_job-Fits raw (c ∷ s) s) (ping_pid-Fits raw (c ∷ s))

  ping_signal-Fits :
      (name target sig : Token) (s : Option Bytes)
      → list ≡ name ∷ target ∷ sig ∷ []
      → Fits (ping_signal os (text_of target.type target.text) s t)
  unfolding ping_signal
  ping_signal-Fits name target sig none e = refused
  ping_signal-Fits name target sig (some s) e =
      if_elim Fits (is_all_digits (some s))
        (ping_target-Fits name target sig (atoi s) (text_of target.type target.text) e refl) refused

-- `ping` sends at most one signal, and its number is below 64: to the process group of a job in
-- use with a live process, or to a process that a job in use tracks as live. A refused command
-- leaves the table as it was, any other leaves it as the refresh does, and a null pointer is read
-- only when the second token is an operator.
pub ping_cmd-PingOutcome :
    (os : Os) (list : List Token) (t : JobTable)
    → PingOutcome list t (jobs_refresh_states os t) (ping_cmd os list t)
unfolding ping_cmd
ping_cmd-PingOutcome os [] t = refused
ping_cmd-PingOutcome os (a ∷ []) t = refused
ping_cmd-PingOutcome os (a ∷ b ∷ []) t = refused
ping_cmd-PingOutcome os (name ∷ target ∷ sig ∷ []) t =
    ping_signal-Fits os (name ∷ target ∷ sig ∷ []) t name target sig (text_of sig.type sig.text)
      refl
ping_cmd-PingOutcome os (a ∷ b ∷ c ∷ d ∷ ts) t = refused
