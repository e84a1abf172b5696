-- ===== src/Signal/Kill.antt =====
-- Sending a signal to processes: kill of sys/kern/proc.cpp.
use apex.Base.{
  ℕ, Bool, not, ◌&&◌, ◌||◌, Option, none, some, List, [], ◌∷◌, ltb, ◌==◌, if◌then◌else◌,
}
use apex.Base.Status.{Status, ok, err, einval, eperm, esrch}
use apex.Sched.Sleep.{sch_lock, sch_unlock}
use apex.Signal.State.{Signals, on_sched, task_cur}
use apex.Signal.Sending.{sig_task}

-- The cases of `pid`: positive, -1, 0, and less than -1, for which it is negated.
pub data Target : Type 0 where
  process : ℕ → Target
  everyone own_group : Target
  group : ℕ → Target

-- What `kill` reads of the processes: their list, the process that has a number, the numbers of
-- processes and groups, and whether the caller has CAP_KILL.
pub record Processes : Type 0 where
  pub all : List ℕ
  pub task_find : ℕ → Option ℕ
  pub task_pid : ℕ → ℕ
  pub pgid : ℕ → ℕ
  pub cap_kill : Bool

-- After a call of sig_task in a loop: a result other than 0 ends the loop.
unfoldable pub unless_failed :
    (Signals → Option (Status × Signals)) → Option (Status × Signals) → Option (Status × Signals)
unless_failed next none = none
unless_failed next (some (err e, k)) = some (err e, k)
unless_failed next (some (ok n, k)) = if n == 0 then next k else some (ok n, k)

-- The loops of `kill`, with their test of a task.
unfoldable pub kill_loop : (ℕ → Bool) → ℕ → List ℕ → Signals → Option (Status × Signals)
unfolding unless_failed sig_task
kill_loop named sig [] k = some (ok 0, k)
kill_loop named sig (t ∷ ts) k =
    let rest = kill_loop named sig ts in
    if named t then unless_failed rest (sig_task t sig k) else rest k

-- The part of `kill` with the scheduler locked.
unfoldable pub kill_locked : Processes → Target → ℕ → Signals → Option (Status × Signals)
unfolding kill_loop sig_task
kill_locked ps (process p) sig k =
    if not (p == ps.task_pid (task_cur k)) && not ps.cap_kill
    then some (err eperm, k)
    else (elim (ps.task_find p) [ none ↦ some (err esrch, k) | some t ↦ sig_task t sig k ])
kill_locked ps everyone sig k =
    if not ps.cap_kill
    then some (err eperm, k)
    else kill_loop (λ t. ltb 1 (ps.task_pid t)) sig ps.all k
kill_locked ps own_group sig k = kill_loop (λ t. ps.pgid t == ps.pgid (task_cur k)) sig ps.all k
kill_locked ps (group g) sig k =
    if not (ps.pgid (task_cur k) == g) && not ps.cap_kill
    then some (err eperm, k)
    else kill_loop (λ t. ps.pgid t == g) sig ps.all k

unfoldable pub unlock_result : Option (Status × Signals) → Option (Status × Signals)
unfolding sch_unlock
unlock_result none = none
unlock_result (some (r, k)) = some (r, on_sched sch_unlock k)

-- SIGILL, SIGFPE and SIGSEGV cannot be sent.
unfoldable pub kill : Processes → Target → ℕ → Signals → Option (Status × Signals)
unfolding kill_locked unlock_result sch_lock
kill ps target sig k =
    if (sig == 8) || ((sig == 4) || (sig == 11))
    then some (err einval, k)
    else unlock_result (kill_locked ps target sig (on_sched sch_lock k))
