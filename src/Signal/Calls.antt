-- ===== src/Signal/Calls.antt =====
-- The system calls on signals: sc_rt_sigprocmask, sc_rt_sigaction and sig_exec of sys/kern/sig.cpp,
-- sc_tkill and sc_tgkill of sys/kern/proc.cpp. What the checks of user memory say is an argument,
-- and so is what lies there. `none` stands for a write behind a signal set's array or a failed
-- assertion.
use apex.Base.{
  ℕ, zero, suc, Bool, not, ◌||◌, Option, none, some, List, [], ◌∷◌, ltb, ◌==◌, ◌&&◌, if◌then◌else◌,
  update,
}
use apex.Base.Status.{Status, ok, err, failed, efault, einval, enosys, esrch}
use apex.Sched.Sleep.{sch_lock, sch_unlock}
use apex.Signal.Sets.{
  nsig, sigkill, sigstop, Sigset, ksigandnset, ksigorset, ksigdelset, unblockable_out,
}
use apex.Signal.State.{
  Handler, dfl, ign, catch, Sigaction, Signals, on_sched, set_task, set_task_pending, thread_cur,
  task_cur, set_sigs, sig_ignore, sig_handler,
}
use apex.Signal.Sending.{sig_flush, sig_thread}

-- What u_access_begin returns, and u_access_ok for writing the old value and reading the new one.
pub record UserAccess : Type 0 where
  pub begin : Status
  pub write_ok : Bool
  pub read_ok : Bool

-- SIG_BLOCK, SIG_UNBLOCK, SIG_SETMASK.
pub data How : Type 0 where
  block unblock setmask other : How

unfoldable pub new_mask : How → Sigset → Sigset → Option Sigset
unfolding ksigorset ksigandnset
new_mask block b u = some (ksigorset b u)
new_mask unblock b u = some (ksigandnset b u)
new_mask setmask b u = some u
new_mask other b u = none

unfoldable pub set_mask : Status → Option Sigset → Signals → Status × Signals
unfolding unblockable_out set_sigs sig_flush
set_mask r none k = (err einval, k)
set_mask r (some b) k =
    let th = thread_cur k in
    (r, sig_flush (task_cur k) (set_sigs th (k.pending th) (unblockable_out b) k))

-- The call with access to user memory and the scheduler locked, up to `out:`. The second part of
-- the result is what is written to the old set.
unfoldable pub procmask_locked :
    How → Option Sigset → Bool → UserAccess → Signals → Status × Option Sigset × Signals
unfolding new_mask set_mask
procmask_locked how uset uoldset ua k =
    let b = k.blocked (thread_cur k) in
    let old = if uoldset then some b else none in
    if uoldset && not ua.write_ok then (err efault, none, k) else (elim uset [
      | none ↦ (ua.begin, old, k)
      | some u ↦
          if not ua.read_ok
          then (err efault, old, k)
          else (let (r, k') = set_mask ua.begin (new_mask how b u) k in (r, old, k'))
    ])

unfoldable pub sc_rt_sigprocmask :
    How → Option Sigset → Bool → Bool → UserAccess → Signals → Status × Option Sigset × Signals
unfolding procmask_locked sch_lock sch_unlock
sc_rt_sigprocmask how uset uoldset size_ok ua k =
    if not size_ok
    then (err einval, none, k)
    else if failed ua.begin
    then (ua.begin, none, k)
    else let (r, old, k') = procmask_locked how uset uoldset ua (on_sched sch_lock k) in
      (r, old, on_sched sch_unlock k')

-- The loop of sc_rt_sigaction over the task's threads.
unfoldable pub discard_loop : ℕ → List ℕ → Signals → Option Signals
unfolding ksigdelset set_sigs
discard_loop sig [] k = some k
discard_loop sig (th ∷ ths) k = elim (ksigdelset (k.pending th) sig) [
  | none ↦ none
  | some p ↦ discard_loop sig ths (set_sigs th p (k.blocked th) k)
]

unfoldable pub discard_pending : ℕ → ℕ → Signals → Option Signals
unfolding discard_loop ksigdelset
discard_pending t sig k = elim (discard_loop sig (k.tasks t).threads k) [
  | none ↦ none
  | some k' ↦ elim (ksigdelset (k'.tasks t).sig_pending sig) [
    | none ↦ none
    | some p ↦ some (set_task_pending t p k')
  ]
]

unfoldable pub set_action : ℕ → ℕ → Sigaction → Signals → Option Signals
unfolding discard_pending sig_ignore
set_action t sig act k =
    let task = k.tasks t in
    let k' = set_task t (record task { sig_action = update task.sig_action sig act }) k in
    if sig_ignore (sig_handler k' t sig) sig then discard_pending t sig k' else some k'

-- The call with access to user memory and the scheduler locked, up to `out:`.
unfoldable pub sigaction_locked :
    ℕ
    → Option Sigaction
    → Bool
    → Bool
    → UserAccess
    → Signals
    → Option (Status × Option Sigaction × Signals)
unfolding set_action
sigaction_locked sig uact uoldact size_ok ua k =
    let t = task_cur k in
    let old = if uoldact then some ((k.tasks t).sig_action sig) else none in
    if uoldact && not ua.write_ok then some (err efault, none, k) else (elim uact [
      | none ↦ some (ua.begin, old, k)
      | some act ↦
          if (sig == sigkill) || (sig == sigstop)
          then some (err einval, old, k)
          else if not ua.read_ok
          then some (err efault, old, k)
          else if not size_ok
          then some (err einval, old, k)
          else if act.sa_other
          then some (err enosys, old, k)
          else (elim (set_action t sig act k) [ none ↦ none | some k' ↦ some (ua.begin, old, k') ])
    ])

-- `sig` is the bit pattern of an `int`.
unfoldable pub sc_rt_sigaction :
    ℕ
    → Option Sigaction
    → Bool
    → Bool
    → UserAccess
    → Signals
    → Option (Status × Option Sigaction × Signals)
unfolding sigaction_locked sch_lock sch_unlock
sc_rt_sigaction sig uact uoldact size_ok ua k =
    if ltb nsig sig || (sig == 0)
    then some (err einval, none, k)
    else if failed ua.begin
    then some (ua.begin, none, k)
    else (elim (sigaction_locked sig uact uoldact size_ok ua (on_sched sch_lock k)) [
      | none ↦ none
      | some (r, old, k') ↦ some (r, old, on_sched sch_unlock k')
    ])

abbrev pub reset_caught : Handler → Handler
reset_caught dfl = dfl
reset_caught ign = ign
reset_caught (catch h) = dfl

-- The loop of sig_exec, from signal `n` down.
unfoldable pub exec_loop : ℕ → (ℕ → Sigaction) → ℕ → Sigaction
exec_loop zero a = a
exec_loop (suc n) a =
    exec_loop n
      (update a (suc n) (record (a (suc n)) { handler = reset_caught (a (suc n)).handler }))

unfoldable pub sig_exec : ℕ → Signals → Signals
unfolding exec_loop
sig_exec t k =
    set_task t (record (k.tasks t) { sig_action = exec_loop nsig (k.tasks t).sig_action }) k

unfoldable pub thread_result : Option Signals → Option (Status × Signals)
thread_result none = none
thread_result (some k) = some (ok 0, k)

-- `found` is what thread_find gives for the thread's number.
unfoldable pub sc_tkill : Option ℕ → ℕ → Signals → Option (Status × Signals)
unfolding thread_result sig_thread
sc_tkill none sig k = some (err esrch, k)
sc_tkill (some th) sig k =
    if (sig == 0) || ltb nsig sig then some (err einval, k) else thread_result (sig_thread th sig k)

-- `same` is whether the thread's task has the process id that is asked for.
unfoldable pub sc_tgkill : Option ℕ → Bool → ℕ → Signals → Option (Status × Signals)
unfolding thread_result sig_thread
sc_tgkill none same sig k = some (err esrch, k)
sc_tgkill (some th) same sig k =
    if not same
    then some (err esrch, k)
    else if (sig == 0) || ltb nsig sig
    then some (err einval, k)
    else thread_result (sig_thread th sig k)
