-- ===== src/Signal/Delivery.antt =====
-- Delivery of signals to the current thread, sys/kern/sig.cpp: sig_deliver and sigreturn. Whether
-- context_set_signal and context_restore (sys/arch) succeed is an argument; what the first is
-- called with is a result. `none` stands for an assertion that fails or for a write behind a
-- signal set's array.
use apex.Base.{ℕ, Bool, not, ◌||◌, Option, none, some, leb, ◌==◌, ◌&&◌, if◌then◌else◌}
use apex.Sched.Control.{sch_testexit}
use apex.Sched.Sleep.{sch_lock, sch_unlock}
use apex.Signal.Sets.{
  sigkill, sigstop, sigtstp, sigttou, sigsys, Sigset, ksigandnset, ksigorset, ksigaddset,
  ksigdelset, unblockable_out, ksigfirst, ksigisemptyset,
}
use apex.Signal.State.{
  Handler, dfl, ign, catch, Sigaction, Signals, on_sched, thread_cur, task_cur, set_sigs,
  default_ignore, sig_handler, proc_exit,
}
use apex.Signal.Sending.{task_suspend}

-- The results of system calls; the named ones are negated error numbers.
pub data Rval : Type 0 where
  value : ℕ → Rval
  eintr eintr_norestart erestartsys ethread_exit : Rval

-- The arguments of context_set_signal, `restorer` being `none` for 0.
pub record Frame : Type 0 where
  pub saved_blocked : Sigset
  pub handler_at : ℕ
  pub restorer_at : Option ℕ
  pub signal : ℕ
  pub with_info : Bool
  pub saved_rval : Rval

abbrev pub Delivered : Type 0
Delivered = Rval × Option Frame × Signals

unfoldable pub restart_rval : Sigaction → Rval → Rval
restart_rval act (value n) = value n
restart_rval act eintr = if act.sa_restart then erestartsys else eintr
restart_rval act eintr_norestart = eintr
restart_rval act erestartsys = erestartsys
restart_rval act ethread_exit = ethread_exit

unfoldable pub fatal : ℕ → Signals → Delivered
unfolding proc_exit sch_unlock sch_testexit
fatal sig k = (
  ethread_exit,
  none,
  on_sched (λ s. (sch_testexit (sch_unlock s)).0) (proc_exit (task_cur k) sig k),
)

-- The mask while a handler runs.
unfoldable pub handler_mask : Sigaction → ℕ → Sigset → Option Sigset
unfolding ksigorset ksigaddset
handler_mask act sig b =
    let b' = ksigorset b act.mask in if act.sa_nodefer then some b' else ksigaddset b' sig

unfoldable pub run_handler : Bool → ℕ → ℕ → Rval → Signals → Option Delivered
unfolding restart_rval fatal handler_mask unblockable_out set_sigs sch_unlock
run_handler set_ok sig h rval k =
    let th = thread_cur k in
    let act = (k.tasks (task_cur k)).sig_action sig in
    let frame : Frame = record {
      saved_blocked = k.blocked th;
      handler_at = h;
      restorer_at = if act.sa_restorer then some act.restorer else none;
      signal = sig;
      with_info = act.sa_siginfo;
      saved_rval = restart_rval act rval;
    } in
    if not set_ok then some (fatal sig k) else (elim (handler_mask act sig (k.blocked th)) [
      | none ↦ none
      | some b ↦ some (
        value sig,
        some frame,
        on_sched sch_unlock (set_sigs th (k.pending th) (unblockable_out b) k),
      )
    ])

unfoldable pub default_action : ℕ → Rval → Signals → Option Delivered
unfolding fatal task_suspend sch_unlock
default_action sig rval k =
    if leb sigtstp sig && leb sig sigttou
    then some (rval, none, on_sched sch_unlock (task_suspend (task_cur k) k).1)
    else if (sig == sigkill) || ((sig == sigstop) || default_ignore sig)
    then none
    else some (fatal sig k)

unfoldable pub act_on : Bool → ℕ → Rval → Handler → Signals → Option Delivered
unfolding run_handler default_action
act_on set_ok sig rval ign k = none
act_on set_ok sig rval (catch h) k = run_handler set_ok sig h rval k
act_on set_ok sig rval dfl k = default_action sig rval k

-- The part of sig_deliver_slowpath from the choice of the signal on.
unfoldable pub take_signal : Bool → ℕ → Rval → Signals → Option Delivered
take_signal set_ok sig rval k =
    let th = thread_cur k in
    elim (ksigdelset (k.pending th) sig) [
      | none ↦ none
      | some p ↦
          act_on set_ok sig rval (sig_handler k (task_cur k) sig) (set_sigs th p (k.blocked th) k)
    ]

unfoldable pub sig_deliver_slowpath : Bool → Sigset → Rval → Signals → Option Delivered
sig_deliver_slowpath set_ok pending rval k =
    let (s, exiting) = sch_testexit k.sched in
    let unblocked = ksigandnset pending (k.blocked (thread_cur k)) in
    if exiting
    then some (ethread_exit, none, record k { sched = s })
    else if ksigisemptyset unblocked
    then some (rval, none, on_sched sch_unlock (on_sched sch_lock k))
    else take_signal set_ok (ksigfirst unblocked) rval (on_sched sch_lock k)

unfoldable pub sig_deliver : Bool → Rval → Signals → Option Delivered
sig_deliver set_ok rval k =
    if ksigisemptyset (k.pending (thread_cur k))
    then some (rval, none, k)
    else sig_deliver_slowpath set_ok (k.pending (thread_cur k)) rval k

-- `restored` is the mask and the result that context_restore finds in the user's frame.
unfoldable pub sigreturn : Option (Sigset × Rval) → Signals → Rval × Signals
unfolding unblockable_out set_sigs sch_lock sch_unlock fatal
sigreturn none k = let (r, frame, k') = fatal sigsys (on_sched sch_lock k) in (r, k')
sigreturn (some (b, r)) k =
    let th = thread_cur k in
    (r, on_sched sch_unlock (set_sigs th (k.pending th) (unblockable_out b) (on_sched sch_lock k)))
