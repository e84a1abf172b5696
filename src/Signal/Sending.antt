-- ===== src/Signal/Sending.antt =====
-- Sending signals, sys/kern/sig.cpp from sig_flush to sig_restore, and task_suspend and task_resume.
-- Where the result is an Option, `none` stands for an assertion that fails or for a write behind a
-- signal set's array.
use apex.Base.{
  ℕ, ◌+◌, ◌-◌, ◌%◌, ◌^◌, not, ◌&&◌, ◌||◌, Option, none, some, List, [], ◌∷◌, ltb, leb, ◌==◌,
  if◌then◌else◌,
}
use apex.Base.Status.{Status, ok, err, Errno, einval, eperm, esrch}
use apex.Sched.Control.{sch_suspend, sch_resume}
use apex.Sched.Sleep.{sch_lock, sch_unlock, sch_signal}
use apex.Signal.Sets.{
  nsig, sigkill, sigcont, sigstop, Sigset, ksigandnset, ksigorset, ksigaddset, ksigisemptyset,
  ksigallset,
}
use apex.Signal.State.{
  Signals, on_sched, set_task, set_task_pending, thread_cur, task_cur, set_sigs,
  sig_unblocked_pending, sig_ignore, sig_handler, task_access, proc_exit,
}

unfoldable pub suspend_all : List ℕ → Signals → Signals
unfolding sch_suspend
suspend_all [] k = k
suspend_all (th ∷ ths) k = suspend_all ths (on_sched (sch_suspend th) k)

unfoldable pub resume_all : List ℕ → Signals → Signals
unfolding sch_resume
resume_all [] k = k
resume_all (th ∷ ths) k = resume_all ths (on_sched (sch_resume th) k)

abbrev pub locked : (Signals → Signals) → Signals → Signals
locked f k = on_sched sch_unlock (f (on_sched sch_lock k))

-- `++` and `--` of the `int`, and `> 0`.
unfoldable pub task_suspend : ℕ → Signals → Status × Signals
unfolding suspend_all sch_lock sch_unlock task_access
task_suspend t k =
    let task = k.tasks t in
    let n = (task.suscnt + 1) % 2 ^ 32 in
    if not task.valid
    then (err esrch, locked (λ k. k) k)
    else if not (task_access t k)
    then (err eperm, locked (λ k. k) k)
    else (
      ok 0,
      locked
          (λ k.
            let k' = set_task t (record task { suscnt = n }) k in
            if n == 1 then suspend_all task.threads k' else k')
          k,
    )

unfoldable pub task_resume : ℕ → Signals → Option (Status × Signals)
unfolding resume_all sch_lock sch_unlock task_access
task_resume t k =
    let task = k.tasks t in
    let n = task.suscnt - 1 in
    if t == task_cur k
    then none
    else if not task.valid
    then some (err esrch, locked (λ k. k) k)
    else if not (task_access t k)
    then some (err eperm, locked (λ k. k) k)
    else if (task.suscnt == 0) || leb (2 ^ 31) task.suscnt
    then none
    else some (
      ok 0,
      locked
          (λ k.
            let k' = set_task t (record task { suscnt = n }) k in
            if n == 0 then resume_all task.threads k' else k')
          k,
    )

-- A round of the loop of sig_flush that finds signals for the thread.
unfoldable pub flush_one : ℕ → ℕ → Signals → Signals
unfolding ksigandnset ksigorset set_sigs sch_signal
flush_one t th k =
    let unblocked = ksigandnset (k.tasks t).sig_pending (k.blocked th) in
    set_task_pending t (ksigandnset (k.tasks t).sig_pending unblocked)
      (on_sched (sch_signal th) (set_sigs th (ksigorset (k.pending th) unblocked) (k.blocked th) k))

unfoldable pub flush_loop : ℕ → List ℕ → Signals → Signals
unfolding flush_one ksigisemptyset ksigandnset
flush_loop t [] k = k
flush_loop t (th ∷ ths) k =
    let found = not (ksigisemptyset (ksigandnset (k.tasks t).sig_pending (k.blocked th))) in
    let k' = if found then flush_one t th k else k in
    let rest = flush_loop t ths k' in
    if found && ksigisemptyset (k'.tasks t).sig_pending then k' else rest

unfoldable pub sig_flush : ℕ → Signals → Signals
unfolding flush_loop ksigisemptyset
sig_flush t k =
    if ksigisemptyset (k.tasks t).sig_pending then k else flush_loop t (k.tasks t).threads k

-- What process_signal returns: 0, a positive number, or an error.
pub data Verdict : Type 0 where
  deliver discard : Verdict
  fails : Errno → Verdict

abbrev pub verdict_of : Status → Verdict → Verdict
verdict_of (ok n) v = v
verdict_of (err e) v = fails e

abbrev pub check_ignored : ℕ → ℕ → Signals → Verdict
check_ignored t sig k = if sig_ignore (sig_handler k t sig) sig then discard else deliver

unfoldable pub process_signal : ℕ → ℕ → Signals → Option (Verdict × Signals)
unfolding task_suspend task_resume sig_ignore proc_exit
process_signal t sig k =
    if sig == sigstop
    then (let (r, k') = task_suspend t k in some (verdict_of r discard, k'))
    else if sig == sigcont
    then (elim (task_resume t k) [
      | none ↦ none
      | some (r, k') ↦ some (verdict_of r (check_ignored t sig k'), k')
    ])
    else if sig == sigkill
    then some (discard, proc_exit t sig k)
    else some (check_ignored t sig k, k)

-- The part of sig_task after process_signal.
unfoldable pub post_task : ℕ → ℕ → Option (Verdict × Signals) → Option (Status × Signals)
unfolding ksigaddset sig_flush
post_task t sig none = none
post_task t sig (some (fails e, k)) = some (err e, on_sched sch_unlock k)
post_task t sig (some (discard, k)) = some (ok 0, on_sched sch_unlock k)
post_task t sig (some (deliver, k)) = elim (ksigaddset (k.tasks t).sig_pending sig) [
  | none ↦ none
  | some p ↦ some (ok 0, on_sched sch_unlock (sig_flush t (set_task_pending t p k)))
]

-- `sig` is the bit pattern of an `int`.
unfoldable pub sig_task : ℕ → ℕ → Signals → Option (Status × Signals)
unfolding process_signal post_task sch_lock
sig_task t sig k =
    if not (k.tasks t).valid
    then some (err einval, k)
    else if leb (2 ^ 31) sig || ltb nsig sig
    then some (err einval, k)
    else if t == 0
    then some (err esrch, k)
    else if sig == 0
    then some (ok 0, k)
    else post_task t sig (process_signal t sig (on_sched sch_lock k))

-- The part of sig_thread after process_signal.
unfoldable pub post_thread : ℕ → ℕ → Option (Verdict × Signals) → Option Signals
unfolding ksigaddset sig_unblocked_pending set_sigs sch_signal sch_unlock
post_thread th sig none = none
post_thread th sig (some (fails e, k)) = some (on_sched sch_unlock k)
post_thread th sig (some (discard, k)) = some (on_sched sch_unlock k)
post_thread th sig (some (deliver, k)) =
    elim (ksigaddset (k.pending th) (if sig == 0 then sigkill else sig)) [
      | none ↦ none
      | some p ↦
          let k' = set_sigs th p (k.blocked th) k in
          some (
            on_sched sch_unlock
              (if sig_unblocked_pending th k' then on_sched (sch_signal th) k' else k'))
    ]

-- An assertion of sig_thread excludes other numbers than 0 to NSIG.
unfoldable pub sig_thread : ℕ → ℕ → Signals → Option Signals
unfolding process_signal post_thread sch_lock
sig_thread th sig k =
    if ltb nsig sig
    then none
    else if sig == 0
    then post_thread th sig (some (deliver, on_sched sch_lock k))
    else post_thread th sig (process_signal (k.task_of th) sig (on_sched sch_lock k))

unfoldable pub sig_block_all : Signals → Sigset × Signals
unfolding ksigallset set_sigs
sig_block_all k = (
  k.blocked (thread_cur k),
  locked (λ k. set_sigs (thread_cur k) (k.pending (thread_cur k)) ksigallset k) k,
)

unfoldable pub sig_restore : Sigset → Signals → Signals
unfolding set_sigs sig_flush sig_unblocked_pending sch_signal
sig_restore old k =
    let th = thread_cur k in
    locked
      (λ k.
        let k' = sig_flush (k.task_of th) (set_sigs th (k.pending th) old k) in
        if sig_unblocked_pending th k' then on_sched (sch_signal th) k' else k')
      k
