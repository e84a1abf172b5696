-- ===== src/Signal/Sent.antt =====
-- What sending a signal to a task does: sig_task.
use apex.Base.{
  ℕ, suc, ◌^◌, ◌≤◌, ◌<◌, ◌≡◌, refl, sym, ◌∙◌, ap, subst, Bool, true, false, ◌||◌, none, some, ltb,
  leb, ◌==◌, if◌then◌else◌, arith, Bool-cases, ◌⊎◌, inl, inr, update, count,
}
use apex.Base.Status.{ok}
use apex.Sched.Sleep.{sch_lock, sch_unlock}
use apex.Signal.Sets.{set_bits, nsig, sigkill, sigcont, sigstop}
use apex.Signal.State.{
  Signals, on_sched, set_task_pending, sig_ignore, sig_handler, task_cur, task_access,
}
use apex.Signal.Sending.{
  deliver, discard, process_signal, post_task, sig_task, sig_flush, check_ignored, task_resume,
}
use apex.Signal.Flush.{sig_flush-Flushed}

-- Signal `n + 1` has reached the task: it is pending on one of its threads that does not block it,
-- or on the task, whose threads all block it. No thread has lost a pending signal.
pub record Sent (t n : ℕ) (k k' : Signals) : Type 0 where
  pub reached :
      ((th : ℕ) × (0 < count th (k.tasks t).threads)
        × (k.blocked th n ≡ false)
        × (k'.pending th n ≡ true))
      ⊎ (((k'.tasks t).sig_pending n ≡ true)
          × ((th : ℕ) → 0 < count th (k.tasks t).threads → k.blocked th n ≡ true))
  pub kept : (th m : ℕ) → k.pending th m ≡ true → k'.pending th m ≡ true

-- A signal that process_signal does not handle itself.
pub record IsOrdinary (sig : ℕ) : Type 0 where
  pub not_kill : (sig == sigkill) ≡ false
  pub not_cont : (sig == sigcont) ≡ false
  pub not_stop : (sig == sigstop) ≡ false

ordinary-verdict :
    (t sig : ℕ) (k : Signals)
    → IsOrdinary sig
    → process_signal t sig k ≡ some (check_ignored t sig k, k)
unfolding process_signal
ordinary-verdict t sig k o = rw (o.not_stop, o.not_cont, o.not_kill) refl

with_signal : ℕ → ℕ → Signals → Signals
with_signal t n k = set_task_pending t (update (k.tasks t).sig_pending n true) (on_sched sch_lock k)

flush-Sent :
    (t n : ℕ) (k : Signals)
    → n < set_bits
    → Sent t n k (on_sched sch_unlock (sig_flush t (with_signal t n k)))
unfolding with_signal
flush-Sent t n k l =
    let f = sig_flush-Flushed t (with_signal t n k) in
    let same : ((with_signal t n k).tasks t).threads ≡ (k.tasks t).threads = ground arith in
    record {
      reached = elim (f.moved n (ground arith)) [
        | inl still ↦ inr (
          still,
          λ th here. f.left n l still th (subst (λ ths. 0 < count th ths) (sym same) here),
        )
        | inr (th, here, b, p) ↦ inl (th, subst (λ ths. 0 < count th ths) same here, b, p)
      ];
      kept = f.kept;
    }

passes :
    (t sig : ℕ) (k : Signals)
    → (k.tasks t).valid ≡ true
    → 0 < t
    → 0 < sig
    → sig ≤ nsig
    → sig_task t sig k ≡ post_task t sig (process_signal t sig (on_sched sch_lock k))
unfolding sig_task
passes t sig k valid user some_signal l =
    let in_range : (leb (2 ^ 31) sig || ltb nsig sig) ≡ false = ground (arith, l) in
    let not_kernel : (t == 0) ≡ false = ground (arith, user) in
    let not_zero : (sig == 0) ≡ false = ground (arith, some_signal) in
    rw (valid, in_range, not_kernel, not_zero) refl

deliver-verdict :
    (t sig : ℕ) (k : Signals)
    → IsOrdinary sig
    → sig_ignore (sig_handler k t sig) sig ≡ false
    → process_signal t sig (on_sched sch_lock k) ≡ some (deliver, on_sched sch_lock k)
deliver-verdict t sig k o wanted =
    ordinary-verdict t sig (on_sched sch_lock k) o
    ∙ ap (λ (b : Bool). some (if b then discard else deliver, on_sched sch_lock k)) wanted

deliver-post :
    (t n : ℕ) (k : Signals)
    → n < set_bits
    → post_task t (suc n) (some (deliver, on_sched sch_lock k))
      ≡ some (ok 0, on_sched sch_unlock (sig_flush t (with_signal t n k)))
unfolding post_task with_signal
deliver-post t n k l =
    let inside : ltb n set_bits ≡ true = ground (arith, l) in rw (post_task, inside) refl

-- Sending signal 1 to 64, other than SIGKILL, SIGSTOP and SIGCONT, to a valid task that does not
-- ignore it and is not the kernel's succeeds: the signal is then pending on a thread of the task that
-- does not block it, or, if they all block it, on the task; what was pending on the threads still is.
pub sig_task-Sent :
    (t n : ℕ) (k : Signals)
    → (k.tasks t).valid ≡ true
    → 0 < t
    → n < set_bits
    → IsOrdinary (suc n)
    → sig_ignore (sig_handler k t (suc n)) (suc n) ≡ false
    → (k' : Signals) × (sig_task t (suc n) k ≡ some (ok 0, k')) × Sent t n k k'
sig_task-Sent t n k valid user l o wanted = (
  on_sched sch_unlock (sig_flush t (with_signal t n k)),
  passes t (suc n) k valid user (omega arith) (omega (arith, l))
      ∙ ap (post_task t (suc n)) (deliver-verdict t (suc n) k o wanted)
      ∙ deliver-post t n k l,
  flush-Sent t n k l,
)

overrun-post : (t : ℕ) (k : Signals) → post_task t nsig (some (deliver, k)) ≡ none
unfolding post_task
overrun-post t k = refl

-- Signal 65 passes the check of its number, and a word behind the array of the set is written,
-- unless the task ignores it.
pub sig_task-overruns :
    (t : ℕ) (k : Signals)
    → (k.tasks t).valid ≡ true
    → 0 < t
    → sig_ignore (sig_handler k t nsig) nsig ≡ false
    → sig_task t nsig k ≡ none
sig_task-overruns t k valid user wanted =
    passes t nsig k valid user (omega arith) (omega arith)
    ∙ ap (post_task t nsig) (
        deliver-verdict t nsig k (record { not_kill = refl; not_cont = refl; not_stop = refl })
          wanted)
    ∙ overrun-post t (on_sched sch_lock k)

cont-resume :
    (t : ℕ) (k : Signals)
    → task_resume t k ≡ none
    → post_task t sigcont (process_signal t sigcont k) ≡ none
unfolding post_task process_signal
cont-resume t k e = rw e refl

-- task_resume fails an assertion, unless the task is not the caller's and is suspended.
not_suspended :
    (t : ℕ) (k : Signals)
    → (k.tasks t).valid ≡ true
    → task_access t k ≡ true
    → (k.tasks t).suscnt ≡ 0
    → task_resume t k ≡ none
unfolding task_resume task_access
not_suspended t k valid access running = elim (Bool-cases (t == task_cur k)) [
  | inl own ↦ rw own refl
  | inr other ↦ (let access' = rw other at access in rw (other, valid, access', running) refl)
]

-- SIGCONT for a valid task that the sender may access and that no SIGSTOP has stopped makes an
-- assertion of task_resume fail.
pub sig_task-cont :
    (t : ℕ) (k : Signals)
    → (k.tasks t).valid ≡ true
    → 0 < t
    → task_access t k ≡ true
    → (k.tasks t).suscnt ≡ 0
    → sig_task t sigcont k ≡ none
unfolding task_access sch_lock
sig_task-cont t k valid user access running =
    passes t sigcont k valid user (omega arith) (omega arith)
    ∙ cont-resume t (on_sched sch_lock k)
        (not_suspended t (on_sched sch_lock k) valid access running)
