-- ===== src/Signal/Masks.antt =====
-- Changing the signal mask: sc_rt_sigprocmask, sig_restore and sigreturn.
use apex.Base.{
  ℕ, ◌<◌, ◌≡◌, refl, sym, ◌∙◌, ap, subst, Bool, true, false, not, ◌&&◌, ◌||◌, Option, none, some,
  ◌==◌, if◌then◌else◌, arith, Bool-cases, Option-cases, ◌⊎◌, inl, inr, update_self, update_ne,
  count,
}
use apex.Base.Status.{Status, err, failed, einval, efault}
use apex.Sched.Defs.{Sched}
use apex.Sched.Sleep.{sch_lock, sch_unlock, sch_signal}
use apex.Signal.Sets.{Sigset, set_bits, ksigorset, ksigandnset, unblockable_out}
use apex.Signal.State.{Signals, on_sched, thread_cur, task_cur, set_sigs, sig_unblocked_pending}
use apex.Signal.Sending.{sig_flush, sig_restore}
use apex.Signal.Delivery.{Rval, sigreturn}
use apex.Signal.Calls.{
  How, block, unblock, setmask, other, UserAccess, new_mask, set_mask, procmask_locked,
  sc_rt_sigprocmask,
}
use apex.Signal.Flush.{sig_flush-Flushed}

-- Every signal that is pending on the task is blocked by all its threads.
pub record IsFlushed (t : ℕ) (k : Signals) : Type 0 where
  pub all_block :
      (th n : ℕ)
      → 0 < count th (k.tasks t).threads
      → n < set_bits
      → (k.tasks t).sig_pending n ≡ true
      → k.blocked th n ≡ true

pub sig_flush-IsFlushed : (t : ℕ) (k : Signals) → IsFlushed t (sig_flush t k)
sig_flush-IsFlushed t k =
    let f = sig_flush-Flushed t k in
    record {
      all_block = λ th n here l p.
          ap (λ (s : Sigset). s n) (f.same_blocked th)
          ∙ f.left n l p th (subst (λ ths. 0 < count th ths) f.same_threads here);
    }

on_sched-IsFlushed :
    (t : ℕ) (f : Sched → Sched) (k : Signals) → IsFlushed t k → IsFlushed t (on_sched f k)
on_sched-IsFlushed t f k h = record { all_block = h.all_block }

-- Whether a signal is blocked, by whether it was and whether it is in the new set.
abbrev pub Says : How → Bool → Bool → Bool → Type 0
Says block was given now = now ≡ (was || given)
Says unblock was given now = now ≡ (was && not given)
Says setmask was given now = now ≡ given
Says other was given now = true ≡ false

new_mask-Says :
    (how : How) (was given now : Sigset)
    → new_mask how was given ≡ some now
    → (n : ℕ) → Says how (was n) (given n) (now n)
unfolding new_mask ksigorset ksigandnset
new_mask-Says block was given now e n =
    let same : ksigorset was given ≡ now = cc in sym (ap (λ (s : Sigset). s n) same)
new_mask-Says unblock was given now e n =
    let same : ksigandnset was given ≡ now = cc in sym (ap (λ (s : Sigset). s n) same)
new_mask-Says setmask was given now e n =
    let same : given ≡ now = cc in sym (ap (λ (s : Sigset). s n) same)
new_mask-Says other was given now e n = absurd (cc)

-- SIGKILL and SIGSTOP, by their bits.
abbrev pub is_unblockable : ℕ → Bool
is_unblockable n = (n == 8) || (n == 18)

-- What sc_rt_sigprocmask does: with a new set and no error, the current thread's mask is what `how`
-- says, without SIGKILL and SIGSTOP, the other threads' masks are what they were, and the task's
-- pending signals are offered to its threads again; otherwise no mask and no pending signal
-- changes.
pub data Masked (how : How) (uset : Option Sigset) (k : Signals)
    : Status → Option Sigset → Signals → Type 0 where
  changed :
      (r : Status) (old : Option Sigset) (k' : Signals) (u : Sigset)
      → failed r ≡ false
      → uset ≡ some u
      → ((n : ℕ)
          → is_unblockable n ≡ false
          → Says how (k.blocked (thread_cur k) n) (u n) (k'.blocked (thread_cur k) n))
      → ((n : ℕ) → is_unblockable n ≡ true → k'.blocked (thread_cur k) n ≡ false)
      → ((th : ℕ) → (th == thread_cur k) ≡ false → k'.blocked th ≡ k.blocked th)
      → IsFlushed (task_cur k) k'
      → Masked how uset k r old k'
  unchanged :
      (r : Status) (old : Option Sigset) (k' : Signals)
      → (failed r ≡ true) ⊎ (uset ≡ none)
      → k'.blocked ≡ k.blocked
      → k'.pending ≡ k.pending
      → k'.tasks ≡ k.tasks
      → Masked how uset k r old k'

module _ (how : How) (uset : Option Sigset) (ua : UserAccess) (k : Signals)
    (begun : failed ua.begin ≡ false) where
  set_mask-Masked :
      (u b : Sigset) (old : Option Sigset)
      → uset ≡ some u
      → new_mask how (k.blocked (thread_cur k)) u ≡ some b
      → let (r, k') = set_mask ua.begin (some b) k in Masked how uset k r old k'
  unfolding set_mask unblockable_out
  set_mask-Masked u b old e e' =
      let k₁ = set_sigs (thread_cur k) (k.pending (thread_cur k)) (unblockable_out b) k in
      let f = sig_flush-Flushed (task_cur k) k₁ in
      let now =
        f.same_blocked (thread_cur k) ∙ update_self k.blocked (thread_cur k) (unblockable_out b) in
      changed ua.begin old (sig_flush (task_cur k) k₁) u begun e
        (λ n plain.
          subst (λ x. Says how (k.blocked (thread_cur k) n) (u n) x)
            (sym (ap (λ (s : Sigset). s n) now ∙ ground (arith, plain)))
            (new_mask-Says how (k.blocked (thread_cur k)) u b e' n))
        (λ n fixed. ap (λ (s : Sigset). s n) now ∙ ground (arith, fixed))
        (λ th apart.
          f.same_blocked th
          ∙ update_ne k.blocked (thread_cur k) (unblockable_out b) th
              (λ same. ground (arith, apart, same)))
        (sig_flush-IsFlushed (task_cur k) k₁)

  new_mask-Masked :
      (u : Sigset) (old : Option Sigset)
      → uset ≡ some u
      → let (r, k') = set_mask ua.begin (new_mask how (k.blocked (thread_cur k)) u) k in
        Masked how uset k r old k'
  unfolding set_mask
  new_mask-Masked u old e = elim (Option-cases (new_mask how (k.blocked (thread_cur k)) u)) [
    | inl bad ↦ rw bad (unchanged (err einval) old k (inl refl) refl refl refl)
    | inr (b, good) ↦
        subst
          (λ (m : Option Sigset).
            Masked how uset k (set_mask ua.begin m k).0 old (set_mask ua.begin m k).1)
          (sym good) (set_mask-Masked u b old e good)
  ]

locked-Masked :
    (how : How) (uset : Option Sigset) (uoldset : Bool) (ua : UserAccess) (k : Signals)
    → failed ua.begin ≡ false
    → let (r, old, k') = procmask_locked how uset uoldset ua k in Masked how uset k r old k'
unfolding procmask_locked
locked-Masked how none uoldset ua k begun = elim (Bool-cases (uoldset && not ua.write_ok)) [
  | inl bad ↦ rw bad (unchanged (err efault) none k (inl refl) refl refl refl)
  | inr good ↦ rw good (
      unchanged ua.begin (if uoldset then some (k.blocked (thread_cur k)) else none) k (inr refl)
        refl refl refl)
]
locked-Masked how (some u) uoldset ua k begun = elim (Bool-cases (uoldset && not ua.write_ok)) [
  | inl bad ↦ rw bad (unchanged (err efault) none k (inl refl) refl refl refl)
  | inr good ↦
      let old = if uoldset then some (k.blocked (thread_cur k)) else none in
      elim (Bool-cases ua.read_ok) [
        | inl readable ↦ rw (good, readable) (new_mask-Masked how (some u) ua k begun u old refl)
        | inr bad ↦ rw (good, bad) (unchanged (err efault) old k (inl refl) refl refl refl)
      ]
]

unlocked-Masked :
    (how : How) (uset : Option Sigset) (k : Signals) (r : Status) (old : Option Sigset)
    (k' : Signals)
    → Masked how uset (on_sched sch_lock k) r old k'
    → Masked how uset k r old (on_sched sch_unlock k')
unfolding sch_lock
unlocked-Masked how uset k _ _ _ (changed r old k' u e e' says fixed others f) =
    changed r old (on_sched sch_unlock k') u e e' says fixed others
      (record { all_block = f.all_block })
unlocked-Masked how uset k _ _ _ (unchanged r old k' why b p t) =
    unchanged r old (on_sched sch_unlock k') why b p t

-- sc_rt_sigprocmask with a new set and no error blocks in the current thread the signals that were
-- blocked or are in the set, those that were blocked and are not in it, or those in it, as `how`
-- says, but never SIGKILL and SIGSTOP; it leaves the other threads' masks, and leaves no signal
-- pending on the task that one of its threads does not block. Otherwise it changes no mask and no
-- pending signal.
pub sc_rt_sigprocmask-Masked :
    (how : How) (uset : Option Sigset) (uoldset size_ok : Bool) (ua : UserAccess) (k : Signals)
    → let (r, old, k') = sc_rt_sigprocmask how uset uoldset size_ok ua k in
      Masked how uset k r old k'
unfolding sc_rt_sigprocmask
sc_rt_sigprocmask-Masked how uset uoldset false ua k =
    unchanged (err einval) none k (inl refl) refl refl refl
sc_rt_sigprocmask-Masked how uset uoldset true ua k = elim (Bool-cases (failed ua.begin)) [
  | inl bad ↦ rw bad (unchanged ua.begin none k (inl bad) refl refl refl)
  | inr begun ↦ rw begun (
      let (r, old, k') = procmask_locked how uset uoldset ua (on_sched sch_lock k) in
      unlocked-Masked how uset k r old k'
        (locked-Masked how uset uoldset ua (on_sched sch_lock k) begun))
]

-- sig_restore leaves no signal pending on the current task that one of its threads does not block.
pub sig_restore-IsFlushed :
    (old : Sigset) (k : Signals) → IsFlushed (task_cur k) (sig_restore old k)
unfolding sig_restore
sig_restore-IsFlushed old k =
    let th = thread_cur k in
    let k₁ = set_sigs th (k.pending th) old (on_sched sch_lock k) in
    let k₂ = sig_flush (task_cur k) k₁ in
    let f = sig_flush-IsFlushed (task_cur k) k₁ in
    elim (Bool-cases (sig_unblocked_pending th k₂)) [
      | inl waiting ↦ rw waiting (
          on_sched-IsFlushed (task_cur k) sch_unlock (on_sched (sch_signal th) k₂)
            (on_sched-IsFlushed (task_cur k) (sch_signal th) k₂ f))
      | inr nothing ↦ rw nothing (on_sched-IsFlushed (task_cur k) sch_unlock k₂ f)
    ]

-- sigreturn gives the thread the mask of the frame, less SIGKILL and SIGSTOP, but does not offer it
-- the task's pending signals: one that this mask does not block stays pending on the task.
pub sigreturn-left :
    (b : Sigset) (r : Rval) (k : Signals) (n : ℕ)
    → (k.tasks (task_cur k)).sig_pending n ≡ true
    → b n ≡ false
    → let k' = (sigreturn (some (b, r)) k).1 in
      ((k'.tasks (task_cur k)).sig_pending n ≡ true)
      × (k'.blocked (thread_cur k) n ≡ false)
      × (k'.pending (thread_cur k) ≡ k.pending (thread_cur k))
unfolding sigreturn unblockable_out
sigreturn-left b r k n p free =
    (p, ground (arith, free), update_self k.pending (thread_cur k) (k.pending (thread_cur k)))
