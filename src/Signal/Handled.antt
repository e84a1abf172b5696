-- ===== src/Signal/Handled.antt =====
-- What the delivery of a signal to the current thread does: sig_deliver.
use apex.Base.{
  ℕ, suc, ◌<◌, ◌≡◌, refl, sym, ◌∙◌, ap, Bool, true, false, not, ◌&&◌, ◌||◌, none, some, ◌==◌,
  if◌then◌else◌, arith, Bool-cases, inl, inr, update, update_self,
}
use apex.Sched.Control.{sch_testexit}
use apex.Sched.Sleep.{sch_lock, sch_unlock}
use apex.Signal.Sets.{
  Sigset, set_bits, ksigandnset, ksigorset, unblockable_out, ksigfirst, ksigisemptyset,
}
use apex.Signal.Members.{
  IsFirst, ksigfirst-IsFirst, ksigisemptyset-none, ksigisemptyset-true, ksigaddset-inside,
  ksigdelset-inside,
}
use apex.Signal.State.{
  Handler, catch, Sigaction, Signals, on_sched, thread_cur, task_cur, set_sigs, sig_handler,
}
use apex.Signal.Delivery.{
  Rval, value, Frame, restart_rval, handler_mask, run_handler, act_on, take_signal,
  sig_deliver_slowpath, sig_deliver,
}

abbrev pub deliverable : Signals → Sigset
deliverable k = ksigandnset (k.pending (thread_cur k)) (k.blocked (thread_cur k))

-- The state in which a signal is acted on: it is no longer pending.
unfoldable pub taken : ℕ → Signals → Signals
taken n k =
    set_sigs (thread_cur k) (update (k.pending (thread_cur k)) n false) (k.blocked (thread_cur k))
      (on_sched sch_lock k)

some_pending :
    (k : Signals)
    → ksigisemptyset (deliverable k) ≡ false
    → ksigisemptyset (k.pending (thread_cur k)) ≡ false
unfolding ksigandnset
some_pending k h = elim (Bool-cases (ksigisemptyset (k.pending (thread_cur k)))) [
  | inl e ↦
      let e' = ksigisemptyset-none (deliverable k) (λ n l.
        let none_there = ksigisemptyset-true (k.pending (thread_cur k)) e n l in
        ground (arith, none_there)) in
      absurd (cc)
  | inr e ↦ e
]

slow :
    (set_ok : Bool) (rval : Rval) (k : Signals)
    → ksigisemptyset (deliverable k) ≡ false
    → sig_deliver set_ok rval k ≡ sig_deliver_slowpath set_ok (k.pending (thread_cur k)) rval k
unfolding sig_deliver
slow set_ok rval k h = rw (some_pending k h) refl

takes :
    (set_ok : Bool) (rval : Rval) (k : Signals)
    → (k.sched.threads (thread_cur k)).exit ≡ false
    → ksigisemptyset (deliverable k) ≡ false
    → sig_deliver_slowpath set_ok (k.pending (thread_cur k)) rval k
      ≡ take_signal set_ok (ksigfirst (deliverable k)) rval (on_sched sch_lock k)
unfolding sig_deliver_slowpath sch_testexit
takes set_ok rval k stays h = rw (stays, h) refl

acts :
    (set_ok : Bool) (rval : Rval) (k : Signals) (n : ℕ)
    → n < set_bits
    → take_signal set_ok (suc n) rval (on_sched sch_lock k)
      ≡ act_on set_ok (suc n) rval (sig_handler k (task_cur k) (suc n)) (taken n k)
unfolding take_signal taken sch_lock
acts set_ok rval k n l = rw (take_signal, ksigdelset-inside (k.pending (thread_cur k)) n l) refl

-- sig_deliver acts on the first signal that is pending on the thread and not blocked.
pub acts_on_first :
    (set_ok : Bool) (rval : Rval) (k : Signals)
    → (k.sched.threads (thread_cur k)).exit ≡ false
    → ksigisemptyset (deliverable k) ≡ false
    → (n : ℕ) × IsFirst (deliverable k) n
      × (ksigfirst (deliverable k) ≡ suc n)
      × (sig_deliver set_ok rval k
          ≡ act_on set_ok (suc n) rval (sig_handler k (task_cur k) (suc n)) (taken n k))
acts_on_first set_ok rval k stays h =
    let (n, first, f) = ksigfirst-IsFirst (deliverable k) h in
    (
      n,
      f,
      first,
      slow set_ok rval k h
          ∙ takes set_ok rval k stays h
          ∙ ap (λ sig. take_signal set_ok sig rval (on_sched sch_lock k)) first
          ∙ acts set_ok rval k n f.inside,
    )

-- A handler is about to run for signal `n + 1`: the first signal that was deliverable is no longer
-- pending, and the mask has the action's mask and, without SA_NODEFER, the signal itself, but not
-- SIGKILL (bit 8) and SIGSTOP (bit 18). The frame restores the old mask and the result.
pub record Handled (act : Sigaction) (h n : ℕ) (rval : Rval) (frame : Frame) (k k' : Signals)
    : Type 0 where
  pub first : IsFirst (deliverable k) n
  pub handler : frame.handler_at ≡ h
  pub signal : frame.signal ≡ suc n
  pub saved : frame.saved_blocked ≡ k.blocked (thread_cur k)
  pub result : frame.saved_rval ≡ restart_rval act rval
  pub cleared : (m : ℕ) → k'.pending (thread_cur k) m ≡ (k.pending (thread_cur k) m && not (m == n))
  pub masked :
      (m : ℕ)
      → k'.blocked (thread_cur k) m ≡ (
          (k.blocked (thread_cur k) m || (act.mask m || (not act.sa_nodefer && (m == n))))
          && (not (m == 8) && not (m == 18)))

abbrev pub action_of : ℕ → Signals → Sigaction
action_of n k = (k.tasks (task_cur k)).sig_action (suc n)

mask-bits :
    (act : Sigaction) (n : ℕ) (b : Sigset)
    → n < set_bits
    → (b' : Sigset) × (handler_mask act (suc n) b ≡ some b')
      × ((m : ℕ)
          → unblockable_out b' m ≡ (
              (b m || (act.mask m || (not act.sa_nodefer && (m == n))))
              && (not (m == 8) && not (m == 18))))
unfolding handler_mask ksigorset unblockable_out
mask-bits act n b l = elim (Bool-cases act.sa_nodefer) [
  | inl defer ↦ (ksigorset b act.mask, rw defer refl, λ m. ground (arith, defer))
  | inr defer ↦ (
    update (ksigorset b act.mask) n true,
    rw defer (ksigaddset-inside (ksigorset b act.mask) n l),
    λ m. ground (arith, defer),
  )
]

frame_of : ℕ → ℕ → Rval → Signals → Frame
frame_of h n rval k =
    let act = action_of n k in
    record {
      saved_blocked = k.blocked (thread_cur k);
      handler_at = h;
      restorer_at = if act.sa_restorer then some act.restorer else none;
      signal = suc n;
      with_info = act.sa_siginfo;
      saved_rval = restart_rval act rval;
    }

runs :
    (h n : ℕ) (rval : Rval) (k : Signals) (b : Sigset)
    → handler_mask (action_of n k) (suc n) (k.blocked (thread_cur k)) ≡ some b
    → act_on true (suc n) rval (catch h) k
      ≡ some (
        value (suc n),
        some (frame_of h n rval k),
        on_sched sch_unlock
            (set_sigs (thread_cur k) (k.pending (thread_cur k)) (unblockable_out b) k),
      )
unfolding act_on run_handler frame_of
runs h n rval k b e = rw (run_handler, e) refl

without_bit : (s : Sigset) (n m : ℕ) → update s n false m ≡ (s m && not (m == n))
without_bit s n m = ground arith

-- If a deliverable signal is pending on a thread that stays, the first one has a handler, and its
-- frame can be set up, sig_deliver returns its number, and the handler is about to run.
pub sig_deliver-Handled :
    (rval : Rval) (k : Signals) (h : ℕ)
    → (k.sched.threads (thread_cur k)).exit ≡ false
    → ksigisemptyset (deliverable k) ≡ false
    → sig_handler k (task_cur k) (ksigfirst (deliverable k)) ≡ catch h
    → (n : ℕ) × (frame : Frame) × (k' : Signals) × (sig_deliver true rval k
        ≡ some (value (suc n), some frame, k'))
      × Handled (action_of n k) h n rval frame k k'
unfolding taken frame_of sch_lock set_sigs
sig_deliver-Handled rval k h stays some_there caught =
    let (n, f, first, acted) = acts_on_first true rval k stays some_there in
    let caught' : sig_handler k (task_cur k) (suc n) ≡ catch h =
      ap (sig_handler k (task_cur k)) (sym first) ∙ caught in
    let same : (taken n k).blocked (thread_cur k) ≡ k.blocked (thread_cur k) =
      update_self k.blocked (thread_cur k) (k.blocked (thread_cur k)) in
    let (b, e, bits) = mask-bits (action_of n k) n ((taken n k).blocked (thread_cur k)) f.inside in
    (
      n,
      frame_of h n rval (taken n k),
      on_sched sch_unlock (
          set_sigs (thread_cur k) ((taken n k).pending (thread_cur k)) (unblockable_out b)
            (taken n k)),
      acted
          ∙ ap (λ (x : Handler). act_on true (suc n) rval x (taken n k)) caught'
          ∙ runs h n rval (taken n k) b e,
      record {
        first = f;
        handler = refl;
        signal = refl;
        saved = same;
        result = refl;
        cleared = λ m.
            ap (λ (s : Sigset). s m)
              (update_self (taken n k).pending (thread_cur k) ((taken n k).pending (thread_cur k))
                ∙ update_self k.pending (thread_cur k) (update (k.pending (thread_cur k)) n false))
            ∙ without_bit (k.pending (thread_cur k)) n m;
        masked = λ m.
            ap (λ (s : Sigset). s m)
              (update_self (taken n k).blocked (thread_cur k) (unblockable_out b))
            ∙ bits m
            ∙ ap
                (λ (s : Sigset).
                  (s m || ((action_of n k).mask m || (not (action_of n k).sa_nodefer && (m == n))))
                  && (not (m == 8) && not (m == 18)))
                same;
      },
    )
