-- ===== src/Signal/Exec.antt =====
-- sig_exec and the delivery of a signal that is pending across exec.
use apex.Base.{
  ℕ, zero, suc, ◌≤◌, ◌<◌, ◌≡◌, refl, sym, ◌∙◌, ap, Bool, true, false, ◌&&◌, ◌||◌, none, ltb, leb,
  ◌==◌, if◌then◌else◌, arith, Bool-cases, inl, inr, ==_iff, update, update_self,
}
use apex.Signal.Sets.{nsig, sigkill, sigstop, sigtstp, sigttou, ksigfirst, ksigisemptyset}
use apex.Signal.State.{
  Handler, dfl, catch, Sigaction, Signals, thread_cur, task_cur, default_ignore, sig_handler,
}
use apex.Signal.Delivery.{Rval, default_action, act_on, sig_deliver}
use apex.Signal.Calls.{exec_loop, sig_exec, reset_caught}
use apex.Signal.Handled.{deliverable, taken, acts_on_first}

-- The loop of sig_exec changes the handlers of signals 1 to `n`.
exec_loop-handler :
    (n : ℕ) (a : ℕ → Sigaction) (i : ℕ)
    → (exec_loop n a i).handler
      ≡ (if (0 == i) || ltb n i then (a i).handler else reset_caught (a i).handler)
unfolding exec_loop
exec_loop-handler zero a i = elim (Bool-cases (0 == i)) [
  | inl none_there ↦ rw none_there refl
  | inr there ↦ (let l : ltb 0 i ≡ true = ground (arith, there) in rw (there, l) refl)
]
exec_loop-handler (suc n) a i =
    let a' = update a (suc n) (record (a (suc n)) { handler = reset_caught (a (suc n)).handler }) in
    exec_loop-handler n a' i ∙ (elim (Bool-cases (i == suc n)) [
      | inl same ↦ rw ((==_iff i (suc n)).0 same) (
          let z : (0 == suc n) ≡ false = ground arith in
          let l : ltb n (suc n) ≡ true = ground arith in
          let l' : ltb (suc n) (suc n) ≡ false = ground arith in
          let e : (suc n == suc n) ≡ true = ground arith in rw (z, l, l', e) refl)
      | inr other ↦ let l : ltb (suc n) i ≡ ltb n i = ground (arith, other) in rw (other, l) refl
    ])

sig_exec-handler :
    (t sig h : ℕ) (k : Signals)
    → 0 < sig
    → sig ≤ nsig
    → sig_handler k t sig ≡ catch h
    → sig_handler (sig_exec t k) t sig ≡ dfl
unfolding sig_exec
sig_exec-handler t sig h k low high caught =
    let inside : ((0 == sig) || ltb nsig sig) ≡ false = ground (arith, low, high) in
    ap (λ task. (task.sig_action sig).handler)
      (update_self k.tasks t
        (record (k.tasks t) { sig_action = exec_loop nsig (k.tasks t).sig_action }))
    ∙ exec_loop-handler nsig (k.tasks t).sig_action sig
    ∙ rw (inside, caught) refl

ignored-asserts :
    (set_ok : Bool) (sig : ℕ) (rval : Rval) (k : Signals)
    → default_ignore sig ≡ true
    → act_on set_ok sig rval dfl k ≡ none
unfolding act_on default_action
ignored-asserts set_ok sig rval k ignored =
    let running : (leb sigtstp sig && leb sig sigttou) ≡ false = ground (arith, ignored) in
    let late : ((sig == sigkill) || ((sig == sigstop) || default_ignore sig)) ≡ true =
      ground (arith, ignored) in
    rw (default_action, running, late) refl

-- A signal that is ignored by default and has a handler, and that is pending when the program is
-- replaced, makes an assertion fail: sig_exec takes the handler away and leaves the signal pending,
-- and sig_deliver of the signal, when it is the first that is deliverable, expects a handler.
pub sig_exec-sig_deliver :
    (set_ok : Bool) (rval : Rval) (k : Signals) (h : ℕ)
    → (k.sched.threads (thread_cur k)).exit ≡ false
    → ksigisemptyset (deliverable k) ≡ false
    → default_ignore (ksigfirst (deliverable k)) ≡ true
    → sig_handler k (task_cur k) (ksigfirst (deliverable k)) ≡ catch h
    → sig_deliver set_ok rval (sig_exec (task_cur k) k) ≡ none
unfolding sig_exec
sig_exec-sig_deliver set_ok rval k h stays some_there ignored caught =
    let k' = sig_exec (task_cur k) k in
    let (n, f, first, acted) = acts_on_first set_ok rval k' stays some_there in
    let caught' : sig_handler k (task_cur k) (suc n) ≡ catch h =
      ap (sig_handler k (task_cur k)) (sym first) ∙ caught in
    let e =
      sig_exec-handler (task_cur k) (suc n) h k (omega arith) (omega (arith, f.inside)) caught' in
    acted
    ∙ ap (λ (x : Handler). act_on set_ok (suc n) rval x (taken n k')) e
    ∙ ignored-asserts set_ok (suc n) rval (taken n k') (ap default_ignore (sym first) ∙ ignored)
