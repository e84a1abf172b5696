-- ===== src/Sched/Steps.antt =====
-- The scheduler as a machine: any of its operations may come next, from threads and interrupts,
-- where the source's assertions allow it.
use apex.Base.{
  ℕ, ◌≤◌, ◌≡◌, ◌≢◌, subst, List, ◌∷◌, true, false, ◌==◌, if◌then◌else◌, arith, count, update,
  Option, some, Bool-cases, inl, inr,
}
use apex.Base.Status.{Status, ok, err, eintr}
use apex.Sched.Defs.{Sched, Policy, idle, prio_of, thread_runnable}
use apex.Sched.Sleep.{
  sch_wakeup, sch_wakeone, sch_requeue, sch_lock, sch_unlock, sch_prepare_sleep, sch_continue_sleep,
  sch_unsleep, sch_cancel_sleep, sch_signal,
}
use apex.Sched.Control.{
  sch_switch, sched_yield, suspend_part, sch_suspend_resume, sch_elapse, sch_stop, sch_testexit,
  sch_setprio, sch_setpolicy, sch_dpc,
}
use apex.Sched.Runq.{Rises-le}
use apex.Sched.Valid.{IsValid, relabel-IsLinked, schedule-IsValid}
use apex.Sched.Wake.{IsAble}
use apex.Sched.Wake.Unsleep.{sch_unsleep-IsValid}
use apex.Sched.Wake.Wakeup.{AreAble, sch_wakeup-WakesAll}
use apex.Sched.Wake.Wakeone.{first_top, Agrees, sch_wakeone-IsValid}
use apex.Sched.Block.{
  sch_lock-IsValid, sch_unlock-IsValid, sch_prepare_sleep-IsValid, sch_continue_sleep-IsValid,
  sch_requeue-IsValid,
}
use apex.Sched.Run.{sch_switch-Switched}
use apex.Sched.Adjust.{
  sch_elapse-IsValid, sch_stop-IsValid, sch_setpolicy-IsValid, sched_yield-IsValid,
  sch_testexit-IsValid,
}
use apex.Sched.Adjust.Prio.{sch_setprio-IsValid}
use apex.Sched.Adjust.Suspend.{IsHeld, sch_suspend_resume-IsValid}
use apex.Sched.Dpcs.{sch_dpc-IsValid}

pub sch_signal-IsValid :
    (w : ℕ → ℕ) (t : ℕ) (s : Sched)
    → IsAble (s.threads t)
    → IsValid w s
    → IsValid w (sch_signal t s)
unfolding sch_signal
sch_signal-IsValid w t s able v = elim (Bool-cases (t == s.active)) [
  | inl same ↦ rw same (schedule-IsValid w _ (relabel-IsLinked w s _ _ _ v.linked) (λ h. cc))
  | inr differs ↦ rw differs (sch_unsleep-IsValid w t (err eintr) s able v)
]

pub sch_cancel_sleep-IsValid :
    (w : ℕ → ℕ) (s : Sched)
    → IsAble (s.threads s.active)
    → IsValid w s
    → IsValid w (sch_cancel_sleep s)
unfolding sch_cancel_sleep
sch_cancel_sleep-IsValid w s able v =
    sch_unlock-IsValid w _ (sch_unsleep-IsValid w s.active (ok 0) s able v)

-- One operation. Each constructor's premises are the source's assertions (a sleeper does not
-- prepare to sleep again, a resumed thread is suspended), that the threads to be woken are
-- neither suspended nor dead, that some thread can run, and, for `sch_wakeone`, that the thread
-- which it compares with the active one stands for the thread that it wakes.
pub data Step (w : ℕ → ℕ) (s : Sched) : (ℕ → ℕ) → Sched → Type 0 where
  lock : Step w s w (sch_lock s)
  unlock : Step w s w (sch_unlock s)
  prepare :
      (e nsec : ℕ)
      → (s.threads s.active).sleep ≡ false
      → (s.threads s.active).sig_unblocked ≡ false
      → Step w s (update w s.active e) (sch_prepare_sleep e nsec s).1
  continue : Step w s w (sch_continue_sleep s)
  cancel : IsAble (s.threads s.active) → Step w s w (sch_cancel_sleep s)
  unsleep : (t : ℕ) (r : Status) → IsAble (s.threads t) → Step w s w (sch_unsleep t r s)
  signal : (t : ℕ) → IsAble (s.threads t) → Step w s w (sch_signal t s)
  wakeup : (e : ℕ) (r : Status) → AreAble s (s.sleepq e) → Step w s w (sch_wakeup e r s).0
  wakeone :
      (e x : ℕ) (q : List ℕ)
      → s.sleepq e ≡ x ∷ q
      → IsAble (s.threads (first_top s x q))
      → Agrees s x q
      → Step w s w (sch_wakeone e s).0
  requeue :
      (l r t : ℕ) (q : List ℕ) → s.sleepq l ≡ t ∷ q → Step w s (update w t r) (sch_requeue l r s).0
  switches :
      (r : ℕ) {s' : Sched}
      → thread_runnable (s.threads r) ≡ true
      → AreAble s (s.sleepq (s.threads s.active).thread_event)
      → s.resched ≢ idle
      → s.locks ≡ 0
      → sch_switch s ≡ some s'
      → Step w s w s'
  yields : Step w s w (sched_yield s)
  suspend_resume :
      (o o' : Option ℕ) → IsHeld o' (suspend_part o s).0 → Step w s w (sch_suspend_resume o o' s)
  elapse : (quantum nsec : ℕ) → Step w s w (sch_elapse quantum nsec s)
  stop : (t : ℕ) → Step w s w (sch_stop t s)
  testexit : Step w s w (sch_testexit s).0
  setprio : (t base prio : ℕ) → Step w s w (sch_setprio t base prio s)
  setpolicy : (quantum t : ℕ) (p : Policy) → Step w s w (sch_setpolicy quantum t p s).1
  dpc :
      (dpc_event d func arg : ℕ)
      → AreAble s (s.sleepq dpc_event)
      → Step w s w (sch_dpc dpc_event d func arg s)

prepare-IsValid :
    (w : ℕ → ℕ) (e nsec : ℕ) (s : Sched)
    → (s.threads s.active).sleep ≡ false
    → (s.threads s.active).sig_unblocked ≡ false
    → IsValid w s
    → IsValid (update w s.active e) (sch_prepare_sleep e nsec s).1
prepare-IsValid w e nsec s awake clear v = elim (sch_prepare_sleep-IsValid w e nsec s awake v) [
  | inl r ↦ absurd (cc)
  | inr r ↦ r.4
]

run-IsValid :
    (w : ℕ → ℕ) (r : ℕ) (s s' : Sched)
    → thread_runnable (s.threads r) ≡ true
    → AreAble s (s.sleepq (s.threads s.active).thread_event)
    → s.resched ≢ idle
    → s.locks ≡ 0
    → sch_switch s ≡ some s'
    → IsValid w s
    → IsValid w s'
run-IsValid w r s s' run able asked free e v =
    let (s'', e', d) = sch_switch-Switched w s r asked free run able v in
    let same : s'' ≡ s' = cc in subst (IsValid w) same d.valid

-- Every operation keeps the scheduler valid.
pub Step-IsValid :
    (w : ℕ → ℕ) (s : Sched) {w' : ℕ → ℕ} {s' : Sched} → Step w s w' s' → IsValid w s → IsValid w' s'
Step-IsValid w s lock v = sch_lock-IsValid w s v
Step-IsValid w s unlock v = sch_unlock-IsValid w s v
Step-IsValid w s (prepare e nsec awake clear) v = prepare-IsValid w e nsec s awake clear v
Step-IsValid w s continue v = (sch_continue_sleep-IsValid w s v).0
Step-IsValid w s (cancel able) v = sch_cancel_sleep-IsValid w s able v
Step-IsValid w s (unsleep t r able) v = sch_unsleep-IsValid w t r s able v
Step-IsValid w s (signal t able) v = sch_signal-IsValid w t s able v
Step-IsValid w s (wakeup e r able) v = (sch_wakeup-WakesAll w e r s able v).valid
Step-IsValid w s (wakeone e x q h able agrees) v = (sch_wakeone-IsValid w e x q s h able agrees v).3
Step-IsValid w s (requeue l r t q h) v = (sch_requeue-IsValid w l r t q s h v).1
Step-IsValid w s (switches r {s' = s'} can able asked free e) v =
    run-IsValid w r s s' can able asked free e v
Step-IsValid w s yields v = sched_yield-IsValid w s v
Step-IsValid w s (suspend_resume o o' held) v = sch_suspend_resume-IsValid w o o' s held v
Step-IsValid w s (elapse quantum nsec) v = sch_elapse-IsValid w quantum nsec s v
Step-IsValid w s (stop t) v = sch_stop-IsValid w t s v
Step-IsValid w s testexit v = (sch_testexit-IsValid w s v).0
Step-IsValid w s (setprio t base prio) v = sch_setprio-IsValid w t base prio s v
Step-IsValid w s (setpolicy quantum t p) v = sch_setpolicy-IsValid w quantum t p s v
Step-IsValid w s (dpc dpc_event d func arg able) v = sch_dpc-IsValid w dpc_event d func arg s able v

pub data Reach (w : ℕ → ℕ) (s : Sched) : (ℕ → ℕ) → Sched → Type 0 where
  here : Reach w s w s
  next :
      {w' w'' : ℕ → ℕ} {s' s'' : Sched} → Reach w s w' s' → Step w' s' w'' s'' → Reach w s w'' s''

Reach-IsValid :
    (w : ℕ → ℕ) (s : Sched) {w' : ℕ → ℕ} {s' : Sched}
    → Reach w s w' s'
    → IsValid w s
    → IsValid w' s'
Reach-IsValid w s here v = v
Reach-IsValid w s (next r st) v = Step-IsValid _ _ st (Reach-IsValid w s r v)

-- What every reachable state has: a runnable thread is the active one or stands in the run queue
-- exactly once, one that cannot run does not stand there; a sleeping thread stands in exactly one
-- sleep queue; and where no reschedule is requested no runnable thread outranks the active one,
-- and where one is, with the scheduler unlocked, a switch is pending.
pub record IsSound (w : ℕ → ℕ) (s : Sched) : Type 0 where
  pub ready : (t : ℕ) → t ≢ s.active → thread_runnable (s.threads t) ≡ true → count t s.runq ≡ 1
  pub only : (t : ℕ) → thread_runnable (s.threads t) ≡ false → count t s.runq ≡ 0
  pub asleep :
      (t e : ℕ) → (s.threads t).sleep ≡ true → count t (s.sleepq e) ≡ (if w t == e then 1 else 0)
  pub awake : (t e : ℕ) → (s.threads t).sleep ≡ false → count t (s.sleepq e) ≡ 0
  pub outranked :
      s.resched ≡ idle
      → (t : ℕ) → thread_runnable (s.threads t) ≡ true
      → prio_of s s.active ≤ prio_of s t
  pub posted : s.resched ≢ idle → s.locks ≡ 0 → s.switch_pending ≡ true

IsValid-IsSound : (w : ℕ → ℕ) (s : Sched) → IsValid w s → IsSound w s
IsValid-IsSound w s v = record {
  ready = λ t ne run. ground (arith, v.linked.queued t);
  only = λ t stopped. ground (arith, v.linked.queued t);
  asleep = λ t e sleeps. ground (arith, v.linked.asleep t e);
  awake = λ t e wakes. ground (arith, v.linked.asleep t e);
  outranked = λ quiet t run. elim (Bool-cases (t == s.active)) [
    | inl same ↦ ground arith
    | inr differs ↦
        Rises-le (prio_of s) t (prio_of s s.active) s.runq (v.prompt quiet)
          (ground (arith, v.linked.queued t))
  ];
  posted = λ asked free. v.posted free asked;
}

-- Whatever sequence of operations is run from a valid state, the state that it reaches is sound.
pub Reach-IsSound : (w w' : ℕ → ℕ) (s s' : Sched) → IsValid w s → Reach w s w' s' → IsSound w' s'
Reach-IsSound w w' s s' v r = IsValid-IsSound w' s' (Reach-IsValid w s r v)
