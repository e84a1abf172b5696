-- ===== src/Signal/Action.antt =====
-- sc_rt_sigaction on every branch: no signal that the task ignores stays pending.
use apex.Base.{
  ℕ, suc, ◌<◌, ◌≡◌, refl, Bool, true, false, not, ◌||◌, ◌&&◌, Option, none, some, ltb, ◌==◌,
  if◌then◌else◌, arith, Bool-cases, inl, inr,
}
use apex.Base.Status.{Status, err, failed, efault, einval, enosys}
use apex.Sched.Defs.{Sched}
use apex.Sched.Sleep.{sch_lock, sch_unlock}
use apex.Signal.Sets.{set_bits, nsig, sigkill, sigstop}
use apex.Signal.State.{Sigaction, Signals, on_sched, task_cur}
use apex.Signal.Calls.{UserAccess, set_action, sigaction_locked, sc_rt_sigaction}
use apex.Signal.Clean.{IsClean, set_action-IsClean}

-- A result of sc_rt_sigaction that leaves the task clean.
pub record Cleanly (t : ℕ) (k : Signals) (o : Option (Status × Option Sigaction × Signals))
    : Type 0 where
  pub status : Status
  pub old : Option Sigaction
  pub after : Signals
  pub returns : o ≡ some (status, old, after)
  pub clean : IsClean t after

unchanged-Cleanly :
    (t : ℕ) (k : Signals) (r : Status) (old : Option Sigaction)
    → IsClean t k
    → Cleanly t k (some (r, old, k))
unchanged-Cleanly t k r old c = record {
  status = r;
  old = old;
  after = k;
  returns = refl;
  clean = c;
}

acted-Cleanly :
    (n : ℕ) (act : Sigaction) (r : Status) (old : Option Sigaction) (k : Signals)
    → n < set_bits
    → IsClean (task_cur k) k
    → Cleanly
        (task_cur k)
        k
        (elim (set_action (task_cur k) (suc n) act k) [ none ↦ none | some k' ↦ some (r, old, k') ])
acted-Cleanly n act r old k l c =
    let (k', e, c') = set_action-IsClean (task_cur k) n act k l c in
    record { status = r; old = old; after = k'; returns = rw e refl; clean = c' }

-- A result that is clean on both branches of a test.
choose :
    {t : ℕ} {k : Signals} {x y : Option (Status × Option Sigaction × Signals)} (test : Bool)
    → Cleanly t k x
    → Cleanly t k y
    → Cleanly t k (if test then x else y)
choose true cx cy = cx
choose false cx cy = cy

locked-Cleanly :
    (n : ℕ) (uact : Option Sigaction) (uoldact size_ok : Bool) (ua : UserAccess) (k : Signals)
    → n < set_bits
    → IsClean (task_cur k) k
    → Cleanly (task_cur k) k (sigaction_locked (suc n) uact uoldact size_ok ua k)
unfolding sigaction_locked
locked-Cleanly n none uoldact size_ok ua k l c =
    let t = task_cur k in
    let old = if uoldact then some ((k.tasks t).sig_action (suc n)) else none in
    choose (uoldact && not ua.write_ok) (unchanged-Cleanly t k (err efault) none c)
      (unchanged-Cleanly t k ua.begin old c)
locked-Cleanly n (some act) uoldact size_ok ua k l c =
    let t = task_cur k in
    let old = if uoldact then some ((k.tasks t).sig_action (suc n)) else none in
    choose (uoldact && not ua.write_ok) (unchanged-Cleanly t k (err efault) none c) (
      choose ((suc n == sigkill) || (suc n == sigstop)) (unchanged-Cleanly t k (err einval) old c) (
        choose (not ua.read_ok) (unchanged-Cleanly t k (err efault) old c) (
          choose (not size_ok) (unchanged-Cleanly t k (err einval) old c) (
            choose act.sa_other (unchanged-Cleanly t k (err enosys) old c)
              (acted-Cleanly n act ua.begin old k l c)))))

on_sched-IsClean :
    (t : ℕ) (f : Sched → Sched) (k : Signals) → IsClean t k → IsClean t (on_sched f k)
on_sched-IsClean t f k c = record { on_task = c.on_task; on_threads = c.on_threads }

unlocked :
    (sig : ℕ) (uact : Option Sigaction) (uoldact size_ok : Bool) (ua : UserAccess) (k : Signals)
    → (ltb nsig sig || (sig == 0)) ≡ false
    → failed ua.begin ≡ false
    → Cleanly
        (task_cur k)
        (on_sched sch_lock k)
        (sigaction_locked sig uact uoldact size_ok ua (on_sched sch_lock k))
    → Cleanly (task_cur k) k (sc_rt_sigaction sig uact uoldact size_ok ua k)
unfolding sc_rt_sigaction
unlocked sig uact uoldact size_ok ua k in_range begun h = record {
  status = h.status;
  old = h.old;
  after = on_sched sch_unlock h.after;
  returns = rw (in_range, begun, h.returns) refl;
  clean = on_sched-IsClean (task_cur k) sch_unlock h.after h.clean;
}

-- For signals 1 to 64 sc_rt_sigaction returns, on every branch, and if no signal that the current
-- task ignores was pending on it or on its threads, none is afterwards.
pub sc_rt_sigaction-Cleanly :
    (n : ℕ) (uact : Option Sigaction) (uoldact size_ok : Bool) (ua : UserAccess) (k : Signals)
    → n < set_bits
    → IsClean (task_cur k) k
    → Cleanly (task_cur k) k (sc_rt_sigaction (suc n) uact uoldact size_ok ua k)
unfolding sc_rt_sigaction sch_lock
sc_rt_sigaction-Cleanly n uact uoldact size_ok ua k l c =
    let in_range : (ltb nsig (suc n) || (suc n == 0)) ≡ false = ground (arith, l) in
    elim (Bool-cases (failed ua.begin)) [
      | inl bad ↦ rw (in_range, bad) (unchanged-Cleanly (task_cur k) k ua.begin none c)
      | inr begun ↦ unlocked (suc n) uact uoldact size_ok ua k in_range begun (
          locked-Cleanly n uact uoldact size_ok ua (on_sched sch_lock k) l
            (on_sched-IsClean (task_cur k) sch_lock k c))
    ]
