-- ===== src/Sched/Adjust.antt =====
-- Time, priority, policy, suspension and exit keep the scheduler valid: sys/kern/sch.cpp.
pub mod Prio
pub mod Suspend
use apex.Base.{
  ℕ, suc, ◌+◌, ◌-◌, ◌≤◌, ◌<◌, ◌≡◌, ◌≢◌, ◌⊎◌, refl, sym, List, [], ◌∷◌, ◌++◌, Bool, true, false, not,
  ◌&&◌, ◌||◌, ltb, leb, ◌==◌, if◌then◌else◌, arith, count, update, Option, none, some, Bool-cases,
  inl, inr, ==_iff,
}
use apex.Base.Status.{Status, ok, err, Errno, einval}
use apex.Sched.Defs.{
  Thread, Policy, fifo, rr, other, Sched, Resched, idle, switch, preempt, is_idle, prio_of,
  set_thread, thread_runnable, schedule, arch_schedule, runq_top,
}
use apex.Sched.Control.{charge, sch_elapse, sch_stop, sch_setpolicy, sch_testexit, sched_yield}
use apex.Sched.Runq.{Rises, Rises-congr, Rises-mono, Rises-le}
use apex.Sched.Valid.{
  IsLinked, IsPrompt, IsPosted, IsValid, relabel-IsLinked, schedule-IsValid, prio-set_thread,
}

-- What the queues depend on in a thread.
pub record IsAlike (old new : Thread) : Type 0 where
  pub sleeps : new.sleep ≡ old.sleep
  pub runs : thread_runnable new ≡ thread_runnable old
  pub prio : new.prio ≡ old.prio

module _ (w : ℕ → ℕ) (t : ℕ) (th : Thread) (s : Sched) (same : IsAlike (s.threads t) th) where
  touch-IsLinked : IsLinked w s → IsLinked w (set_thread t th s)
  touch-IsLinked v = record {
    queued = λ a. ground (arith, v.queued a);
    asleep = λ a e. ground (arith, v.asleep a e);
    ordered =
        Rises-congr (prio_of s) (prio_of (set_thread t th s)) 0 s.runq (λ a m. ground arith)
          v.ordered;
  }

  touch-IsPrompt : IsPrompt s → IsPrompt (set_thread t th s)
  touch-IsPrompt p h =
      Rises-mono (prio_of (set_thread t th s)) _ (prio_of s s.active) s.runq (ground arith) (
        Rises-congr (prio_of s) (prio_of (set_thread t th s)) (prio_of s s.active) s.runq
          (λ a m. ground arith) (p h))

  pub touch-IsValid : IsValid w s → IsValid w (set_thread t th s)
  touch-IsValid v = record {
    linked = touch-IsLinked v.linked;
    prompt = touch-IsPrompt v.prompt;
    posted = v.posted;
  }

  -- With a request for a switch nothing need be said of the active thread's priority.
  pub touch-IsLinked_switch :
      IsLinked w s → IsLinked w (record (set_thread t th s) { resched = switch })
  touch-IsLinked_switch v =
      let k = touch-IsLinked v in
      record { queued = k.queued; asleep = k.asleep; ordered = k.ordered }

charge-IsAlike : (quantum nsec : ℕ) (th : Thread) → IsAlike th (charge quantum nsec th).0
unfolding charge thread_runnable
charge-IsAlike quantum nsec th = ground arith

pub sch_elapse-IsValid :
    (w : ℕ → ℕ) (quantum nsec : ℕ) (s : Sched) → IsValid w s → IsValid w (sch_elapse quantum nsec s)
unfolding sch_elapse
sch_elapse-IsValid w quantum nsec s v =
    let c = charge quantum nsec (s.threads s.active) in
    let same = charge-IsAlike quantum nsec (s.threads s.active) in
    let s' = set_thread s.active c.0 s in
    elim (Bool-cases (c.1 && leb (runq_top s') (prio_of s' s'.active))) [
      | inl up ↦
          rw up
            (schedule-IsValid w _ (touch-IsLinked_switch w s.active c.0 s same v.linked) (λ h. cc))
      | inr on ↦ rw on (touch-IsValid w s.active c.0 s same v)
    ]

pub sch_stop-IsValid : (w : ℕ → ℕ) (t : ℕ) (s : Sched) → IsValid w s → IsValid w (sch_stop t s)
unfolding sch_stop thread_runnable
sch_stop-IsValid w t s v =
    touch-IsValid w t _ s (record { sleeps = refl; runs = refl; prio = refl }) v

-- A policy other than FIFO and round robin is refused and changes nothing; any state stays valid.
pub sch_setpolicy-IsValid :
    (w : ℕ → ℕ) (quantum t : ℕ) (p : Policy) (s : Sched)
    → IsValid w s
    → IsValid w (sch_setpolicy quantum t p s).1
unfolding sch_setpolicy thread_runnable
sch_setpolicy-IsValid w quantum t (other p) s v = v
sch_setpolicy-IsValid w quantum t fifo s v =
    touch-IsValid w t _ s (record { sleeps = refl; runs = refl; prio = refl }) v
sch_setpolicy-IsValid w quantum t rr s v =
    touch-IsValid w t _ s (record { sleeps = refl; runs = refl; prio = refl }) v

pub sched_yield-IsValid : (w : ℕ → ℕ) (s : Sched) → IsValid w s → IsValid w (sched_yield s)
unfolding sched_yield arch_schedule
sched_yield-IsValid w s v = elim (Bool-cases (leb (runq_top s) (prio_of s s.active))) [
  | inr alone ↦ rw alone v
  | inl others ↦ rw others (record {
    linked = relabel-IsLinked w s _ _ _ v.linked;
    prompt = λ h. cc;
    posted = λ l r. refl;
  })
]

-- Only a thread told to exit dies, and it asks for a switch at once.
pub sch_testexit-IsValid :
    (w : ℕ → ℕ) (s : Sched)
    → IsValid w s
    → let (s', r) = sch_testexit s in
      IsValid w s'
      × (r ≡ (s.threads s.active).exit)
      × (r ≡ true → ((s'.threads s.active).zombie ≡ true) × (s'.switch_pending ≡ true))
unfolding sch_testexit arch_schedule thread_runnable
sch_testexit-IsValid w s v = elim (Bool-cases (s.threads s.active).exit) [
  | inr stays ↦ rw stays (v, refl, λ h. cc)
  | inl goes ↦ rw goes (
    record {
      linked = record {
        queued = λ a. ground (arith, v.linked.queued a);
        asleep = λ a e. ground (arith, v.linked.asleep a e);
        ordered = Rises-congr (prio_of s) _ 0 s.runq (λ a m. ground arith) v.linked.ordered;
      };
      prompt = λ h. cc;
      posted = λ l r. refl;
    },
    refl,
    λ h. (ground arith, refl),
  )
]
