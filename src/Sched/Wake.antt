-- ===== src/Sched/Wake.antt =====
-- Waking threads keeps the scheduler's queues right: sch_unsleep, sch_wakeup, sch_wakeone.
pub mod Wakeup
pub mod Unsleep
pub mod Wakeone
use apex.Base.{
  ℕ, ◌+◌, ◌≤◌, ◌<◌, ◌≡◌, ◌≢◌, refl, sym, List, [], ◌∷◌, Bool, true, false, not, ◌&&◌, ltb, leb,
  ◌==◌, if◌then◌else◌, arith, count, count-remove, update, Option, none, some, Bool-cases, inl, inr,
}
use apex.Base.Status.{Status}
use apex.Sched.Defs.{
  Thread, Sched, Resched, idle, is_idle, prio_of, set_thread, thread_runnable, insert_last,
  runq_top, runq_enqueue, unlink, schedule,
}
use apex.Sched.Sleep.{woken, enqueue_unless_active}
use apex.Sched.Runq.{
  Rises, Rises-congr, Rises-mono, Rises-insert_last, Rises-remove, count-insert_last,
}
use apex.Sched.Valid.{waits_for_cpu, one_if, IsLinked, IsPrompt, prio-set_thread}

-- All is linked, but that thread `t` has still to go to the run queue.
pub record IsLoose (where_at : ℕ → ℕ) (t : ℕ) (s : Sched) : Type 0 where
  pub queued : (a : ℕ) → one_if (t == a) + count a s.runq ≡ one_if (waits_for_cpu s a)
  pub asleep : (a e : ℕ) → count a (s.sleepq e) ≡ one_if ((s.threads a).sleep && (where_at a == e))
  pub ordered : Rises (prio_of s) 0 s.runq

pub runq_enqueue-IsLinked :
    (w : ℕ → ℕ) (t : ℕ) (s : Sched) → IsLoose w t s → IsLinked w (runq_enqueue t s)
unfolding runq_enqueue
runq_enqueue-IsLinked w t s v = record {
  queued = λ a. omega (arith, count-insert_last (prio_of s) a t s.runq, v.queued a);
  asleep = v.asleep;
  ordered = Rises-insert_last (prio_of s) t 0 s.runq (omega arith) v.ordered;
}

pub runq_enqueue-IsPrompt : (t : ℕ) (s : Sched) → IsPrompt s → IsPrompt (runq_enqueue t s)
unfolding runq_enqueue
runq_enqueue-IsPrompt t s p h =
    Rises-insert_last (prio_of s) t (prio_of s s.active) s.runq (ground arith) (p (ground arith))

module _ (w : ℕ → ℕ) (t : ℕ) (result : Status) (s : Sched) where
  abbrev pub wake : Sched
  wake = set_thread t (woken result (s.threads t)) (unlink t s)

  module _ (v : IsLinked w s) (sleeps : (s.threads t).sleep ≡ true) where
    count-wake_asleep :
        (a e : ℕ) → count a (wake.sleepq e) ≡ one_if ((wake.threads a).sleep && (w a == e))
    unfolding unlink
    count-wake_asleep a e = ground (arith, count-remove a t (s.sleepq e), v.asleep a e)

    wake-ordered : Rises (prio_of wake) 0 wake.runq
    unfolding unlink
    wake-ordered =
        Rises-congr (prio_of s) (prio_of wake) 0 wake.runq (λ a h. ground arith)
          (Rises-remove (prio_of s) t 0 s.runq v.ordered)

    pub wake-IsLoose :
        t ≢ s.active
        → (s.threads t).suspend ≡ false
        → (s.threads t).zombie ≡ false
        → IsLoose w t wake
    unfolding unlink thread_runnable
    wake-IsLoose ne ns nz = record {
      queued = λ a. ground (arith, count-remove a t s.runq, v.queued a, v.queued t);
      asleep = count-wake_asleep;
      ordered = wake-ordered;
    }

    pub wake-IsLinked : t ≡ s.active → IsLinked w wake
    unfolding unlink thread_runnable
    wake-IsLinked eq = record {
      queued = λ a. ground (arith, count-remove a t s.runq, v.queued a, v.queued t);
      asleep = count-wake_asleep;
      ordered = wake-ordered;
    }

  pub wake-IsPrompt : IsPrompt s → IsPrompt wake
  unfolding unlink
  wake-IsPrompt p h =
      Rises-mono (prio_of wake) (prio_of wake s.active) (prio_of s s.active) wake.runq
        (ground arith)
        (Rises-congr (prio_of s) (prio_of wake) (prio_of s s.active) wake.runq (λ a h. ground arith)
          (Rises-remove (prio_of s) t (prio_of s s.active) s.runq (p h)))

-- A thread that may be put in the run queue once it is awake.
abbrev pub IsAble : Thread → Type 0
IsAble th = (th.suspend ≡ false) × (th.zombie ≡ false)
