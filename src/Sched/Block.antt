-- ===== src/Sched/Block.antt =====
-- Preparing, entering and cancelling sleep, and the scheduler lock: sys/kern/sch.cpp.
use apex.Base.{
  ℕ, ◌+◌, ◌-◌, ◌≡◌, ◌⊎◌, refl, List, [], ◌∷◌, ◌++◌, true, false, not, ◌&&◌, ◌==◌, arith, count,
  count-append, update, some, Bool-cases, inl, inr,
}
use apex.Base.Status.{ok, err, eintr}
use apex.Sched.Defs.{Thread, Sched, is_idle, prio_of, set_thread, thread_runnable, arch_schedule}
use apex.Sched.Sleep.{sch_lock, sch_unlock, sch_prepare_sleep, sch_continue_sleep, sch_requeue}
use apex.Sched.Runq.{Rises-congr, Rises-mono}
use apex.Sched.Valid.{IsValid, relabel-IsLinked}

pub sch_lock-IsValid : (w : ℕ → ℕ) (s : Sched) → IsValid w s → IsValid w (sch_lock s)
unfolding sch_lock
sch_lock-IsValid w s v = record {
  linked = relabel-IsLinked w s _ _ _ v.linked;
  prompt = v.prompt;
  posted = λ h. absurd (omega arith);
}

-- Unlocking keeps the scheduler valid, and posts a reschedule that was held back.
pub sch_unlock-IsValid : (w : ℕ → ℕ) (s : Sched) → IsValid w s → IsValid w (sch_unlock s)
unfolding sch_unlock arch_schedule
sch_unlock-IsValid w s v = elim (Bool-cases ((s.locks - 1 == 0) && not (is_idle s.resched))) [
  | inl e ↦ rw e (record {
    linked = relabel-IsLinked w s _ _ _ v.linked;
    prompt = v.prompt;
    posted = λ h r. refl;
  })
  | inr e ↦ rw e (record {
    linked = relabel-IsLinked w s _ _ _ v.linked;
    prompt = v.prompt;
    posted = λ h r. ground arith;
  })
]

-- Unlocking asks for a switch at most.
pub sch_unlock_rest :
    (s : Sched)
    → ((sch_unlock s).threads ≡ s.threads)
      × ((sch_unlock s).sleepq ≡ s.sleepq)
      × ((sch_unlock s).active ≡ s.active)
unfolding sch_unlock arch_schedule
sch_unlock_rest s = elim (Bool-cases ((s.locks - 1 == 0) && not (is_idle s.resched))) [
  | inl e ↦ rw e (refl, refl, refl)
  | inr e ↦ rw e (refl, refl, refl)
]

-- The active thread as the last sleeper on an event.
module _ (w : ℕ → ℕ) (e : ℕ) (th : Thread) (s : Sched) where
  abbrev fallen : Sched
  fallen = record (set_thread s.active th s) {
    sleepq = update s.sleepq e (s.sleepq e ++ s.active ∷ []);
    locks = s.locks + 1;
  }

  fallen-IsValid :
      (s.threads s.active).sleep ≡ false
      → th.sleep ≡ true
      → th.prio ≡ prio_of s s.active
      → IsValid w s
      → IsValid (update w s.active e) fallen
  unfolding thread_runnable count
  fallen-IsValid awake sleeps same v = record {
    linked = record {
      queued = λ a. ground (arith, v.linked.queued a);
      asleep = λ a e'. ground (
        arith,
        count-append a (s.sleepq e) (s.active ∷ []),
        v.linked.asleep a e,
        v.linked.asleep a e',
      );
      ordered =
          Rises-congr (prio_of s) (prio_of fallen) 0 s.runq (λ a h. ground arith) v.linked.ordered;
    };
    prompt = λ h.
        Rises-mono (prio_of fallen) (prio_of fallen s.active) (prio_of s s.active) s.runq
          (ground arith)
          (Rises-congr (prio_of s) (prio_of fallen) (prio_of s s.active) s.runq
            (λ a m. ground arith) (v.prompt h));
    posted = λ h. absurd (omega arith);
  }

-- A thread with a signal to handle does not go to sleep. Any other becomes the last sleeper on
-- the event, with the scheduler locked and still valid.
pub sch_prepare_sleep-IsValid :
    (w : ℕ → ℕ) (e nsec : ℕ) (s : Sched)
    → (s.threads s.active).sleep ≡ false
    → IsValid w s
    → let (r, s') = sch_prepare_sleep e nsec s in
      ((r ≡ err eintr) × ((s.threads s.active).sig_unblocked ≡ true) × (s' ≡ s))
      ⊎ ((r ≡ ok 0)
          × ((s'.threads s.active).sleep ≡ true)
          × (s'.sleepq e ≡ s.sleepq e ++ s.active ∷ [])
          × (s'.locks ≡ s.locks + 1)
          × IsValid (update w s.active e) s')
unfolding sch_prepare_sleep sch_lock
sch_prepare_sleep-IsValid w e nsec s awake v =
    elim (Bool-cases (s.threads s.active).sig_unblocked) [
      | inl signal ↦ rw signal (inl (refl, refl, refl))
      | inr clear ↦
          rw clear
            (inr (refl, ground arith, ground arith, refl, fallen-IsValid w e _ s awake refl refl v))
    ]

-- The scheduler is free again, and a thread that still sleeps asks for a switch.
pub sch_continue_sleep-IsValid :
    (w : ℕ → ℕ) (s : Sched)
    → IsValid w s
    → IsValid w (sch_continue_sleep s)
      × ((sch_continue_sleep s).locks ≡ 0)
      × ((s.threads s.active).sleep ≡ true → (sch_continue_sleep s).switch_pending ≡ true)
unfolding sch_continue_sleep arch_schedule
sch_continue_sleep-IsValid w s v = elim (Bool-cases (s.threads s.active).sleep) [
  | inl sleeps ↦ rw sleeps (
    record { linked = relabel-IsLinked w s _ _ _ v.linked; prompt = λ h. cc; posted = λ h r. refl },
    refl,
    λ h. refl,
  )
  | inr awake ↦ rw awake (elim (Bool-cases (is_idle s.resched)) [
    | inl quiet ↦ rw quiet (
      record {
        linked = relabel-IsLinked w s _ _ _ v.linked;
        prompt = v.prompt;
        posted = λ h r. ground arith;
      },
      refl,
      λ h. cc,
    )
    | inr asked ↦ rw asked (
      record {
        linked = relabel-IsLinked w s _ _ _ v.linked;
        prompt = v.prompt;
        posted = λ h r. refl;
      },
      refl,
      λ h. refl,
    )
  ])
]

-- A sleeper moves from the head of one event's queue to the tail of another's.
pub sch_requeue-IsValid :
    (w : ℕ → ℕ) (l r t : ℕ) (q : List ℕ) (s : Sched)
    → s.sleepq l ≡ t ∷ q
    → IsValid w s
    → let (s', o) = sch_requeue l r s in (o ≡ some t) × IsValid (update w t r) s'
unfolding sch_requeue count
sch_requeue-IsValid w l r t q s h v = rw h (
  refl,
  record {
    linked = record {
      queued = v.linked.queued;
      asleep = λ a e. ground (
        arith,
        count-append a (update s.sleepq l q r) (t ∷ []),
        v.linked.asleep a e,
        v.linked.asleep a l,
        v.linked.asleep a r,
        v.linked.asleep t l,
      );
      ordered = v.linked.ordered;
    };
    prompt = v.prompt;
    posted = v.posted;
  },
)
