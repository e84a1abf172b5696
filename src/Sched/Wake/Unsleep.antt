-- ===== src/Sched/Wake/Unsleep.antt =====
-- sch_unsleep, sch_cancel_sleep, sleep_expire and sch_signal keep the scheduler valid.
use apex.Base.{
  ℕ, ◌≡◌, ◌≢◌, true, false, ◌==◌, arith, count, count-remove, Bool-cases, inl, inr, ==_iff,
}
use apex.Base.Status.{Status}
use apex.Sched.Defs.{Sched, prio_of, thread_runnable, runq_enqueue, unlink}
use apex.Sched.Sleep.{sch_unsleep}
use apex.Sched.Valid.{IsValid, schedule-IsValid, schedule_rest}
use apex.Sched.Runq.{count-insert_last}
use apex.Sched.Wake.{
  IsAble, wake, wake-IsLoose, wake-IsLinked, wake-IsPrompt, runq_enqueue-IsLinked,
  runq_enqueue-IsPrompt,
}

-- Cancelling a sleep keeps the scheduler valid, if the thread is neither suspended nor dead.
pub sch_unsleep-IsValid :
    (w : ℕ → ℕ) (t : ℕ) (result : Status) (s : Sched)
    → IsAble (s.threads t)
    → IsValid w s
    → IsValid w (sch_unsleep t result s)
unfolding sch_unsleep unlink
sch_unsleep-IsValid w t result s able v = elim (Bool-cases (s.threads t).sleep) [
  | inr awake ↦ rw awake v
  | inl sleeps ↦ rw sleeps (elim (Bool-cases (t == s.active)) [
    | inl same ↦ rw same (record {
      linked = wake-IsLinked w t result s v.linked sleeps ((==_iff _ _).0 same);
      prompt = wake-IsPrompt w t result s v.prompt;
      posted = v.posted;
    })
    | inr differs ↦ rw differs (
        schedule-IsValid w _
          (runq_enqueue-IsLinked w t _
            (wake-IsLoose w t result s v.linked sleeps (ground arith) able.0 able.1))
          (runq_enqueue-IsPrompt t _ (wake-IsPrompt w t result s v.prompt)))
  ])
]

-- A thread that sleeps and is suspended as well is put in the run queue when its sleep is
-- cancelled, though it stays suspended.
pub sch_unsleep-suspended :
    (w : ℕ → ℕ) (t : ℕ) (result : Status) (s : Sched)
    → t ≢ s.active
    → (s.threads t).sleep ≡ true
    → (s.threads t).suspend ≡ true
    → IsValid w s
    → let s' = sch_unsleep t result s in (count t s'.runq ≡ 1) × ((s'.threads t).suspend ≡ true)
unfolding sch_unsleep runq_enqueue unlink thread_runnable
sch_unsleep-suspended w t result s ne sleeps held v =
    let differs : (t == s.active) ≡ false = ground arith in
    let s₁ = wake w t result s in
    let rest = schedule_rest (runq_enqueue t s₁) in
    rw (sleeps, differs)
      (
        rw rest.3
            (ground (arith, count-insert_last (prio_of s₁) t t s₁.runq, count-remove t t s.runq)),
        rw rest.0 (ground arith),
      )
