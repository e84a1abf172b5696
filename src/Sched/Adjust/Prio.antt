-- ===== src/Sched/Adjust/Prio.antt =====
-- sch_setprio: the run queue stays in order and a needed preemption is requested.
use apex.Base.{
  ℕ, ◌≤◌, ◌≡◌, ◌≢◌, refl, List, [], ◌∷◌, true, ◌&&◌, ltb, ◌==◌, if◌then◌else◌, arith, count,
  count-remove, Bool-cases, inl, inr, ==_iff,
}
use apex.Sched.Defs.{
  Sched, idle, preempt, is_idle, prio_of, set_thread, thread_runnable, runq_top, unlink,
}
use apex.Sched.Control.{sch_setprio}
use apex.Sched.Runq.{Rises, Rises-congr, Rises-mono, Rises-remove}
use apex.Sched.Valid.{IsLinked, IsPrompt, IsValid, relabel-IsLinked, schedule-IsValid}
use apex.Sched.Wake.{IsLoose, runq_enqueue-IsLinked, runq_enqueue-IsPrompt}

runq_top-Rises :
    (s : Sched) (n : ℕ) (q : List ℕ)
    → s.runq ≡ q
    → n ≤ runq_top s
    → Rises (prio_of s) 0 q
    → Rises (prio_of s) n q
unfolding runq_top
runq_top-Rises s n [] h le r = tt
runq_top-Rises s n (x ∷ xs) h le r = (ground arith, r.1)

abbrev changed : ℕ → ℕ → ℕ → Sched → Sched
changed t base prio s = set_thread t (record (s.threads t) { baseprio = base; prio = prio }) s

module _ (w : ℕ → ℕ) (t base prio : ℕ) (s : Sched) (v : IsValid w s) where
  abbrev after : Sched
  after = changed t base prio s

  -- Out of the run queue a priority may be changed.
  unqueued-IsLinked : count t s.runq ≡ 0 → IsLinked w after
  unfolding thread_runnable
  unqueued-IsLinked out = record {
    queued = λ a. ground (arith, v.linked.queued a);
    asleep = λ a e. ground (arith, v.linked.asleep a e);
    ordered =
        Rises-congr (prio_of s) (prio_of after) 0 s.runq (λ a m. ground arith) v.linked.ordered;
  }

  unlinked-IsLoose :
      t ≢ s.active → thread_runnable (s.threads t) ≡ true → IsLoose w t (unlink t after)
  unfolding thread_runnable unlink
  unlinked-IsLoose ne run = record {
    queued = λ a. ground (arith, count-remove a t s.runq, v.linked.queued a, v.linked.queued t);
    asleep = λ a e.
        ground (arith, count-remove a t (s.sleepq e), v.linked.asleep a e, v.linked.asleep t e);
    ordered =
        Rises-congr (prio_of s) (prio_of after) 0 _ (λ a m. ground (arith, count-remove a t s.runq))
          (Rises-remove (prio_of s) t 0 s.runq v.linked.ordered);
  }

  unlinked-IsPrompt : t ≢ s.active → IsPrompt (unlink t after)
  unfolding unlink
  unlinked-IsPrompt ne h = Rises-mono (prio_of after) _ (prio_of s s.active) _ (ground arith) (
      Rises-congr (prio_of s) (prio_of after) (prio_of s s.active) _
        (λ a m. ground (arith, count-remove a t s.runq))
        (Rises-remove (prio_of s) t (prio_of s s.active) s.runq (v.prompt h)))

  unqueued-IsPrompt : t ≢ s.active → count t s.runq ≡ 0 → IsPrompt after
  unqueued-IsPrompt ne out h = Rises-mono (prio_of after) _ (prio_of s s.active) _ (ground arith) (
      Rises-congr (prio_of s) (prio_of after) (prio_of s s.active) _ (λ a m. ground arith)
        (v.prompt h))

  -- The active thread asks to be preempted if the head of the run queue outranks it.
  preempted-IsPrompt :
      t ≡ s.active
      → count t s.runq ≡ 0
      → (if ltb (runq_top after) prio && is_idle s.resched then preempt else s.resched) ≡ idle
      → Rises (prio_of after) (prio_of after s.active) s.runq
  preempted-IsPrompt same out h =
      Rises-mono (prio_of after) _ prio s.runq (ground arith)
        (runq_top-Rises after prio s.runq refl (ground arith) (unqueued-IsLinked out).ordered)

-- A change of priority, of whichever thread, keeps the scheduler valid; in particular a runnable
-- thread moves to its place, and a thread that now outranks the active one preempts it.
pub sch_setprio-IsValid :
    (w : ℕ → ℕ) (t base prio : ℕ) (s : Sched) → IsValid w s → IsValid w (sch_setprio t base prio s)
unfolding sch_setprio
sch_setprio-IsValid w t base prio s v = elim (Bool-cases (t == s.active)) [
  | inl same ↦ rw same (
      schedule-IsValid w _
        (relabel-IsLinked w (changed t base prio s) _ _ _
          (unqueued-IsLinked w t base prio s v (ground (arith, v.linked.queued t))))
        (preempted-IsPrompt w t base prio s v ((==_iff t s.active).0 same)
          (ground (arith, v.linked.queued t))))
  | inr differs ↦ rw differs (elim (Bool-cases (thread_runnable (s.threads t))) [
    | inl run ↦ rw run (
        schedule-IsValid w _
          (runq_enqueue-IsLinked w t _ (unlinked-IsLoose w t base prio s v (ground arith) run))
          (runq_enqueue-IsPrompt t _ (unlinked-IsPrompt w t base prio s v (ground arith))))
    | inr stopped ↦ rw stopped (
        schedule-IsValid w _
          (unqueued-IsLinked w t base prio s v (ground (arith, v.linked.queued t)))
          (unqueued-IsPrompt w t base prio s v (ground arith) (ground (arith, v.linked.queued t))))
  ])
]
