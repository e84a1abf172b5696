-- ===== src/Sched/Wake/Wakeone.antt =====
-- sch_wakeone: which thread it wakes, when that keeps the scheduler valid, and when it does not.
use apex.Base.{
  none, ℕ, ◌≤◌, ◌<◌, ◌≡◌, ◌≢◌, refl, List, [], ◌∷◌, true, ltb, ◌==◌, if◌then◌else◌, arith, count,
  count-remove, remove, last, update, some, Bool-cases, inl, inr, ==_iff,
}
use apex.Base.Status.{Status, ok}
use apex.Sched.Defs.{Sched, prio_of, thread_runnable, runq_enqueue, unlink, schedule}
use apex.Sched.Sleep.{woken, sch_wakeone, highest, enqueue_unless_active}
use apex.Sched.Valid.{IsValid, schedule-IsValid, schedule_rest}
use apex.Sched.Wake.{
  IsAble, wake, wake-IsLoose, wake-IsLinked, wake-IsPrompt, runq_enqueue-IsLinked,
  runq_enqueue-IsPrompt,
}

module _ (prio : ℕ → ℕ) where
  highest_bounds :
      (top : ℕ) (q : List ℕ) (a : ℕ)
      → (prio (highest prio top q) ≤ prio top)
        × (0 < count a q → prio (highest prio top q) ≤ prio a)
  unfolding highest count
  highest_bounds top [] a = (omega arith, λ h. absurd (omega arith))
  highest_bounds top (x ∷ xs) a =
      let ih = highest_bounds (if ltb (prio x) (prio top) then x else top) xs a in
      (ground arith, λ h. ground arith)

  highest-mem : (top : ℕ) (q : List ℕ) → 0 < count (highest prio top q) (top ∷ q)
  unfolding highest count
  highest-mem top [] = ground arith
  highest-mem top (x ∷ xs) =
      let ih = highest-mem (if ltb (prio x) (prio top) then x else top) xs in ground arith

-- The thread that is woken: it sleeps on the event, and none there has a higher priority.
pub record IsTop (s : Sched) (e : ℕ) (top : ℕ) : Type 0 where
  pub listed : 0 < count top (s.sleepq e)
  pub best : (a : ℕ) → 0 < count a (s.sleepq e) → prio_of s top ≤ prio_of s a

abbrev pub first_top : Sched → ℕ → List ℕ → ℕ
first_top s x q = highest (prio_of s) x (x ∷ q)

pub first_top-IsTop :
    (s : Sched) (e x : ℕ) (q : List ℕ) → s.sleepq e ≡ x ∷ q → IsTop s e (first_top s x q)
unfolding count highest
first_top-IsTop s e x q h = record {
  listed = rw h (let m = highest-mem (prio_of s) x (x ∷ q) in ground arith);
  best = λ a m. (highest_bounds (prio_of s) x (x ∷ q) a).1 (rw h at m);
}

-- The comparison that the source makes agrees with the one that is meant.
abbrev pub Agrees : Sched → ℕ → List ℕ → Type 0
Agrees s x q = (last x q == s.active) ≡ (first_top s x q == s.active)

place-threads :
    (tested t : ℕ) (s : Sched) → (schedule (enqueue_unless_active tested t s)).threads ≡ s.threads
unfolding enqueue_unless_active runq_enqueue
place-threads tested t s = elim (Bool-cases (tested == s.active)) [
  | inl same ↦ rw same (schedule_rest s).0
  | inr differs ↦ rw differs (schedule_rest (runq_enqueue t s)).0
]

place-IsValid :
    (w : ℕ → ℕ) (tested t : ℕ) (result : Status) (s : Sched)
    → (tested == s.active) ≡ (t == s.active)
    → (s.threads t).sleep ≡ true
    → IsAble (s.threads t)
    → IsValid w s
    → IsValid w (schedule (enqueue_unless_active tested t (wake w t result s)))
unfolding enqueue_unless_active unlink
place-IsValid w tested t result s agrees sleeps able v = elim (Bool-cases (t == s.active)) [
  | inl same ↦
      rw (agrees, same)
        (schedule-IsValid w _
          (wake-IsLinked w t result s v.linked sleeps ((==_iff t s.active).0 same))
          (wake-IsPrompt w t result s v.prompt))
  | inr differs ↦
      rw (agrees, differs)
        (schedule-IsValid w _
          (runq_enqueue-IsLinked w t _
            (wake-IsLoose w t result s v.linked sleeps (ground arith) able.0 able.1))
          (runq_enqueue-IsPrompt t _ (wake-IsPrompt w t result s v.prompt)))
]

-- A wake-up of one of several sleepers picks a thread of highest priority, wakes it and no other,
-- and leaves the scheduler valid if that thread is able to run, and if the active thread is at
-- the same time the last sleeper and the one picked, or neither.
pub sch_wakeone-IsValid :
    (w : ℕ → ℕ) (e x : ℕ) (q : List ℕ) (s : Sched)
    → s.sleepq e ≡ x ∷ q
    → IsAble (s.threads (first_top s x q))
    → Agrees s x q
    → IsValid w s
    → let (s', t) = sch_wakeone e s in
      (t ≡ some (first_top s x q))
      × IsTop s e (first_top s x q)
      × (s'.threads
          ≡ update s.threads (first_top s x q) (woken (ok 0) (s.threads (first_top s x q))))
      × IsValid w s'
unfolding sch_wakeone unlink
sch_wakeone-IsValid w e x q s h able agrees v = rw h (
  refl,
  top,
  place-threads (last x q) (first_top s x q) (wake w (first_top s x q) (ok 0) s),
  place-IsValid w (last x q) (first_top s x q) (ok 0) s agrees
      (ground (arith, top.listed, v.linked.asleep (first_top s x q) e)) able v,
)
  where
    top : IsTop s e (first_top s x q)
    top = first_top-IsTop s e x q h

place-sleepq :
    (tested t : ℕ) (s : Sched) → (schedule (enqueue_unless_active tested t s)).sleepq ≡ s.sleepq
unfolding enqueue_unless_active runq_enqueue
place-sleepq tested t s = elim (Bool-cases (tested == s.active)) [
  | inl same ↦ rw same (schedule_rest s).1
  | inr differs ↦ rw differs (schedule_rest (runq_enqueue t s)).1
]

-- What a wake-up does, in any state: the picked thread leaves the queues and is woken.
pub sch_wakeone_lem :
    (e x : ℕ) (q : List ℕ) (s : Sched)
    → s.sleepq e ≡ x ∷ q
    → let (s', t) = sch_wakeone e s in
      let top = first_top s x q in
      (t ≡ some top)
      × (s'.threads ≡ update s.threads top (woken (ok 0) (s.threads top)))
      × (s'.sleepq ≡ λ e'. remove top (s.sleepq e'))
unfolding sch_wakeone unlink
sch_wakeone_lem e x q s h =
    let top = first_top s x q in
    rw h (
      refl,
      place-threads (last x q) top (wake w₀ top (ok 0) s),
      place-sleepq (last x q) top (wake w₀ top (ok 0) s),
    )
  where
    w₀ : ℕ → ℕ
    w₀ t = t

pub sch_wakeone_nobody : (e : ℕ) (s : Sched) → s.sleepq e ≡ [] → sch_wakeone e s ≡ (s, none)
unfolding sch_wakeone
sch_wakeone_nobody e s h = rw h

-- A thread that could run stands in no run queue, and nothing will ever pick it.
pub record IsLost (s : Sched) (t : ℕ) : Type 0 where
  pub runnable : thread_runnable (s.threads t) ≡ true
  pub waiting : t ≢ s.active
  pub unqueued : count t s.runq ≡ 0

-- If the active thread has prepared to sleep and is the last sleeper on the event, and another
-- one is picked, then that thread is awake, runnable and not active, and not in the run queue.
pub sch_wakeone-IsLost :
    (w : ℕ → ℕ) (e x : ℕ) (q : List ℕ) (s : Sched)
    → s.sleepq e ≡ x ∷ q
    → IsAble (s.threads (first_top s x q))
    → last x q ≡ s.active
    → first_top s x q ≢ s.active
    → IsValid w s
    → IsLost (sch_wakeone e s).0 (first_top s x q)
unfolding sch_wakeone enqueue_unless_active unlink thread_runnable
sch_wakeone-IsLost w e x q s h able at_end differs v =
    let tested : (last x q == s.active) ≡ true = (==_iff (last x q) s.active).1 at_end in
    let t = first_top s x q in
    let rest = schedule_rest (wake w t (ok 0) s) in
    rw (h, tested)
      (record {
        runnable = rw rest.0 (ground arith);
        waiting = rw rest.2 differs;
        unqueued = rw rest.3 (ground (arith, count-remove t t s.runq));
      })
