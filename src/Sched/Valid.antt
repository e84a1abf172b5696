-- ===== src/Sched/Valid.antt =====
-- The scheduler's invariant. `where_at` says on which event a sleeping thread waits.
use apex.Base.{
  ℕ, ◌≡◌, ◌≢◌, refl, Bool, true, not, ◌&&◌, ◌==◌, if◌then◌else◌, arith, Bool-cases, inl, inr, count,
}
use apex.Sched.Defs.{
  Thread, Sched, Resched, idle, is_idle, prio_of, set_thread, thread_runnable, schedule,
}
use apex.Sched.Runq.{Rises}

-- Should thread `t` stand in the run queue?
abbrev pub waits_for_cpu : Sched → ℕ → Bool
waits_for_cpu s t = thread_runnable (s.threads t) && not (t == s.active)

abbrev pub one_if : Bool → ℕ
one_if b = if b then 1 else 0

-- The run queue holds, once each and in order of priority, the runnable threads but the active
-- one; each sleeping thread stands once in the sleep queue of its event, and in no other.
pub record IsLinked (where_at : ℕ → ℕ) (s : Sched) : Type 0 where
  pub queued : (t : ℕ) → count t s.runq ≡ one_if (waits_for_cpu s t)
  pub asleep : (t e : ℕ) → count t (s.sleepq e) ≡ one_if ((s.threads t).sleep && (where_at t == e))
  pub ordered : Rises (prio_of s) 0 s.runq

-- Unless a reschedule is requested, no thread of higher priority than the active one waits.
abbrev pub IsPrompt : Sched → Type 0
IsPrompt s = s.resched ≡ idle → Rises (prio_of s) (prio_of s s.active) s.runq

-- A requested reschedule is under way unless the scheduler is locked.
abbrev pub IsPosted : Sched → Type 0
IsPosted s = s.locks ≡ 0 → s.resched ≢ idle → s.switch_pending ≡ true

pub record IsValid (where_at : ℕ → ℕ) (s : Sched) : Type 0 where
  pub linked : IsLinked where_at s
  pub prompt : IsPrompt s
  pub posted : IsPosted s

-- A change of a thread that keeps its priority keeps every priority.
pub prio-set_thread :
    (s : Sched) (t : ℕ) (th : Thread)
    → th.prio ≡ prio_of s t
    → (a : ℕ) → prio_of s a ≡ prio_of (set_thread t th s) a
prio-set_thread s t th e a = ground arith

-- The links do not depend on the reschedule request, the lock and the pending switch.
pub relabel-IsLinked :
    (w : ℕ → ℕ) (s : Sched) (r : Resched) (l : ℕ) (p : Bool)
    → IsLinked w s
    → IsLinked w (record s { resched = r; locks = l; switch_pending = p })
relabel-IsLinked w s r l p v = record { queued = v.queued; asleep = v.asleep; ordered = v.ordered }

pub schedule-IsPosted : (s : Sched) → IsPosted (schedule s)
unfolding schedule
schedule-IsPosted s l r = ground arith

pub schedule-IsLinked : (w : ℕ → ℕ) (s : Sched) → IsLinked w s → IsLinked w (schedule s)
unfolding schedule
schedule-IsLinked w s v = elim (Bool-cases ((s.locks == 0) && not (is_idle s.resched))) [
  | inl e ↦ rw e (record { queued = v.queued; asleep = v.asleep; ordered = v.ordered })
  | inr e ↦ rw e v
]

pub schedule-IsPrompt : (s : Sched) → IsPrompt s → IsPrompt (schedule s)
unfolding schedule
schedule-IsPrompt s p = elim (Bool-cases ((s.locks == 0) && not (is_idle s.resched))) [
  | inl e ↦ rw e p
  | inr e ↦ rw e p
]

pub schedule-IsValid : (w : ℕ → ℕ) (s : Sched) → IsLinked w s → IsPrompt s → IsValid w (schedule s)
schedule-IsValid w s v p = record {
  linked = schedule-IsLinked w s v;
  prompt = schedule-IsPrompt s p;
  posted = schedule-IsPosted s;
}

-- `schedule` asks for a switch at most.
pub schedule_rest :
    (s : Sched)
    → ((schedule s).threads ≡ s.threads)
      × ((schedule s).sleepq ≡ s.sleepq)
      × ((schedule s).active ≡ s.active)
      × ((schedule s).runq ≡ s.runq)
unfolding schedule
schedule_rest s = elim (Bool-cases ((s.locks == 0) && not (is_idle s.resched))) [
  | inl e ↦ rw e (refl, refl, refl, refl)
  | inr e ↦ rw e (refl, refl, refl, refl)
]
