-- ===== src/Sched/Defs.antt =====
-- The scheduler's state and its run queue: sys/kern/sch.cpp, sys/include/thread.h.
-- `arch_schedule` (sys/arch) only asks for a call of `sch_switch` as soon as interrupts allow:
-- it sets `switch_pending`, and the switch is a step of its own. Code that runs with interrupts
-- disabled is one step. `sched.h`'s policies are named; `QUANTUM` is a parameter.
use apex.Base.{
  ℕ, ◌+◌, Bool, true, false, not, ◌&&◌, ◌||◌, Option, none, some, List, [], ◌∷◌, ltb, leb, ◌==◌,
  if◌then◌else◌, update, remove,
}
use apex.Base.Status.{Status}

pub data Policy : Type 0 where
  fifo rr : Policy
  other : ℕ → Policy

-- `struct thread`: the bits of `state` one by one (`TH_SLEEP`, `TH_SUSPEND`, `TH_EXIT`,
-- `TH_ZOMBIE`); `timeleft` is the bit pattern of an `int`; `timeout` is the time for which the
-- thread's timer is armed; `sig_unblocked` is what `sig_unblocked_pending` says of the thread;
-- `thread_event` is the event `task->thread_event`.
pub record Thread : Type 0 where
  pub sleep : Bool
  pub suspend : Bool
  pub exit : Bool
  pub zombie : Bool
  pub policy : Policy
  pub prio : ℕ
  pub baseprio : ℕ
  pub timeleft : ℕ
  pub time : ℕ
  pub slpevt : Option ℕ
  pub slpret : Status
  pub timeout : Option ℕ
  pub sig_unblocked : Bool
  pub thread_event : ℕ

-- `resched`: 0, `RESCHED_SWITCH`, `RESCHED_PREEMPT`.
pub data Resched : Type 0 where
  idle switch preempt : Resched

abbrev pub is_idle : Resched → Bool
is_idle idle = true
is_idle switch = false
is_idle preempt = false

pub record Dpc : Type 0 where
  pub pending : Bool
  pub func : ℕ
  pub arg : ℕ

-- Threads, events and DPC objects are numbered. A thread's `link` stands in at most one queue.
pub record Sched : Type 0 where
  pub threads : ℕ → Thread
  pub active : ℕ
  pub runq : List ℕ
  pub sleepq : ℕ → List ℕ
  pub resched : Resched
  pub locks : ℕ
  pub switch_pending : Bool
  pub zombies : List ℕ
  pub dpcq : List ℕ
  pub dpcs : ℕ → Dpc

-- PRI_MIN and PRI_DEFAULT, and the bounds of user priorities.
abbrev pub pri_min : ℕ
pri_min = 255

abbrev pub pri_default : ℕ
pri_default = 200

abbrev pub prio_of : Sched → ℕ → ℕ
prio_of s t = (s.threads t).prio

abbrev pub set_thread : ℕ → Thread → Sched → Sched
set_thread t th s = record s { threads = update s.threads t th }

unfoldable pub runq_top : Sched → ℕ
runq_top s = elim s.runq [ [] ↦ pri_min + 1 | t ∷ _ ↦ prio_of s t ]

unfoldable pub thread_runnable : Thread → Bool
thread_runnable th = not (th.sleep || (th.suspend || th.zombie))

-- The walk of `runq_enqueue`: past every thread of higher or equal priority.
unfoldable pub insert_last : (ℕ → ℕ) → ℕ → List ℕ → List ℕ
insert_last prio t [] = t ∷ []
insert_last prio t (x ∷ xs) =
    let rest = insert_last prio t xs in if ltb (prio t) (prio x) then t ∷ x ∷ xs else x ∷ rest

-- The walk of `runq_insert`: past every thread of higher priority.
unfoldable pub insert_first : (ℕ → ℕ) → ℕ → List ℕ → List ℕ
insert_first prio t [] = t ∷ []
insert_first prio t (x ∷ xs) =
    let rest = insert_first prio t xs in if leb (prio t) (prio x) then t ∷ x ∷ xs else x ∷ rest

unfoldable pub runq_enqueue : ℕ → Sched → Sched
runq_enqueue t s = record s {
  runq = insert_last (prio_of s) t s.runq;
  resched =
      if ltb (prio_of s t) (prio_of s s.active) && is_idle s.resched then preempt else s.resched;
}

unfoldable pub runq_insert : ℕ → Sched → Sched
runq_insert t s = record s { runq = insert_first (prio_of s) t s.runq }

-- `none`: the queue is empty, and the head itself is taken for a thread.
unfoldable pub dequeue_of : List ℕ → Sched → Option (ℕ × Sched)
dequeue_of [] s = none
dequeue_of (t ∷ q) s = some (t, record s { runq = q })

unfoldable pub runq_dequeue : Sched → Option (ℕ × Sched)
unfolding dequeue_of
runq_dequeue s = dequeue_of s.runq s

-- `queue_remove` of a thread's link: it leaves whichever queue it stands in.
unfoldable pub unlink : ℕ → Sched → Sched
unlink t s = record s { runq = remove t s.runq; sleepq = λ e. remove t (s.sleepq e) }

unfoldable pub arch_schedule : Sched → Sched
arch_schedule s = record s { switch_pending = true }

unfoldable pub schedule : Sched → Sched
unfolding arch_schedule
schedule s = if (s.locks == 0) && not (is_idle s.resched) then arch_schedule s else s
