-- ===== src/Sync/Cond.antt =====
-- Condition variables, sys/sync/cond.cpp, over the mutex and the scheduler. A wait goes up to the
-- point where its thread gives up the processor; `cond_resume` is what it does once it runs again.
-- `interrupts` is what interrupts do to the scheduler once the mutex has been released and before
-- the thread calls sch_continue_sleep.
pub mod Signals
mod Tests
use apex.Base.{ℕ, Bool, true, false}
use apex.Base.Status.{Status, ok, err}
use apex.Sched.Defs.{Sched}
use apex.Sched.Sleep.{sch_prepare_sleep, sch_continue_sleep, sch_wakeone, sch_wakeup, sleep_result}
use apex.Sync.Wait.{Outcome, done, sleeps, sig_block_all}
use apex.Sync.Mutex.{Mutex, mutex_unlock, mutex_lock_s, restore_if_done}

pub record Cond : Type 0 where
  pub event : ℕ

unfoldable pub cond_init : ℕ → Cond
cond_init e = record { event = e }

-- Once the sleep is prepared the mutex is released.
unfoldable pub release_and_sleep :
    (Sched → Sched) → Mutex → Status × Sched → Outcome × Mutex × Sched
release_and_sleep interrupts m (err e, s) = (done (err e), m, s)
release_and_sleep interrupts m (ok n, s) =
    let (r, m', s') = mutex_unlock m s in (sleeps, m', sch_continue_sleep (interrupts s'))

unfoldable pub cond_timedwait_interruptible :
    (Sched → Sched) → Cond → Mutex → ℕ → Sched → Outcome × Mutex × Sched
unfolding release_and_sleep
cond_timedwait_interruptible interrupts c m nsec s =
    release_and_sleep interrupts m (sch_prepare_sleep c.event nsec s)

-- The mutex is locked again, with signals blocked, and the result is what the thread was woken
-- with.
unfoldable pub cond_resume : Mutex → Sched → Status × (Outcome × Mutex × Sched)
cond_resume m s = (sleep_result s, mutex_lock_s true m s)

unfoldable pub cond_timedwait : (Sched → Sched) → Cond → Mutex → ℕ → Sched → Outcome × Mutex × Sched
unfolding cond_timedwait_interruptible
cond_timedwait interrupts c m nsec s =
    restore_if_done (s.threads s.active).sig_unblocked
      (cond_timedwait_interruptible interrupts c m nsec (sig_block_all s))

unfoldable pub cond_wait_interruptible :
    (Sched → Sched) → Cond → Mutex → Sched → Outcome × Mutex × Sched
unfolding cond_timedwait_interruptible
cond_wait_interruptible interrupts c m s = cond_timedwait_interruptible interrupts c m 0 s

unfoldable pub cond_wait : (Sched → Sched) → Cond → Mutex → Sched → Outcome × Mutex × Sched
unfolding cond_wait_interruptible
cond_wait interrupts c m s =
    restore_if_done (s.threads s.active).sig_unblocked
      (cond_wait_interruptible interrupts c m (sig_block_all s))

unfoldable pub cond_signal : Cond → Sched → Status × Sched
cond_signal c s = (ok 0, (sch_wakeone c.event s).0)

unfoldable pub cond_broadcast : Cond → Sched → Status × Sched
cond_broadcast c s = (ok 0, (sch_wakeup c.event (ok 0) s).0)
