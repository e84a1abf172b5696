-- ===== src/Sync/Semaphore.antt =====
-- The counting semaphore, sys/sync/semaphore.cpp.
pub mod Counting
use apex.Base.{
  ℕ, suc, ◌+◌, ◌-◌, ◌^◌, Bool, true, false, not, ltb, Option, none, some, ◌==◌, if◌then◌else◌,
}
use apex.Base.Status.{Status, ok, err, Errno, eoverflow}
use apex.Sched.Defs.{Sched}
use apex.Sched.Sleep.{sch_wakeone}
use apex.Sync.Wait.{Outcome, done, sleeps, wait_event_interruptible}

-- `count` is an atomic `int` that is never negative.
pub record Semaphore : Type 0 where
  pub count : ℕ
  pub event : ℕ

abbrev pub int_max : ℕ
int_max = 2 ^ 31 - 1

unfoldable pub semaphore_init : ℕ → Semaphore
semaphore_init e = record { count = 0; event = e }

unfoldable pub semaphore_post : Semaphore → Sched → Status × Semaphore × Sched
semaphore_post p s =
    if p.count == int_max
    then (err eoverflow, p, s)
    else (ok 0, record p { count = p.count + 1 }, (sch_wakeone p.event s).0)

unfoldable pub semaphore_post_once : Semaphore → Sched → Status × Semaphore × Sched
semaphore_post_once p s =
    if not (p.count == 0)
    then (ok 0, p, s)
    else (ok 0, record p { count = p.count + 1 }, (sch_wakeone p.event s).0)

-- The end of a wait; `q` is the semaphore when the count goes down. The result is `none` where the
-- assertion fails that the count has not fallen below 0.
unfoldable pub consumed : Semaphore → Outcome × Sched → Option (Outcome × Semaphore × Sched)
consumed q (done (ok n), s) =
    if q.count == 0 then none else some (done (ok 0), record q { count = q.count - 1 }, s)
consumed q (done (err e), s) = some (done (err e), q, s)
consumed q (sleeps, s) = some (sleeps, q, s)

-- The count is an atomic that nothing guards between the tests and the decrement: `p` is the
-- semaphore at the first test, `p'` at the second, once the thread has prepared to sleep, and `q`
-- at the end. A thread woken with no error makes the same attempt again.
unfoldable pub semaphore_wait_interruptible :
    Semaphore → Semaphore → Semaphore → Sched → Option (Outcome × Semaphore × Sched)
unfolding consumed
semaphore_wait_interruptible p p' q s =
    consumed q (wait_event_interruptible p.event (ltb 0 p.count) (ltb 0 p'.count) s)
