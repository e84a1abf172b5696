-- ===== src/Sync/Tests.antt =====
-- Locks at concrete states: tests, and the theorems at inputs that meet their hypotheses.
use apex.Base.{
  ℕ, ◌≡◌, refl, [], ◌∷◌, arith, true, false, not, none, some, ◌==◌, if◌then◌else◌, last, remove,
}
use apex.Base.Int.{pos}
use apex.Base.Status.{ok}
use apex.Sched.Defs.{Thread, rr, idle, Sched}
use apex.Sched.Sleep.{highest, enqueue_unless_active, sch_wakeone, woken, sch_lock}
use apex.Sync.Mutex.{Mutex, is_empty, mutex_lock_s, mutex_unlock}
use apex.Sync.Mutex.Owner.{IsCounted, Attempt, mutex_lock_s-Attempt}
use apex.Sync.Mutex.Handover.{mutex_unlock-hands_over}
use apex.Sync.Rwlock.{Rwlock, rwlock_write_lock_s}
use apex.Sync.Rwlock.Exclusion.{
  Users, readers, writer, Stands, with_reader, may_read, is_unused, rwlock_read_lock_s-Attempt,
  rwlock_write_lock_s-Attempt, unlock-Stands,
}
use apex.Sync.Rwlock.Exclusion
use apex.Sync.Semaphore.{Semaphore, semaphore_wait_interruptible, int_max}
use apex.Sync.Semaphore.Counting.{
  semaphore_post_lem, semaphore_post_once-binary, semaphore_wait-Attempt,
}
use apex.Sync.Semaphore.Counting

abbrev ready_at : ℕ → Thread
ready_at prio = record {
  sleep = false;
  suspend = false;
  exit = false;
  zombie = false;
  policy = rr;
  prio = prio;
  baseprio = prio;
  timeleft = 1000;
  time = 0;
  slpevt = none;
  slpret = ok 0;
  timeout = none;
  sig_unblocked = false;
  thread_event = 90;
}

-- Thread 1 runs; 2 and 4 sleep on event 7, 4 with the higher priority.
abbrev busy : Sched
busy = record {
  threads = λ t.
      if t == 2
      then record (ready_at 150) { sleep = true; slpevt = some 7 }
      else if t == 4
      then record (ready_at 100) { sleep = true; slpevt = some 7 }
      else ready_at 200;
  active = 1;
  runq = [];
  sleepq = λ e. if e == 7 then 2 ∷ 4 ∷ [] else [];
  resched = idle;
  locks = 0;
  switch_pending = false;
  zombies = [];
  dpcq = [];
  dpcs = λ d. record { pending = false; func = 0; arg = 0 };
}

abbrev contended : Mutex
contended = record { holder = some 1; waiters = true; recursive = false; count = 1; event = 7 }

abbrev foreign : Mutex
foreign = record { holder = some 3; waiters = false; recursive = false; count = 1; event = 8 }

foreign-IsCounted : IsCounted foreign
foreign-IsCounted = record {
  free = λ h. absurd (cc);
  held = λ t h. omega arith;
  marked = λ t h r. refl;
}

unlock_runs : (mutex_unlock contended busy).1.holder ≡ some 4
unfolding mutex_unlock sch_wakeone enqueue_unless_active highest last sch_lock
unlock_runs = refl

mutex_lock_s-Attempt_example :
    Attempt 1 foreign (mutex_lock_s true foreign busy).0 (mutex_lock_s true foreign busy).1
mutex_lock_s-Attempt_example = mutex_lock_s-Attempt true foreign busy foreign-IsCounted

mutex_unlock-hands_over_example :
    let (r, m', s') = mutex_unlock contended busy in
    (r ≡ ok 0)
    × (m'.holder ≡ some 4)
    × (m'.count ≡ 1)
    × (m'.waiters ≡ not (is_empty (s'.sleepq 7)))
    × (s'.sleepq 7 ≡ 2 ∷ [])
    × (s'.threads 4 ≡ woken (ok 0) (busy.threads 4))
unfolding highest remove
mutex_unlock-hands_over_example =
    mutex_unlock-hands_over contended busy 2 (4 ∷ []) refl refl refl refl

abbrev owned : Mutex
owned = record { holder = some 1; waiters = true; recursive = true; count = 1; event = 8 }

abbrev shared : Rwlock
shared = record { state = pos 2; event = 9 }

rwlock_write_lock_s-Attempt_example :
    Exclusion.Attempt false
      (readers 2)
      writer
      shared
      (rwlock_write_lock_s false shared busy).1
      (rwlock_write_lock_s false shared busy).0
rwlock_write_lock_s-Attempt_example = rwlock_write_lock_s-Attempt false (readers 2) shared busy refl

abbrev full : Semaphore
full = record { count = int_max; event = 9 }

abbrev unposted : Semaphore
unposted = record { count = 0; event = 9 }

abbrev posted : Semaphore
posted = record { count = 1; event = 9 }

semaphore_wait-Attempt_example :
    Counting.Attempt unposted posted posted busy
      (semaphore_wait_interruptible unposted posted posted busy)
semaphore_wait-Attempt_example = semaphore_wait-Attempt unposted posted posted busy
