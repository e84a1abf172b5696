-- ===== src/Sync/Mutex.antt =====
-- The recursive mutex, sys/sync/mutex.cpp, up to the point where a thread gives up the processor.
-- The word `owner` holds a thread and two flags: here a record. `spinlock_lock` and
-- `spinlock_unlock` (sys/sync/spinlock.cpp) are `sch_lock` and `sch_unlock`. The debug counters
-- (CONFIG_DEBUG) are left out.
pub mod Handover
pub mod Owner
use apex.Base.{
  ℕ, ◌+◌, ◌-◌, Bool, true, false, not, ◌&&◌, Option, none, some, List, [], ◌∷◌, ◌==◌, if◌then◌else◌,
}
use apex.Base.Status.{Status, ok, err, Errno, eintr, einval}
use apex.Sync.Wait.{Outcome, done, sleeps, sig_block_all, sig_restore}
use apex.Sched.Defs.{Sched, set_thread, schedule, arch_schedule}
use apex.Sched.Sleep.{
  sch_lock, sch_unlock, sch_wakeone, sch_prepare_sleep, sch_continue_sleep, sch_signal,
}

-- MUTEX_WAITERS and MUTEX_RECURSIVE are flags of the owner word.
pub record Mutex : Type 0 where
  pub holder : Option ℕ
  pub waiters : Bool
  pub recursive : Bool
  pub count : ℕ
  pub event : ℕ

abbrev pub is_holder : Option ℕ → ℕ → Bool
is_holder none t = false
is_holder (some u) t = u == t

abbrev pub is_free : Option ℕ → Bool
is_free none = true
is_free (some u) = false

unfoldable pub mutex_init : ℕ → Mutex
mutex_init e = record { holder = none; waiters = false; recursive = false; count = 0; event = e }

unfoldable pub mutex_owner : Mutex → Option ℕ
mutex_owner m = m.holder

-- Compare and exchange of the whole word, from 0 to the thread.
unfoldable pub take_free : ℕ → Mutex → Option Mutex
take_free t m =
    if is_free m.holder && (not m.waiters && not m.recursive)
    then some (record m { holder = some t; count = 1 })
    else none

unfoldable pub sleep_or_fail : Mutex → Status × Sched → Outcome × Mutex × Sched
sleep_or_fail m (ok n, s) = (sleeps, m, sch_continue_sleep (sch_unlock s))
sleep_or_fail m (err e, s) = (done (err e), m, sch_unlock s)

unfoldable pub mutex_lock_slowpath : Mutex → Sched → Outcome × Mutex × Sched
unfolding take_free sleep_or_fail
mutex_lock_slowpath m s =
    let s' = sch_lock s in
    if is_holder m.holder s.active
    then (done (ok 0), record m { recursive = true; count = m.count + 1 }, sch_unlock s')
    else elim (take_free s.active m) [
      | some m' ↦ (done (ok 0), m', sch_unlock s')
      | none ↦ sleep_or_fail (record m { waiters = true }) (sch_prepare_sleep m.event 0 s')
    ]

-- The signals are given back at once where the thread does not sleep.
unfoldable pub restore_if_done : Bool → Outcome × Mutex × Sched → Outcome × Mutex × Sched
restore_if_done pending (done r, m, s) = (done r, m, sig_restore pending s)
restore_if_done pending (sleeps, m, s) = (sleeps, m, s)

unfoldable pub mutex_lock_s : Bool → Mutex → Sched → Outcome × Mutex × Sched
unfolding restore_if_done take_free
mutex_lock_s block_signals m s =
    let pending = (s.threads s.active).sig_unblocked in
    if not block_signals && pending then (done (err eintr), m, s) else elim (take_free s.active m) [
      | some m' ↦ (done (ok 0), m', s)
      | none ↦
          if block_signals
          then restore_if_done pending (mutex_lock_slowpath m (sig_block_all s))
          else mutex_lock_slowpath m s
    ]

abbrev pub is_empty : List ℕ → Bool
is_empty [] = true
is_empty (t ∷ q) = false

-- The end of the slow path: the woken waiter, if any, is the new owner.
unfoldable pub hand_over : Mutex → Sched × Option ℕ → Mutex × Sched
hand_over m (s, w) =
    let more = not (is_empty (s.sleepq m.event)) in
    (
      record m {
        holder = w;
        waiters = more;
        recursive = false;
        count = elim w [ none ↦ m.count | some t ↦ 1 ];
      },
      s,
    )

unfoldable pub mutex_unlock_slowpath : Mutex → Sched → Status × Mutex × Sched
unfolding hand_over
mutex_unlock_slowpath m s =
    let s' = sch_lock s in
    let m' = record m { count = m.count - 1 } in
    if not (is_holder m.holder s.active)
    then (err einval, m, s)
    else if not (m'.count == 0)
    then (ok 0, m', sch_unlock s')
    else if not m.waiters
    then (ok 0, record m' { holder = none; recursive = false }, sch_unlock s')
    else let (m'', s'') = hand_over m' (sch_wakeone m.event s') in (ok 0, m'', sch_unlock s'')

-- The fast path exchanges the word `thread` with 0, and leaves `count` alone.
unfoldable pub mutex_unlock : Mutex → Sched → Status × Mutex × Sched
unfolding mutex_unlock_slowpath
mutex_unlock m s =
    if is_holder m.holder s.active && (not m.waiters && not m.recursive)
    then (ok 0, record m { holder = none }, s)
    else mutex_unlock_slowpath m s
