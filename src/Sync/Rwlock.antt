-- ===== src/Sync/Rwlock.antt =====
-- The read/write lock, sys/sync/rwlock.cpp. A lock call goes up to where its thread sleeps; woken
-- with no error it makes the same attempt again.
pub mod Exclusion
use apex.Base.{ℕ, Bool, true, false, not, ◌&&◌, if◌then◌else◌}
use apex.Base.Int.{ℤ, pos, negsuc, increment, decrement, is_zero, is_negative}
use apex.Base.Status.{Status, ok, err, Errno, eintr}
use apex.Sched.Defs.{Sched}
use apex.Sched.Sleep.{sch_lock, sch_unlock, sch_wakeup}
use apex.Sync.Wait.{Outcome, done, sleeps, wait_event_lock, wait_event_interruptible_lock}

-- `state` is 0 unlocked, positive while reading, negative while writing.
pub record Rwlock : Type 0 where
  pub state : ℤ
  pub event : ℕ

unfoldable pub rwlock_init : ℕ → Rwlock
rwlock_init e = record { state = pos 0; event = e }

-- The end of both lock calls: on success the state changes, and the spinlock is released.
unfoldable pub acquired : (ℤ → ℤ) → Rwlock → Outcome × Sched → Outcome × Rwlock × Sched
acquired change p (done (ok n), s) =
    (done (ok n), record p { state = change p.state }, sch_unlock s)
acquired change p (done (err e), s) = (done (err e), p, sch_unlock s)
acquired change p (sleeps, s) = (sleeps, p, s)

-- What the two lock calls share: `condition` is what the caller waits for.
unfoldable pub lock_by : Bool → (ℤ → ℤ) → Bool → Rwlock → Sched → Outcome × Rwlock × Sched
unfolding acquired
lock_by condition change block_signals p s =
    if not block_signals && (s.threads s.active).sig_unblocked
    then (done (err eintr), p, s)
    else acquired change p (
        if block_signals
        then wait_event_lock p.event condition (sch_lock s)
        else wait_event_interruptible_lock p.event condition (sch_lock s))

unfoldable pub rwlock_read_lock_s : Bool → Rwlock → Sched → Outcome × Rwlock × Sched
unfolding lock_by
rwlock_read_lock_s block_signals p s =
    lock_by (not (is_negative p.state)) increment block_signals p s

unfoldable pub rwlock_write_lock_s : Bool → Rwlock → Sched → Outcome × Rwlock × Sched
unfolding lock_by
rwlock_write_lock_s block_signals p s = lock_by (is_zero p.state) decrement block_signals p s

-- Both unlock calls wake everyone once the state is back at 0.
unfoldable pub released : Rwlock → Sched → Rwlock × Sched
released p s =
    let s' = sch_lock s in
    (p, sch_unlock (if is_zero p.state then (sch_wakeup p.event (ok 0) s').0 else s'))

unfoldable pub rwlock_read_unlock : Rwlock → Sched → Rwlock × Sched
unfolding released
rwlock_read_unlock p s = released (record p { state = decrement p.state }) s

unfoldable pub rwlock_write_unlock : Rwlock → Sched → Rwlock × Sched
unfolding released
rwlock_write_unlock p s = released (record p { state = increment p.state }) s

unfoldable pub rwlock_read_locked : Rwlock → Bool
rwlock_read_locked p = not (is_negative p.state) && not (is_zero p.state)

unfoldable pub rwlock_write_locked : Rwlock → Bool
rwlock_write_locked p = is_negative p.state

unfoldable pub rwlock_locked : Rwlock → Bool
rwlock_locked p = not (is_zero p.state)
