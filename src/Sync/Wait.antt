-- ===== src/Sync/Wait.antt =====
-- Waiting for a condition, sys/include/wait.h, and blocking signals meanwhile, sys/kern/sig.cpp.
-- A call goes up to the point where its thread gives up the processor.
use apex.Base.{Bool, true, false, if◌then◌else◌, ℕ}
use apex.Base.Status.{Status, ok, err}
use apex.Sched.Defs.{Sched, set_thread}
use apex.Sched.Sleep.{
  sch_lock, sch_unlock, sch_prepare_sleep, sch_continue_sleep, sch_cancel_sleep, sch_signal,
}

-- `done r`: the call returns r. `sleeps`: it has called `sch_continue_sleep`, and goes on with
-- what the thread is woken with.
pub data Outcome : Type 0 where
  done : Status → Outcome
  sleeps : Outcome

-- `sig_block_all` leaves the active thread no unblocked signal.
abbrev pub sig_block_all : Sched → Sched
sig_block_all s = set_thread s.active (record (s.threads s.active) { sig_unblocked = false }) s

-- `sig_restore` of a thread that did not sleep: it is signalled if something is pending.
abbrev pub sig_restore : Bool → Sched → Sched
sig_restore pending s =
    let s' =
      sch_lock (set_thread s.active (record (s.threads s.active) { sig_unblocked = pending }) s) in
    sch_unlock (if pending then sch_signal s.active s' else s')

-- One round of `wait_event_interruptible_lock`; the lock is a spinlock and is held.
unfoldable pub lock_round : Bool → Status × Sched → Sched → Outcome × Sched
lock_round true prepared s = (done (ok 0), s)
lock_round false (ok n, s') s = (sleeps, sch_continue_sleep (sch_unlock s'))
lock_round false (err e, s') s = (done (err e), s')

unfoldable pub wait_event_interruptible_lock : ℕ → Bool → Sched → Outcome × Sched
unfolding lock_round
wait_event_interruptible_lock e condition s = lock_round condition (sch_prepare_sleep e 0 s) s

unfoldable pub restored : Bool → Outcome × Sched → Outcome × Sched
restored pending (done r, s) = (done r, sig_restore pending s)
restored pending (sleeps, s) = (sleeps, s)

unfoldable pub wait_event_lock : ℕ → Bool → Sched → Outcome × Sched
unfolding restored
wait_event_lock e condition s =
    restored (s.threads s.active).sig_unblocked
      (wait_event_interruptible_lock e condition (sig_block_all s))

-- One round of `wait_event_interruptible`. The condition is tested again once the sleep is
-- prepared, on what interrupts have done by then.
unfoldable pub second_test : Bool → Status × Sched → Outcome × Sched
second_test again (ok n, s) =
    if again then (done (ok 0), sch_cancel_sleep s) else (sleeps, sch_continue_sleep s)
second_test again (err e, s) = (done (err e), s)

unfoldable pub wait_event_interruptible : ℕ → Bool → Bool → Sched → Outcome × Sched
unfolding second_test
wait_event_interruptible e first again s =
    if first then (done (ok 0), s) else second_test again (sch_prepare_sleep e 0 s)
