-- ===== src/Sched/Sleep.antt =====
-- Sleeping and waking, sys/kern/sch.cpp: sch_wakeup to sch_signal.
use apex.Base.{
  ℕ, ◌+◌, ◌-◌, true, false, not, ◌&&◌, Option, none, some, List, [], ◌∷◌, ◌++◌, ltb, ◌==◌,
  if◌then◌else◌, update, last,
}
use apex.Base.Status.{Status, ok, err, eintr, etimedout}
use apex.Sched.Defs.{
  Thread, switch, preempt, is_idle, Sched, prio_of, set_thread, runq_enqueue, unlink, arch_schedule,
  schedule,
}

-- What every wake-up writes to the thread, with `timer_stop` of its timer.
abbrev pub woken : Status → Thread → Thread
woken result th = record th { slpret = result; slpevt = none; sleep = false; timeout = none }

unfoldable pub enqueue_unless_active : ℕ → ℕ → Sched → Sched
enqueue_unless_active tested t s =
    let queued = runq_enqueue t s in if tested == s.active then s else queued

-- The loop of `sch_wakeup` over the event's sleep queue, with the number of threads woken.
unfoldable pub wakeup_loop : ℕ → Status → List ℕ → Sched → ℕ → Sched × ℕ
unfolding enqueue_unless_active
wakeup_loop e result [] s n = (s, n)
wakeup_loop e result (t ∷ q) s n =
    wakeup_loop e result q
      (enqueue_unless_active t t
        (record (set_thread t (woken result (s.threads t)) s) { sleepq = update s.sleepq e q }))
      (n + 1)

unfoldable pub sch_wakeup : ℕ → Status → Sched → Sched × ℕ
unfolding wakeup_loop
sch_wakeup e result s =
    let (s', n) = wakeup_loop e result (s.sleepq e) s 0 in (if n == 0 then s' else schedule s', n)

-- The first of the threads of highest priority.
unfoldable pub highest : (ℕ → ℕ) → ℕ → List ℕ → ℕ
highest prio top [] = top
highest prio top (x ∷ xs) = highest prio (if ltb (prio x) (prio top) then x else top) xs

-- `last` is the thread that `th` names when the search ends: the source compares that one with
-- the active thread.
unfoldable pub wakeone_of : List ℕ → Sched → Sched × Option ℕ
wakeone_of [] s = (s, none)
wakeone_of (x ∷ q) s =
    let top = highest (prio_of s) x (x ∷ q) in
    let s' = unlink top s in
    let s'' = set_thread top (woken (ok 0) (s.threads top)) s' in
    (schedule (enqueue_unless_active (last x q) top s''), some top)

unfoldable pub sch_wakeone : ℕ → Sched → Sched × Option ℕ
unfolding wakeone_of
sch_wakeone e s = wakeone_of (s.sleepq e) s

unfoldable pub requeue_of : List ℕ → ℕ → ℕ → Sched → Sched × Option ℕ
requeue_of [] l r s = (s, none)
requeue_of (t ∷ q) l r s =
    let left = update s.sleepq l q in
    (record s { sleepq = update left r (left r ++ t ∷ []) }, some t)

-- `timer_redirect` sets the callback that the timer already has.
unfoldable pub sch_requeue : ℕ → ℕ → Sched → Sched × Option ℕ
unfolding requeue_of
sch_requeue l r s = requeue_of (s.sleepq l) l r s

unfoldable pub sch_lock : Sched → Sched
sch_lock s = record s { locks = s.locks + 1 }

unfoldable pub sch_unlock : Sched → Sched
sch_unlock s =
    let s' = record s { locks = s.locks - 1 } in
    if (s'.locks == 0) && not (is_idle s.resched) then arch_schedule s' else s'

-- `timer_callout` arms the thread's timer for `nsec`.
unfoldable pub sch_prepare_sleep : ℕ → ℕ → Sched → Status × Sched
unfolding sch_lock
sch_prepare_sleep e nsec s =
    let t = s.active in
    let th = s.threads t in
    if th.sig_unblocked then (err eintr, s) else (
      ok 0,
      sch_lock
          (record (set_thread t
            (record th {
              slpevt = some e;
              sleep = true;
              timeout = if nsec == 0 then th.timeout else some nsec;
            })
            s) { sleepq = update s.sleepq e (s.sleepq e ++ t ∷ []) }),
    )

-- `sch_continue_sleep` up to the point where it gives up the processor.
unfoldable pub sch_continue_sleep : Sched → Sched
sch_continue_sleep s =
    let s' = record s {
      locks = 0;
      resched = if (s.threads s.active).sleep then switch else s.resched;
    } in
    if is_idle s'.resched then s' else arch_schedule s'

-- What it returns once its thread runs again.
abbrev pub sleep_result : Sched → Status
sleep_result s = (s.threads s.active).slpret

unfoldable pub sch_unsleep : ℕ → Status → Sched → Sched
sch_unsleep t result s =
    let s' = set_thread t (woken result (s.threads t)) (unlink t s) in
    if (s.threads t).sleep then (if t == s.active then s' else schedule (runq_enqueue t s')) else s

unfoldable pub sch_cancel_sleep : Sched → Sched
sch_cancel_sleep s = sch_unlock (sch_unsleep s.active (ok 0) s)

unfoldable pub sleep_expire : ℕ → Sched → Sched
sleep_expire t s = sch_unsleep t (err etimedout) s

unfoldable pub sch_signal : ℕ → Sched → Sched
sch_signal t s =
    if t == s.active then schedule (record s { resched = preempt }) else sch_unsleep t (err eintr) s
