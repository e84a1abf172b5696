-- ===== src/Timers/Interval.antt =====
-- Interval timers: when they go off, and one that does not stop.
use apex.Base.{ℕ, ◌+◌, ◌-◌, ◌%◌, ◌^◌, ◌≤◌, ◌<◌, ◌≡◌, refl, true, false, ltb, ◌==◌, arith}
use apex.Timers.{Itimer, run_itimer}

-- An interval timer that does not run for longer than its interval after it is due goes off once
-- its time has passed, and then again one interval after it was due.
pub run_itimer-reloads :
    (it : Itimer) (ns : ℕ)
    → it.interval < 2 ^ 64
    → 0 < it.remain
    → it.remain ≤ ns
    → ns < it.remain + it.interval
    → let (it', signal) = run_itimer it ns in
      (signal ≡ true) × (it'.interval ≡ it.interval) × (it'.remain + ns ≡ it.remain + it.interval)
unfolding run_itimer
run_itimer-reloads it ns w r d u = (ground arith, ground arith, ground arith)

-- One tick of a timer without an interval whose time was over before the tick.
overdue :
    (it : Itimer) (ns : ℕ)
    → it.interval ≡ 0
    → 0 < it.remain
    → it.remain < ns
    → ns < 2 ^ 64
    → run_itimer it ns ≡ (record { remain = 1; interval = 0 }, true)
unfolding run_itimer
overdue it ns e r l w =
    let due : (it.remain == 0) ≡ false = ground arith in
    let over : ltb ns it.remain ≡ false = ground arith in
    let wraps : ltb 0 ((0 + 2 ^ 64 - (ns - it.remain)) % 2 ^ 64) ≡ true = ground arith in
    rw (due, over, e, wraps) refl

-- A timer without an interval whose time is over before a tick is signals, and signals again at the
-- next tick, if that is longer than a nanosecond, and does not stop.
pub run_itimer-again :
    (it : Itimer) (ns ns' : ℕ)
    → it.interval ≡ 0
    → 0 < it.remain
    → it.remain < ns
    → ns < 2 ^ 64
    → 1 < ns'
    → ns' < 2 ^ 64
    → let (it', signal) = run_itimer it ns in
      let (it'', signal') = run_itimer it' ns' in
      (signal ≡ true) × (signal' ≡ true) × (it''.remain ≡ 1)
run_itimer-again it ns ns' e r l w l' w' =
    rw
      (
        overdue it ns e r l w,
        overdue (record { remain = 1; interval = 0 }) ns' refl (omega arith) l' w',
      )
      (refl, refl, refl)
