-- ===== src/Timers/Tests.antt =====
-- Timers at concrete states: tests, and the theorems at inputs that meet their hypotheses.
use apex.Base.{◌≡◌, refl, true, false, [], ◌∷◌, arith, count}
use apex.Sched.Defs.{insert_last}
use apex.Timers.{TimerLists, expire_of, timer_callout, tick_expire, run_itimer}
use apex.Timers.Lists.{IsArmed, timer_callout-IsArmed, Expired, tick_expire-Expired}
use apex.Timers.Interval.{run_itimer-again}

-- No timer is active.
abbrev idle : TimerLists
idle = record {
  timers = λ t. record { active = false; expire = 0; interval = 0; func = 0; arg = 0 };
  timer_list = [];
  expire_list = [];
}

idle-IsArmed : IsArmed idle
unfolding count
idle-IsArmed = record { sorted = tt; listed = λ t. refl }

abbrev one : TimerLists
one = timer_callout 10 100 3 50 0 7 8 idle

one-IsArmed : IsArmed one
one-IsArmed = timer_callout-IsArmed 10 100 3 50 0 7 8 idle idle-IsArmed

-- A second timer that expires first stands before the first.
callouts_run :
    (timer_callout 10 100 4 20 0 7 8 (timer_callout 10 100 3 50 0 7 8 idle)).timer_list ≡ 4 ∷ 3 ∷ []
unfolding timer_callout insert_last
callouts_run = refl

-- Both expire in one tick, and the one that expired last stands first.
expire_runs :
    (tick_expire 200
      (timer_callout 10 100 4 20 0 7 8 (timer_callout 10 100 3 50 0 7 8 idle))).0.expire_list
    ≡ 3 ∷ 4 ∷ []
unfolding timer_callout tick_expire insert_last
expire_runs = refl

tick_expire-Expired_example :
    let s = timer_callout 10 100 3 50 0 7 8 idle in
    let (s', wakeup) = tick_expire 200 s in
    IsArmed s'
    × Expired 200 (expire_of s) s.timer_list s.expire_list false s'.timer_list s'.expire_list wakeup
tick_expire-Expired_example =
    tick_expire-Expired 200 (timer_callout 10 100 3 50 0 7 8 idle) one-IsArmed

reload_runs :
    run_itimer (record { remain = 5; interval = 20 }) 10
    ≡ (record { remain = 15; interval = 20 }, true)
unfolding run_itimer
reload_runs = refl

run_itimer-again_example :
    let (it, signal) = run_itimer (record { remain = 5; interval = 0 }) 10 in
    let (it', signal') = run_itimer it 10 in (signal ≡ true) × (signal' ≡ true) × (it'.remain ≡ 1)
run_itimer-again_example =
    run_itimer-again (record { remain = 5; interval = 0 }) 10 10 refl (omega arith) (omega arith)
      (omega arith) (omega arith) (omega arith)
