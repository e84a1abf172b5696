-- ===== src/Timers.antt =====
-- Timers, sys/kern/timer.cpp: the sorted list of active timers, the expired ones, and the interval
-- timers of a task. A timer is named by a number; a `uint_fast64_t` is a number below 2^64.
pub mod Lists
pub mod Interval
mod Tests
use apex.Base.{
  ℕ, zero, suc, ◌+◌, ◌-◌, ◌*◌, ◌/◌, ◌%◌, ◌^◌, Bool, true, false, not, List, [], ◌∷◌, ltb, ◌==◌,
  if◌then◌else◌, update, remove,
}
use apex.Sched.Defs.{insert_last}

-- `struct timer`; its link is what the lists hold.
pub record Timer : Type 0 where
  pub active : Bool
  pub expire : ℕ
  pub interval : ℕ
  pub func : ℕ
  pub arg : ℕ

pub record TimerLists : Type 0 where
  pub timers : ℕ → Timer
  pub timer_list : List ℕ
  pub expire_list : List ℕ

abbrev pub w64 : ℕ → ℕ
w64 n = n % 2 ^ 64

abbrev pub expire_of : TimerLists → ℕ → ℕ
expire_of s t = (s.timers t).expire

abbrev pub set_timer : ℕ → Timer → TimerLists → TimerLists
set_timer t x s = record s { timers = update s.timers t x }

-- The walk is the one of the run queue: past every timer that does not expire later.
unfoldable pub timer_insert : ℕ → TimerLists → TimerLists
timer_insert t s = record s { timer_list = insert_last (expire_of s) t s.timer_list }

-- `list_remove` of a timer's link, which is in one list at most.
unfoldable pub unlink : ℕ → TimerLists → TimerLists
unlink t s = record s { timer_list = remove t s.timer_list; expire_list = remove t s.expire_list }

unfoldable pub time_remain : ℕ → ℕ → ℕ
time_remain now expire = if ltb now expire then expire - now else 0

-- `period` is the length of a tick, 1000000000 / CONFIG_HZ, and `now` timer_monotonic_coarse().
unfoldable pub timer_callout : ℕ → ℕ → ℕ → ℕ → ℕ → ℕ → ℕ → TimerLists → TimerLists
unfolding timer_insert unlink
timer_callout period now t nsec interval func arg s =
    let s' = if (s.timers t).active then unlink t s else s in
    timer_insert t (
      set_timer t
        (record {
          active = true;
          expire = w64 (now + period + (if nsec == 1 then 0 else nsec));
          interval = interval;
          func = func;
          arg = arg;
        })
        s')

unfoldable pub timer_redirect : ℕ → ℕ → ℕ → TimerLists → TimerLists
timer_redirect t func arg s =
    let x = s.timers t in
    if x.active then set_timer t (record x { func = func; arg = arg }) s else s

unfoldable pub timer_stop : ℕ → TimerLists → TimerLists
unfolding unlink
timer_stop t s =
    let x = s.timers t in
    if x.active then set_timer t (record x { active = false }) (unlink t s) else s

-- The loop of `timer_tick` over the list, which it takes apart: what stays, the expired timers
-- before those that were there, and the flag `wakeup`. `list_insert` puts each at the head.
unfoldable pub expire_loop : ℕ → (ℕ → ℕ) → List ℕ → List ℕ → Bool → List ℕ × List ℕ × Bool
expire_loop monotonic expire [] expired wakeup = ([], expired, wakeup)
expire_loop monotonic expire (t ∷ ts) expired wakeup =
    let rest = expire_loop monotonic expire ts (t ∷ expired) true in
    if ltb monotonic (expire t) then (t ∷ ts, expired, wakeup) else rest

unfoldable pub tick_expire : ℕ → TimerLists → TimerLists × Bool
unfolding expire_loop
tick_expire monotonic s =
    let (left, expired, wakeup) =
      expire_loop monotonic (expire_of s) s.timer_list s.expire_list false in
    (record s { timer_list = left; expire_list = expired }, wakeup)

-- A round of the loop of `timer_thread`, up to the call of the function.
unfoldable pub callout_round : ℕ → List ℕ → TimerLists → TimerLists
unfolding timer_insert
callout_round t rest s =
    let s' = record s { expire_list = rest } in
    let x = s.timers t in
    if x.interval == 0
    then set_timer t (record x { active = false }) s'
    else timer_insert t (set_timer t (record x { expire = w64 (x.expire + x.interval) }) s')

-- `struct itimer`.
pub record Itimer : Type 0 where
  pub remain : ℕ
  pub interval : ℕ

-- The timer, and whether the task is sent the signal.
unfoldable pub run_itimer : Itimer → ℕ → Itimer × Bool
run_itimer it ns =
    let remain = w64 (it.interval + 2 ^ 64 - (ns - it.remain)) in
    if it.remain == 0
    then (it, false)
    else if ltb ns it.remain
    then (record it { remain = it.remain - ns }, false)
    else (record it { remain = if ltb it.interval remain then 1 else remain }, true)
