-- ===== src/Sched/Tests.antt =====
-- The scheduler at concrete states: tests, and the theorems at inputs that meet their hypotheses.
use apex.Base.{
  ℕ, ◌≡◌, refl, [], ◌∷◌, ◌++◌, Bool, true, false, ◌==◌, if◌then◌else◌, arith, count, last, update,
  none, some,
}
use apex.Base.Status.{ok, err, etimedout}
use apex.Sched.Defs.{
  Thread, rr, idle, switch, Sched, prio_of, thread_runnable, runq_enqueue, schedule, insert_last,
}
use apex.Sched.Sleep.{
  sch_wakeup, sch_wakeone, sch_continue_sleep, sch_unsleep, highest, enqueue_unless_active,
  sch_requeue, sch_lock,
}
use apex.Sched.Control.{sch_switch, sch_setprio}
use apex.Sched.Runq.{before, after, insert_last-split}
use apex.Sched.Valid.{IsValid, IsLinked}
use apex.Sched.Wake.Unsleep.{sch_unsleep-IsValid}
use apex.Sched.Wake.Wakeup.{WakesAll, sch_wakeup-WakesAll}
use apex.Sched.Wake.Wakeone.{IsLost, sch_wakeone-IsLost}
use apex.Sched.Block.{sch_continue_sleep-IsValid, sch_requeue-IsValid}
use apex.Sched.Run.{Switched, sch_switch-Switched}
use apex.Sched.Dpcs.{IsQueued}
use apex.Sched.Steps.{here, next, lock, setprio, IsSound, Reach-IsSound}

abbrev absent : Thread
absent = record {
  sleep = false;
  suspend = true;
  exit = false;
  zombie = false;
  policy = rr;
  prio = 200;
  baseprio = 200;
  timeleft = 1000;
  time = 0;
  slpevt = none;
  slpret = ok 0;
  timeout = none;
  sig_unblocked = false;
  thread_event = 90;
}

abbrev ready_at : ℕ → Thread
ready_at prio = record absent { suspend = false; prio = prio }

abbrev sleeper : ℕ → ℕ → Thread
sleeper prio e = record (ready_at prio) { sleep = true; slpevt = some e }

-- Thread 0 is the idle thread, 1 runs, 2 and 4 sleep on event 7, 3 waits for the processor.
abbrev threads : ℕ → Thread
threads t =
    if t == 0
    then ready_at 255
    else if t == 1
    then ready_at 200
    else if t == 2
    then sleeper 150 7
    else if t == 3
    then ready_at 200
    else if t == 4
    then sleeper 100 7
    else absent

abbrev busy : Sched
busy = record {
  threads = threads;
  active = 1;
  runq = 3 ∷ 0 ∷ [];
  sleepq = λ e. if e == 7 then 2 ∷ 4 ∷ [] else [];
  resched = idle;
  locks = 0;
  switch_pending = false;
  zombies = [];
  dpcq = [];
  dpcs = λ d. record { pending = false; func = 0; arg = 0 };
}

abbrev on_seven : ℕ → ℕ
on_seven t = 7

busy-IsLinked : IsLinked on_seven busy
unfolding count thread_runnable
busy-IsLinked = record {
  queued = λ t. ground arith;
  asleep = λ t e. ground arith;
  ordered = omega arith;
}

busy-IsValid : IsValid on_seven busy
busy-IsValid = record {
  linked = busy-IsLinked;
  prompt = λ h. omega arith;
  posted = λ l r. absurd (r refl);
}

-- The same while thread 1, having prepared to sleep on event 7, is the last sleeper there.
abbrev dozing : Sched
dozing = record busy {
  threads = update threads 1 (sleeper 200 7);
  sleepq = λ e. if e == 7 then 2 ∷ 4 ∷ 1 ∷ [] else [];
  locks = 1;
}

dozing-IsValid : IsValid on_seven dozing
unfolding count thread_runnable
dozing-IsValid = record {
  linked = record {
    queued = λ t. ground arith;
    asleep = λ t e. ground arith;
    ordered = omega arith;
  };
  prompt = λ h. omega arith;
  posted = λ l r. cc;
}

-- A switch that was asked for.
abbrev asked : Sched
asked = record busy { resched = switch; switch_pending = true }

asked-IsValid : IsValid on_seven asked
unfolding count thread_runnable
asked-IsValid = record {
  linked = record {
    queued = λ t. ground arith;
    asleep = λ t e. ground arith;
    ordered = omega arith;
  };
  prompt = λ h. cc;
  posted = λ l r. refl;
}

wakeup_runs : (sch_wakeup 7 (ok 0) busy).0.runq ≡ 4 ∷ 2 ∷ 3 ∷ 0 ∷ []
unfolding sch_wakeup enqueue_unless_active runq_enqueue insert_last schedule
wakeup_runs = refl

sch_wakeup-WakesAll_example : WakesAll on_seven 7 (ok 0) busy (sch_wakeup 7 (ok 0) busy)
unfolding count
sch_wakeup-WakesAll_example =
    sch_wakeup-WakesAll on_seven 7 (ok 0) busy (λ a m. ground arith) busy-IsValid

sch_wakeone-IsLost_example : IsLost (sch_wakeone 7 dozing).0 4
unfolding highest last
sch_wakeone-IsLost_example =
    sch_wakeone-IsLost on_seven 7 2 (4 ∷ 1 ∷ []) dozing refl (refl, refl) refl (λ e. cc)
      dozing-IsValid

sch_unsleep-IsValid_example : IsValid on_seven (sch_unsleep 2 (err etimedout) busy)
sch_unsleep-IsValid_example =
    sch_unsleep-IsValid on_seven 2 (err etimedout) busy (refl, refl) busy-IsValid

sch_continue_sleep-IsValid_example :
    IsValid on_seven (sch_continue_sleep dozing)
    × ((sch_continue_sleep dozing).locks ≡ 0)
    × (◌≡◌ {A = Bool} true true → (sch_continue_sleep dozing).switch_pending ≡ true)
sch_continue_sleep-IsValid_example = sch_continue_sleep-IsValid on_seven dozing dozing-IsValid

sch_requeue-IsValid_example :
    ((sch_requeue 7 8 busy).1 ≡ some 2) × IsValid (update on_seven 2 8) (sch_requeue 7 8 busy).0
sch_requeue-IsValid_example = sch_requeue-IsValid on_seven 7 8 2 (4 ∷ []) busy refl busy-IsValid

sch_switch-Switched_example :
    (s' : Sched) × (sch_switch asked ≡ some s') × Switched on_seven asked s'
unfolding count thread_runnable
sch_switch-Switched_example =
    sch_switch-Switched on_seven asked 0 (λ e. cc) refl refl (λ a m. absurd (omega arith))
      asked-IsValid

-- Thread 2 is suspended in its sleep.
abbrev held : Sched
held = record busy { threads = update threads 2 (record (sleeper 150 7) { suspend = true }) }

held-IsValid : IsValid on_seven held
unfolding count thread_runnable
held-IsValid = record {
  linked = record {
    queued = λ t. ground arith;
    asleep = λ t e. ground arith;
    ordered = omega arith;
  };
  prompt = λ h. omega arith;
  posted = λ l r. absurd (r refl);
}

insert_last-split_example :
    insert_last (prio_of busy) 1 (3 ∷ 0 ∷ [])
    ≡ before (prio_of busy) 200 (3 ∷ 0 ∷ []) ++ 1 ∷ after (prio_of busy) 200 (3 ∷ 0 ∷ [])
insert_last-split_example = insert_last-split (prio_of busy) 1 0 (3 ∷ 0 ∷ []) (omega arith)

busy-IsQueued : IsQueued busy
unfolding count
busy-IsQueued d = refl

abbrev requested : Sched
requested = record busy {
  dpcq = 1 ∷ [];
  dpcs = λ d. record { pending = d == 1; func = 10; arg = 20 };
}

requested-IsQueued : IsQueued requested
unfolding count
requested-IsQueued d = ground arith

Reach-IsSound_example : IsSound on_seven (sch_setprio 3 120 120 (sch_lock busy))
Reach-IsSound_example =
    Reach-IsSound on_seven on_seven busy _ busy-IsValid (next (next here lock) (setprio 3 120 120))
