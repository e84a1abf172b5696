-- ===== src/Sync/Cond/Tests.antt =====
-- A wait on a condition at a concrete state.
use apex.Base.{◌≡◌, refl, [], true, false, none, some}
use apex.Base.Status.{ok}
use apex.Sched.Defs.{Thread, rr, idle, Sched}
use apex.Sync.Mutex.{Mutex}
use apex.Sync.Cond.{Cond, cond_timedwait_interruptible, cond_signal}
use apex.Sync.Cond.Signals.{Woke, cond_wait-signal}
use apex.Sync.Futex.Waiting.{Slept}

abbrev running : Thread
running = record {
  sleep = false;
  suspend = false;
  exit = false;
  zombie = false;
  policy = rr;
  prio = 200;
  baseprio = 200;
  timeleft = 1000;
  time = 0;
  slpevt = none;
  slpret = ok 0;
  timeout = none;
  sig_unblocked = false;
  thread_event = 90;
}

abbrev alone : Sched
alone = record {
  threads = λ t. running;
  active = 1;
  runq = [];
  sleepq = λ e. [];
  resched = idle;
  locks = 0;
  switch_pending = false;
  zombies = [];
  dpcq = [];
  dpcs = λ d. record { pending = false; func = 0; arg = 0 };
}

abbrev held : Mutex
held = record { holder = some 1; waiters = false; recursive = false; count = 1; event = 8 }

abbrev changed : Cond
changed = record { event = 9 }

-- The interrupt that signals has asked for a switch before.
abbrev asked : Sched → Sched
asked s = record s { switch_pending = true }

cond_wait-signal_example :
    let signalled = λ (s₁ : Sched). (cond_signal changed (asked s₁)).1 in
    let (o, m', s') = cond_timedwait_interruptible signalled changed held 500 alone in
    let (o₂, m₂, s₂) = cond_timedwait_interruptible (λ s₁. s₁) changed held 500 alone in
    (m'.holder ≡ none)
    × ((s₁ : Sched) × Slept 9 500 alone s₁ × Woke 9 1 (asked s₁) s')
    × Woke 9 1 (asked s₂) (signalled s₂)
cond_wait-signal_example =
    cond_wait-signal asked changed held 500 alone refl refl refl refl refl (λ s₁. refl)
