-- ===== src/Sync/Futex/Tests.antt =====
-- Futexes at a concrete state: the theorems at inputs that meet their hypotheses.
use apex.Base.{
  ℕ, ◌≡◌, refl, List, [], ◌∷◌, arith, true, false, none, some, ◌==◌, if◌then◌else◌, count, min,
  length, last, remove,
}
use apex.Base.Int.{pos}
use apex.Base.Status.{ok}
use apex.Sched.Defs.{Thread, rr, idle, Sched, thread_runnable, schedule, unlink, runq_enqueue}
use apex.Sched.Sleep.{sch_lock, sch_unlock, sch_wakeone, highest, enqueue_unless_active}
use apex.Sched.Valid.{IsValid}
use apex.Sched.Wake.Wakeup.{AreAble}
use apex.Sync.Futex.{
  Futex, UserWord, futex_find_unlocked, futex_get, futex_wait, futex_wake, futex_requeue,
}
use apex.Sync.Futex.Waking.{Woke, futex_wake-Woke}
use apex.Sync.Futex.Moving.{Requeued, futex_requeue-Requeued}
use apex.Sync.Futex.Lookup.{IsMap}
use apex.Sync.Futex.Waiting.{Attempt, futex_wait-Attempt}

abbrev absent : Thread
absent = record {
  sleep = false;
  suspend = true;
  exit = false;
  zombie = false;
  policy = rr;
  prio = 200;
  baseprio = 200;
  timeleft = 1000;
  time = 0;
  slpevt = none;
  slpret = ok 0;
  timeout = none;
  sig_unblocked = false;
  thread_event = 90;
}

abbrev sleeper : ℕ → Thread
sleeper prio = record absent { suspend = false; prio = prio; sleep = true; slpevt = some 7 }

-- Thread 1 runs; 2, 4 and 5 sleep on event 7, 4 with the highest priority.
abbrev waiting : Sched
waiting = record {
  threads = λ t.
      if t == 1
      then record absent { suspend = false }
      else if t == 2
      then sleeper 150
      else if t == 4
      then sleeper 100
      else if t == 5
      then sleeper 150
      else absent;
  active = 1;
  runq = [];
  sleepq = λ e. if e == 7 then 2 ∷ 4 ∷ 5 ∷ [] else [];
  resched = idle;
  locks = 0;
  switch_pending = false;
  zombies = [];
  dpcq = [];
  dpcs = λ d. record { pending = false; func = 0; arg = 0 };
}

abbrev on_seven : ℕ → ℕ
on_seven t = 7

waiting-IsValid : IsValid on_seven waiting
unfolding count thread_runnable
waiting-IsValid = record {
  linked = record {
    queued = λ t. ground arith;
    asleep = λ t e. ground arith;
    ordered = (omega arith);
  };
  prompt = λ h. (omega arith);
  posted = λ l r. absurd (r refl);
}

waiting-AreAble : AreAble waiting (waiting.sleepq 7)
unfolding count
waiting-AreAble a m = (ground arith, ground arith)

abbrev first : Futex
first = record { addr = 4096; event = 7 }

abbrev second : Futex
second = record { addr = 8192; event = 8 }

abbrev futexes : List Futex
futexes = first ∷ second ∷ []

futexes-IsMap : IsMap futexes
unfolding count
futexes-IsMap = record { addresses = λ a. ground arith; events = λ e. ground arith }

first_found : futex_find_unlocked futexes 4096 ≡ some first
unfolding futex_find_unlocked
first_found = refl

second_found : futex_find_unlocked futexes 8192 ≡ some second
unfolding futex_find_unlocked
second_found = refl

-- Two are woken, 4 first, then 2.
wake_runs : (futex_wake futexes 4096 (pos 2) waiting).1.sleepq 7 ≡ 5 ∷ []
unfolding futex_wake sch_wakeone enqueue_unless_active highest sch_lock sch_unlock schedule last
    unlink runq_enqueue remove
wake_runs = refl

futex_wake-Woke_example :
    let (r, s') = futex_wake futexes 4096 (pos 2) waiting in
    (r ≡ ok (min 2 (length (waiting.sleepq 7))))
    × Woke 7 2 waiting.threads waiting.sleepq s'.threads s'.sleepq
futex_wake-Woke_example =
    futex_wake-Woke on_seven futexes first 4096 2 waiting first_found (omega arith) waiting-AreAble
      waiting-IsValid

futex_requeue-Requeued_example :
    let (o, fi', s') = futex_requeue none futexes 4096 (pos 1) (pos 1) 8192 waiting in
    (o ≡ ok (min 1 (length (waiting.sleepq 7)))) × (fi' ≡ futexes) × Requeued 7 8 1 1 waiting s'
futex_requeue-Requeued_example =
    futex_requeue-Requeued on_seven none futexes first second 4096 8192 1 1 waiting first_found
      second_found (λ e. omega arith) waiting-IsValid.linked

abbrev word : UserWord
word = record { begin = ok 0; okfor = true; uval = pos 3 }

first_got : (futex_get none futexes 4096 waiting).0 ≡ some first
unfolding futex_get futex_find_unlocked
first_got = refl

futex_wait-Attempt_example :
    let (o, fi', s') = futex_wait none word futexes 4096 (pos 3) none waiting in
    Attempt 7 0 word (pos 3) waiting o s'
futex_wait-Attempt_example =
    futex_wait-Attempt none word futexes 4096 (pos 3) none first waiting first_got
