-- ===== src/Links/Tests.antt =====
-- Queues of links at concrete stores: tests, and the theorems at inputs that meet their hypotheses.
use apex.Base.{
  ℕ, zero, suc, ◌+◌, ◌<◌, ◌≡◌, ◌≢◌, refl, ap, false, [], ◌∷◌, ◌==◌, if◌then◌else◌, arith, none,
  some, count,
}
use apex.Base.Status.{ok}
use apex.Sched.Defs.{Thread, rr, idle, Sched, prio_of, unlink, runq_enqueue}
use apex.Links.{Links, dequeue, queue_remove, enqueue_link}
use apex.Links.Segments.{nil, cons}
use apex.Links.Queues.{IsQueue}
use apex.Links.Scheduler.{queue_of, Represents, queue_remove-unlink}
use apex.Links.Insertion.{runq_enqueue-links}

-- Links 1 and 2 hang on the head 1000, in this order; every other link leads to itself.
abbrev two_links : Links
two_links = record {
  next = λ x. if x == 1000 then 1 else if x == 1 then 2 else if x == 2 then 1000 else x;
  prev = λ x. if x == 1000 then 2 else if x == 1 then 1000 else if x == 2 then 1 else x;
}

two_links-IsQueue : IsQueue 1000 (1 ∷ 2 ∷ []) two_links
unfolding count
two_links-IsQueue = record {
  seg = cons refl refl (cons refl refl (nil refl refl));
  once = λ x. ground arith;
}

dequeue_runs : (dequeue 1000 two_links).0 ≡ some 1
unfolding dequeue
dequeue_runs = refl

abbrev thread : Thread
thread = record {
  sleep = false;
  suspend = false;
  exit = false;
  zombie = false;
  policy = rr;
  prio = 200;
  baseprio = 200;
  timeleft = 1000;
  time = 0;
  slpevt = none;
  slpret = ok 0;
  timeout = none;
  sig_unblocked = false;
  thread_event = 90;
}

-- Threads 1 and 2 wait for the processor; the idle thread, 0, runs, and thread 3 is in no queue.
abbrev waiting : Sched
waiting = record {
  threads = λ t. if t == 3 then record thread { prio = 150 } else thread;
  active = 0;
  runq = 1 ∷ 2 ∷ [];
  sleepq = λ e. [];
  resched = idle;
  locks = 0;
  switch_pending = false;
  zombies = [];
  dpcq = [];
  dpcs = λ i. record { pending = false; func = 0; arg = 0 };
}

-- The head of each queue.
abbrev heads : ℕ → ℕ
heads q = 1000 + q

waiting-queues : (q : ℕ) → IsQueue (heads q) (queue_of waiting q) two_links
unfolding count
waiting-queues zero = two_links-IsQueue
waiting-queues (suc e) = record {
  seg = nil (ground arith) (ground arith);
  once = λ x. ground arith;
}

waiting-apart :
    (q r x : ℕ)
    → q ≢ r
    → 0 < count x (heads q ∷ queue_of waiting q)
    → count x (heads r ∷ queue_of waiting r) ≡ 0
unfolding count
waiting-apart zero zero x other here = absurd (other refl)
waiting-apart zero (suc f) x other here = ground (arith, here)
waiting-apart (suc e) zero x other here = ground (arith, here)
waiting-apart (suc e) (suc f) x other here =
    let apart : e ≢ f = (λ same. other (ap suc same)) in ground (arith, here, apart)

waiting-Represents : Represents heads waiting two_links
waiting-Represents = record { queues = waiting-queues; apart = waiting-apart }

queue_remove-unlink_example : Represents heads (unlink 2 waiting) (queue_remove 2 two_links)
unfolding count
queue_remove-unlink_example =
    queue_remove-unlink heads waiting two_links waiting-Represents 2 0 (omega arith)

absent_3 : (q : ℕ) → count 3 (heads q ∷ queue_of waiting q) ≡ 0
unfolding count
absent_3 zero = refl
absent_3 (suc e) = ground arith

runq_enqueue-links_example :
    (g : Links) × (enqueue_link 5 (prio_of waiting) 1000 3 two_links ≡ some g)
    × Represents heads (runq_enqueue 3 waiting) g
runq_enqueue-links_example =
    runq_enqueue-links heads waiting two_links 3 5 waiting-Represents absent_3 (omega arith)
