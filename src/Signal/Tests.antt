-- ===== src/Signal/Tests.antt =====
-- Signals at concrete states: tests, and the theorems at inputs that meet their hypotheses.
use apex.Base.{
  ℕ, suc, ◌≡◌, refl, true, false, ◌==◌, if◌then◌else◌, arith, none, some, [], ◌∷◌, update,
}
use apex.Base.Status.{ok, err, eperm}
use apex.Sched.Defs.{Thread, rr, idle, Sched, runq_enqueue, unlink, schedule}
use apex.Sched.Sleep.{sch_unsleep, sch_signal}
use apex.Signal.Sets.{Sigset, sigchld, sigcont, ksigandnset, ksigisemptyset, ksigfirst}
use apex.Signal.State.{dfl, ign, catch, Sigaction, Signals, task_access, sig_ignore}
use apex.Signal.Sending.{sig_flush, sig_task}
use apex.Signal.Delivery.{eintr, value, Frame, sig_deliver}
use apex.Signal.Calls.{block, UserAccess, sig_exec, sc_rt_sigprocmask, sc_rt_sigaction}
use apex.Signal.Offers.{Flushed}
use apex.Signal.Flush.{sig_flush-Flushed}
use apex.Signal.Sent.{Sent, sig_task-Sent, sig_task-cont}
use apex.Signal.Masks.{Masked, sc_rt_sigprocmask-Masked}
use apex.Signal.Handled.{Handled, action_of, sig_deliver-Handled}
use apex.Signal.Exec.{sig_exec-sig_deliver}
use apex.Signal.Kill.{own_group, group, Processes, kill}
use apex.Signal.Clean.{IsClean}
use apex.Signal.Action.{Cleanly, sc_rt_sigaction-Cleanly}

abbrev ready : Thread
ready = record {
  sleep = false;
  suspend = false;
  exit = false;
  zombie = false;
  policy = rr;
  prio = 200;
  baseprio = 200;
  timeleft = 1000;
  time = 0;
  slpevt = none;
  slpret = ok 0;
  timeout = none;
  sig_unblocked = false;
  thread_event = 90;
}

-- Thread 1 runs, thread 2 sleeps on event 7, and 0 is the idle thread.
abbrev two_threads : Sched
two_threads = record {
  threads = λ t.
      if t == 2
      then record ready { sleep = true; slpevt = some 7 }
      else if t == 1
      then ready
      else (record ready { prio = 255 });
  active = 1;
  runq = 0 ∷ [];
  sleepq = λ e. if e == 7 then 2 ∷ [] else [];
  resched = idle;
  locks = 0;
  switch_pending = false;
  zombies = [];
  dpcq = [];
  dpcs = λ i. record { pending = false; func = 0; arg = 0 };
}

abbrev no_signals : Sigset
no_signals n = false

abbrev only : ℕ → Sigset
only sig n = suc n == sig

abbrev by_default : Sigaction
by_default = record {
  handler = dfl;
  sa_restorer = false;
  sa_restart = false;
  sa_nodefer = false;
  sa_siginfo = false;
  sa_other = false;
  restorer = 0;
  mask = no_signals;
}

-- SIGUSR1, 10, and SIGCHLD have handlers; the handler of SIGUSR1 also blocks signal 12.
abbrev actions : ℕ → Sigaction
actions sig =
    if sig == 10
    then record by_default { handler = catch 4096; sa_restart = true; mask = only 12 }
    else if sig == sigchld
    then record by_default { handler = catch 8192 }
    else by_default

-- Threads 1 and 2 are those of task 1; thread 1 blocks signal 10.
abbrev plain : Signals
plain = record {
  sched = two_threads;
  tasks = λ t. record {
    valid = true;
    parent = 0;
    cap_task = false;
    threads = 1 ∷ 2 ∷ [];
    suscnt = 0;
    sig_pending = no_signals;
    sig_action = actions;
  };
  task_of = λ th. 1;
  pending = λ th. no_signals;
  blocked = λ th. if th == 1 then only 10 else no_signals;
  exits = [];
}

-- A signal is pending on task 1, or on thread 1.
abbrev on_task : ℕ → Signals
on_task sig = record plain {
  tasks = update plain.tasks 1 (record (plain.tasks 1) { sig_pending = only sig });
}

abbrev on_thread : ℕ → Signals
on_thread sig = record plain { pending = λ th. if th == 1 then only sig else no_signals }

flush_runs : (sig_flush 1 (on_task 10)).pending 2 9 ≡ true
unfolding sig_flush
flush_runs = refl

wakes_2 : ((sig_flush 1 (on_task 10)).sched.threads 2).sleep ≡ false
unfolding sig_flush sch_signal sch_unsleep schedule runq_enqueue unlink
wakes_2 = refl

sig_flush-Flushed_example :
    Flushed 1 ((on_task 10).tasks 1).threads (on_task 10) (sig_flush 1 (on_task 10))
sig_flush-Flushed_example = sig_flush-Flushed 1 (on_task 10)

sig_task-Sent_example : (k' : Signals) × (sig_task 1 10 plain ≡ some (ok 0, k')) × Sent 1 9 plain k'
unfolding sig_ignore
sig_task-Sent_example =
    sig_task-Sent 1 9 plain refl (omega arith) (omega arith)
      (record { not_kill = refl; not_cont = refl; not_stop = refl }) refl

sig_task-cont_example : sig_task 1 sigcont plain ≡ none
unfolding task_access
sig_task-cont_example = sig_task-cont 1 plain refl (omega arith) refl refl

abbrev reachable : UserAccess
reachable = record { begin = ok 0; write_ok = true; read_ok = true }

sc_rt_sigprocmask-Masked_example :
    let (r, old, k') = sc_rt_sigprocmask block (some (only 9)) true true reachable (on_task 10) in
    Masked block (some (only 9)) (on_task 10) r old k'
sc_rt_sigprocmask-Masked_example =
    sc_rt_sigprocmask-Masked block (some (only 9)) true true reachable (on_task 10)

sig_deliver-Handled_example :
    (n : ℕ) × (frame : Frame) × (k' : Signals) × (sig_deliver true eintr (on_thread sigchld)
      ≡ some (value (suc n), some frame, k'))
    × Handled (action_of n (on_thread sigchld)) 8192 n eintr frame (on_thread sigchld) k'
unfolding ksigisemptyset ksigandnset ksigfirst
sig_deliver-Handled_example = sig_deliver-Handled eintr (on_thread sigchld) 8192 refl refl refl

sig_exec-sig_deliver_example : sig_deliver true (value 0) (sig_exec 1 (on_thread sigchld)) ≡ none
unfolding ksigisemptyset ksigandnset ksigfirst
sig_exec-sig_deliver_example =
    sig_exec-sig_deliver true (value 0) (on_thread sigchld) 8192 refl refl refl refl

on_thread-IsClean : IsClean 1 (on_thread sigchld)
unfolding sig_ignore
on_thread-IsClean = record {
  on_task = λ n l h. absurd (cc);
  on_threads = λ th n here l h. let e : n ≡ 16 = ground (arith, h) in rw e refl;
}

sc_rt_sigaction-Cleanly_example : Cleanly 1 (on_thread sigchld) (
    sc_rt_sigaction 17
      (some (record by_default { handler = ign }))
      true
      true
      reachable
      (on_thread sigchld))
sc_rt_sigaction-Cleanly_example =
    sc_rt_sigaction-Cleanly 16 (some (record by_default { handler = ign })) true true reachable
      (on_thread sigchld) (omega arith) on_thread-IsClean

abbrev no_processes : Processes
no_processes = record {
  all = 1 ∷ [];
  task_find = λ p. none;
  task_pid = λ t. t;
  pgid = λ t. 5;
  cap_kill = false;
}

kill_refused : kill no_processes (group 7) 10 plain ≡ some (err eperm, plain)
unfolding kill
kill_refused = refl

kill_group :
    (elim (kill no_processes own_group 10 plain) [ none ↦ false | some (r, k) ↦ k.pending 2 9 ])
    ≡ true
unfolding kill
kill_group = refl
