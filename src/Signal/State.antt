-- ===== src/Signal/State.antt =====
-- The state of signals: `struct task` and `struct thread` (sys/include), `k_sigaction`, and the
-- scheduler, which keeps for each thread whether an unblocked signal is pending.
use apex.Base.{ℕ, Bool, true, false, not, ◌&&◌, ◌||◌, List, ◌∷◌, ◌==◌, update}
use apex.Sched.Defs.{Sched, set_thread}
use apex.Signal.Sets.{Sigset, ksigandnset, ksigisemptyset, sigcont, sigchld, sigwinch, sigurg}

-- `catch` has the address of a handler.
pub data Handler : Type 0 where
  dfl ign : Handler
  catch : ℕ → Handler

-- `flags` bit by bit; `sa_other` is whether a bit is set that has no name here.
pub record Sigaction : Type 0 where
  pub handler : Handler
  pub sa_restorer : Bool
  pub sa_restart : Bool
  pub sa_nodefer : Bool
  pub sa_siginfo : Bool
  pub sa_other : Bool
  pub restorer : ℕ
  pub mask : Sigset

-- `struct task`: `valid` is what `task_valid` reads, `cap_task` the bit CAP_TASK, `suscnt` the bit
-- pattern of an `int`. `sig_action` is indexed by signals.
pub record Task : Type 0 where
  pub valid : Bool
  pub parent : ℕ
  pub cap_task : Bool
  pub threads : List ℕ
  pub suscnt : ℕ
  pub sig_pending : Sigset
  pub sig_action : ℕ → Sigaction

-- Tasks and threads are numbered; `kern_task` is 0. `pending` and `blocked` are `sig_pending` and
-- `sig_blocked` of the threads. `exits` has the calls of `proc_exit`, the last one first: the task
-- and the signal.
pub record Signals : Type 0 where
  pub sched : Sched
  pub tasks : ℕ → Task
  pub task_of : ℕ → ℕ
  pub pending : ℕ → Sigset
  pub blocked : ℕ → Sigset
  pub exits : List (ℕ × ℕ)

abbrev pub on_sched : (Sched → Sched) → Signals → Signals
on_sched f k = record k { sched = f k.sched }

abbrev pub set_task : ℕ → Task → Signals → Signals
set_task t task k = record k { tasks = update k.tasks t task }

abbrev pub set_task_pending : ℕ → Sigset → Signals → Signals
set_task_pending t p k = set_task t (record (k.tasks t) { sig_pending = p }) k

abbrev pub thread_cur : Signals → ℕ
thread_cur k = k.sched.active

abbrev pub task_cur : Signals → ℕ
task_cur k = k.task_of k.sched.active

-- A thread's two sets, and what the scheduler is told of them.
unfoldable pub set_sigs : ℕ → Sigset → Sigset → Signals → Signals
unfolding ksigandnset ksigisemptyset
set_sigs th p b k = record k {
  pending = update k.pending th p;
  blocked = update k.blocked th b;
  sched =
      set_thread th
        (record (k.sched.threads th) { sig_unblocked = not (ksigisemptyset (ksigandnset p b)) })
        k.sched;
}

unfoldable pub sig_unblocked_pending : ℕ → Signals → Bool
unfolding ksigandnset ksigisemptyset
sig_unblocked_pending th k = not (ksigisemptyset (ksigandnset (k.pending th) (k.blocked th)))

-- What sig_ignore says of signals without a handler.
abbrev pub default_ignore : ℕ → Bool
default_ignore sig =
    (sig == sigcont) || ((sig == sigchld) || ((sig == sigwinch) || (sig == sigurg)))

unfoldable pub sig_ignore : Handler → ℕ → Bool
sig_ignore ign sig = true
sig_ignore dfl sig = default_ignore sig
sig_ignore (catch h) sig = false

abbrev pub sig_handler : Signals → ℕ → ℕ → Handler
sig_handler k t sig = ((k.tasks t).sig_action sig).handler

unfoldable pub task_access : ℕ → Signals → Bool
task_access t k =
    not (t == 0)
    && ((t == task_cur k)
        || (((k.tasks t).parent == task_cur k) || (k.tasks (task_cur k)).cap_task))

unfoldable pub proc_exit : ℕ → ℕ → Signals → Signals
proc_exit t sig k = record k { exits = (t, sig) ∷ k.exits }
