-- ===== src/Sync/Futex.antt =====
-- The futexes of a task, sys/sync/futex.cpp. What lies outside the file is an argument: what
-- `malloc` gives (the event of the new futex, or none), and what the access to user memory finds
-- (sys/mem/access.cpp). A wait goes up to the point where its thread gives up the processor.
pub mod Waking
pub mod Moving
pub mod Waiting
pub mod Lookup
mod Tests
use apex.Base.{
  ℕ, zero, suc, ◌+◌, ◌-◌, ◌*◌, ◌%◌, ◌^◌, Bool, true, false, not, ◌&&◌, ◌||◌, ltb, ◌==◌,
  if◌then◌else◌, Option, none, some, List, [], ◌∷◌,
}
use apex.Base.Int.{ℤ, pos, negsuc, is_negative}
use apex.Base.Status.{Status, ok, err, Errno, eagain, efault, einval, enomem, enosys, enotsup}
use apex.Sched.Defs.{Sched}
use apex.Sched.Sleep.{
  sch_lock, sch_unlock, sch_wakeone, sch_wakeup, sch_requeue, sch_prepare_sleep, sch_continue_sleep,
  sleep_result,
}
use apex.Sync.Wait.{Outcome, done, sleeps}
use apex.Sync.Semaphore.{int_max}

-- `struct k_futex`. `event_init` gives it an event that nothing else uses.
pub record Futex : Type 0 where
  pub addr : ℕ
  pub event : ℕ

-- `timespec32`, of two `int32_t`.
pub record Timespec : Type 0 where
  pub tv_sec : ℤ
  pub tv_nsec : ℤ

-- `u_access_begin_interruptible`, `u_access_okfor` and the word at the address.
pub record UserWord : Type 0 where
  pub begin : Status
  pub okfor : Bool
  pub uval : ℤ

abbrev pub same_int : ℤ → ℤ → Bool
same_int (pos m) (pos n) = m == n
same_int (negsuc m) (negsuc n) = m == n
same_int (pos m) (negsuc n) = false
same_int (negsuc m) (pos n) = false

-- `int` to `uint_fast64_t`.
abbrev pub to_unsigned : ℤ → ℕ
to_unsigned (pos n) = n
to_unsigned (negsuc n) = 2 ^ 64 - (n + 1)

unfoldable pub ts32_to_ns : Timespec → ℕ
ts32_to_ns ts = (to_unsigned ts.tv_sec * 1000000000 + to_unsigned ts.tv_nsec) % 2 ^ 64

unfoldable pub futex_find_unlocked : List Futex → ℕ → Option Futex
futex_find_unlocked [] uaddr = none
futex_find_unlocked (f ∷ fi) uaddr =
    let rest = futex_find_unlocked fi uaddr in if f.addr == uaddr then some f else rest

unfoldable pub futex_find : List Futex → ℕ → Sched → Option Futex × Sched
unfolding futex_find_unlocked
futex_find fi uaddr s = (futex_find_unlocked fi uaddr, sch_unlock (sch_lock s))

unfoldable pub futex_get : Option ℕ → List Futex → ℕ → Sched → Option Futex × List Futex × Sched
unfolding futex_find_unlocked
futex_get malloc fi uaddr s =
    let s' = sch_unlock (sch_lock s) in
    elim (futex_find_unlocked fi uaddr) [
      | some f ↦ (some f, fi, s')
      | none ↦ elim malloc [
        | none ↦ (none, fi, s')
        | some e ↦ let f : Futex = record { addr = uaddr; event = e } in (some f, f ∷ fi, s')
      ]
    ]

abbrev pub above_billion : ℤ → Bool
above_billion (pos n) = ltb 1000000000 n
above_billion (negsuc n) = false

abbrev pub is_bad_time : Option Timespec → Bool
is_bad_time none = false
is_bad_time (some ts) = is_negative ts.tv_sec || above_billion ts.tv_nsec

abbrev pub nsec_of : Option Timespec → ℕ
nsec_of none = 0
nsec_of (some ts) = ts32_to_ns ts

-- The end of a wait: the futex's spinlock is released, and the thread sleeps if it prepared to.
unfoldable pub sleep_or_return : List Futex → Status × Sched → Outcome × List Futex × Sched
sleep_or_return fi (ok n, s) = (sleeps, fi, sch_continue_sleep (sch_unlock s))
sleep_or_return fi (err e, s) = (done (err e), fi, sch_unlock s)

-- What a wait returns once its thread runs again: the value of sch_continue_sleep.
unfoldable pub futex_resume : Sched → Status
futex_resume s = sleep_result s

-- The wait once its futex is there, by what `u_access_begin_interruptible` returns.
unfoldable pub compare_and_sleep :
    Status → UserWord → ℤ → ℕ → ℕ → List Futex → Sched → Outcome × List Futex × Sched
unfolding sleep_or_return
compare_and_sleep (err e) u val nsec event fi s = (done (err e), fi, s)
compare_and_sleep (ok n) u val nsec event fi s =
    let s' = sch_lock s in
    if not u.okfor
    then (done (err efault), fi, s)
    else if not (same_int u.uval val)
    then (done (err eagain), fi, sch_unlock s')
    else sleep_or_return fi (sch_prepare_sleep event nsec s')

unfoldable pub wait_on :
    UserWord → ℤ → ℕ → Option Futex × List Futex × Sched → Outcome × List Futex × Sched
unfolding compare_and_sleep
wait_on u val nsec (none, fi, s) = (done (err enomem), fi, s)
wait_on u val nsec (some f, fi, s) = compare_and_sleep u.begin u val nsec f.event fi s

unfoldable pub futex_wait :
    Option ℕ
    → UserWord
    → List Futex
    → ℕ
    → ℤ
    → Option Timespec
    → Sched
    → Outcome × List Futex × Sched
unfolding wait_on futex_get
futex_wait malloc u fi uaddr val ts s =
    if is_bad_time ts
    then (done (err einval), fi, s)
    else wait_on u val (nsec_of ts) (futex_get malloc fi uaddr s)

-- `while (n && sch_wakeone(e)) --n`, with what is left of n.
unfoldable pub wake_loop : ℕ → ℕ → Sched → ℕ × Sched
wake_loop e zero s = (0, s)
wake_loop e (suc n) s =
    let (s', w) = sch_wakeone e s in elim w [ none ↦ (suc n, s') | some t ↦ wake_loop e n s' ]

abbrev pub one_if_some : Option ℕ → ℕ
one_if_some none = 0
one_if_some (some t) = 1

-- The `switch` of `futex_wake`.
unfoldable pub wake_some : ℕ → ℕ → Sched → ℕ × Sched
unfolding wake_loop
wake_some e val s =
    if val == 1
    then (one_if_some (sch_wakeone e s).1, (sch_wakeone e s).0)
    else if val == int_max
    then ((sch_wakeup e (ok 0) s).1, (sch_wakeup e (ok 0) s).0)
    else (val - (wake_loop e val s).0, (wake_loop e val s).1)

unfoldable pub wake_at : ℕ → Option Futex × Sched → Status × Sched
unfolding wake_some
wake_at val (none, s) = (ok 0, s)
wake_at val (some f, s) = let (n, s') = wake_some f.event val (sch_lock s) in (ok n, sch_unlock s')

unfoldable pub futex_wake : List Futex → ℕ → ℤ → Sched → Status × Sched
unfolding wake_at futex_find
futex_wake fi uaddr (negsuc n) s = (err einval, s)
futex_wake fi uaddr (pos zero) s = (ok 0, s)
futex_wake fi uaddr (pos (suc n)) s = wake_at (suc n) (futex_find fi uaddr s)

-- `while (val2-- && sch_requeue(l, r))`
unfoldable pub requeue_loop : ℕ → ℕ → ℕ → Sched → Sched
requeue_loop zero l r s = s
requeue_loop (suc n) l r s =
    let (s', w) = sch_requeue l r s in elim w [ none ↦ s' | some t ↦ requeue_loop n l r s' ]

unfoldable pub requeue_to :
    ℕ → ℕ → ℕ → Option Futex × List Futex × Sched → Status × List Futex × Sched
unfolding requeue_loop
requeue_to n val2 l (none, fi, s) = (err enomem, fi, s)
requeue_to n val2 l (some r, fi, s) = (ok n, fi, requeue_loop val2 l r.event s)

unfoldable pub requeue_from :
    Option ℕ → List Futex → ℕ → ℕ → ℕ → Option Futex × Sched → Status × List Futex × Sched
unfolding requeue_to futex_get wake_loop
requeue_from malloc fi val val2 uaddr2 (none, s) = (ok 0, fi, s)
requeue_from malloc fi val val2 uaddr2 (some l, s) =
    let (n, s') = wake_loop l.event val (sch_lock s) in
    let s'' = sch_unlock s' in
    if val2 == 0
    then (ok (val - n), fi, s'')
    else requeue_to (val - n) val2 l.event (futex_get malloc fi uaddr2 s'')

unfoldable pub futex_requeue :
    Option ℕ → List Futex → ℕ → ℤ → ℤ → ℕ → Sched → Status × List Futex × Sched
unfolding requeue_from futex_find
futex_requeue malloc fi uaddr (pos val) (pos val2) uaddr2 s =
    requeue_from malloc fi val val2 uaddr2 (futex_find fi uaddr s)
futex_requeue malloc fi uaddr (pos val) (negsuc n) uaddr2 s = (err einval, fi, s)
futex_requeue malloc fi uaddr (negsuc n) val2 uaddr2 s = (err einval, fi, s)

-- The word `op`: the command under FUTEX_OP_MASK, and FUTEX_CLOCK_REALTIME. FUTEX_PRIVATE only
-- chooses whether a warning is printed.
pub record Op : Type 0 where
  pub command : ℕ
  pub realtime : Bool

-- FUTEX_WAIT, FUTEX_WAKE and FUTEX_REQUEUE.
abbrev pub cmd_wait : ℕ
cmd_wait = 0

abbrev pub cmd_wake : ℕ
cmd_wake = 1

abbrev pub cmd_requeue : ℕ
cmd_requeue = 3

abbrev pub returned : List Futex → Status × Sched → Outcome × List Futex × Sched
returned fi (r, s) = (done r, fi, s)

abbrev pub requeued : Status × List Futex × Sched → Outcome × List Futex × Sched
requeued (r, fi, s) = (done r, fi, s)

-- `val2` is a time for a wait and a number for a requeue: `ts` and `val2` here. `okay2` is what
-- `u_addressfor` says of the second address.
unfoldable pub futex :
    Option ℕ
    → UserWord
    → Bool
    → Op
    → ℕ
    → ℤ
    → Option Timespec
    → ℤ
    → ℕ
    → List Futex
    → Sched
    → Outcome × List Futex × Sched
unfolding futex_wait futex_wake futex_requeue
futex malloc u okay2 op uaddr val ts val2 uaddr2 fi s =
    if (op.command == cmd_requeue) && not okay2
    then (done (err efault), fi, s)
    else if op.realtime
    then (done (err enosys), fi, s)
    else if op.command == cmd_wait
    then futex_wait malloc u fi uaddr val ts s
    else if op.command == cmd_wake
    then returned fi (futex_wake fi uaddr val s)
    else if op.command == cmd_requeue
    then requeued (futex_requeue malloc fi uaddr val val2 uaddr2 s)
    else (done (err enotsup), fi, s)
