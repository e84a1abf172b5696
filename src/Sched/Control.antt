-- ===== src/Sched/Control.antt =====
-- Switching and control of threads, sys/kern/sch.cpp: sch_switch, and sched_yield to the DPCs.
use apex.Base.{
  ℕ, ◌+◌, ◌-◌, ◌%◌, ◌^◌, Bool, true, false, not, ◌&&◌, ◌||◌, Option, none, some, List, [], ◌∷◌,
  ◌++◌, ltb, leb, ◌==◌, if◌then◌else◌, update,
}
use apex.Base.Status.{Status, ok, err, einval}
use apex.Sched.Defs.{
  Thread, Policy, rr, other, Resched, idle, switch, preempt, is_idle, Sched, prio_of, set_thread,
  runq_top, thread_runnable, runq_enqueue, runq_insert, runq_dequeue, unlink, arch_schedule,
  schedule, pri_default,
}
use apex.Sched.Sleep.{sch_wakeup}

-- The active thread goes back to the run queue, to the front of its priority if it was preempted.
unfoldable pub put_by : Resched → Sched → Sched
put_by preempt s = runq_insert s.active s
put_by _ s = runq_enqueue s.active s

unfoldable pub put_back : Sched → Sched
unfolding put_by
put_back s = if thread_runnable (s.threads s.active) then put_by s.resched s else s

-- `list_remove` of a zombie from its task, and `thread_zombie`.
unfoldable pub bury : ℕ → Sched → Sched
bury t s =
    let s' = (sch_wakeup (s.threads t).thread_event (ok 0) s).0 in
    if (s.threads t).zombie then record s' { zombies = t ∷ s'.zombies } else s

abbrev pub take_over : ℕ → ℕ → Sched → Sched
take_over prev next s =
    let s' = bury prev (record s { active = next }) in if next == prev then s else s'

abbrev pub dispatch : ℕ → Option (ℕ × Sched) → Option Sched
dispatch prev none = none
dispatch prev (some (next, s)) = some (take_over prev next s)

-- `none`: no thread can run, and the run queue's head is taken for one.
unfoldable pub sch_switch : Sched → Option Sched
unfolding runq_dequeue
sch_switch s =
    let s₀ = record s { switch_pending = false } in
    if is_idle s.resched || not (s.locks == 0)
    then some s₀
    else dispatch s.active (runq_dequeue (record (put_back s₀) { resched = idle }))

unfoldable pub sched_yield : Sched → Sched
sched_yield s =
    if leb (runq_top s) (prio_of s s.active)
    then arch_schedule (record s { resched = switch })
    else s

-- The first half of `sch_suspend_resume`: the new state, and whether to reschedule.
unfoldable pub suspend_part : Option ℕ → Sched → Sched × Bool
suspend_part none s = (s, false)
suspend_part (some t) s =
    let th = s.threads t in
    let s' =
      if t == s.active
      then record s { resched = switch }
      else if thread_runnable th
      then unlink t s
      else s in
    (set_thread t (record th { suspend = true }) s', true)

unfoldable pub resume_part : Option ℕ → Sched × Bool → Sched × Bool
resume_part none (s, again) = (s, again)
resume_part (some t) (s, again) =
    let th = record (s.threads t) { suspend = false } in
    let s' = set_thread t th s in
    if thread_runnable th && not (t == s.active) then (runq_enqueue t s', true) else (s', again)

unfoldable pub sch_suspend_resume : Option ℕ → Option ℕ → Sched → Sched
unfolding suspend_part resume_part
sch_suspend_resume suspended resumed s =
    let (s', again) = resume_part resumed (suspend_part suspended s) in
    if again then schedule s' else s'

unfoldable pub sch_suspend : ℕ → Sched → Sched
unfolding sch_suspend_resume
sch_suspend t s = sch_suspend_resume (some t) none s

unfoldable pub sch_resume : ℕ → Sched → Sched
unfolding sch_suspend_resume
sch_resume t s = sch_suspend_resume none (some t) s

-- `timeleft <= 0` of the bit pattern of an `int`.
abbrev pub not_positive : ℕ → Bool
not_positive w = (w == 0) || leb (2 ^ 31) w

-- `timeleft -= nsec` and `+= QUANTUM` in 32 bits.
unfoldable pub charge : ℕ → ℕ → Thread → Thread × Bool
charge quantum nsec th =
    let left = (th.timeleft + 2 ^ 32 - nsec % 2 ^ 32) % 2 ^ 32 in
    let th' = record th { time = (th.time + nsec) % 2 ^ 64 } in
    elim th.policy [
      | rr ↦
          if not_positive left
          then (record th' { timeleft = (left + quantum) % 2 ^ 32 }, true)
          else (record th' { timeleft = left }, false)
      | _ ↦ (th', false)
    ]

unfoldable pub sch_elapse : ℕ → ℕ → Sched → Sched
unfolding charge
sch_elapse quantum nsec s =
    let (th, up) = charge quantum nsec (s.threads s.active) in
    let s' = set_thread s.active th s in
    if up && leb (runq_top s') (prio_of s' s.active)
    then schedule (record s' { resched = switch })
    else s'

unfoldable pub sch_start : ℕ → ℕ → Sched → Sched
sch_start quantum t s =
    set_thread t
      (record (s.threads t) {
        sleep = false;
        suspend = true;
        exit = false;
        zombie = false;
        policy = rr;
        prio = pri_default;
        baseprio = pri_default;
        timeleft = quantum;
      })
      s

unfoldable pub sch_stop : ℕ → Sched → Sched
sch_stop t s = set_thread t (record (s.threads t) { exit = true }) s

unfoldable pub sch_testexit : Sched → Sched × Bool
sch_testexit s =
    let th = s.threads s.active in
    if th.exit
    then (
      arch_schedule
          (record (set_thread s.active (record th { zombie = true }) s) { resched = switch }),
      true,
    )
    else (s, false)

unfoldable pub sch_setprio : ℕ → ℕ → ℕ → Sched → Sched
sch_setprio t base prio s =
    let s' = set_thread t (record (s.threads t) { baseprio = base; prio = prio }) s in
    let preempted = record s' {
      resched = if ltb (runq_top s') prio && is_idle s.resched then preempt else s.resched;
    } in
    schedule (
      if t == s.active
      then preempted
      else if thread_runnable (s.threads t)
      then runq_enqueue t (unlink t s')
      else s')

unfoldable pub sch_setpolicy : ℕ → ℕ → Policy → Sched → Status × Sched
sch_setpolicy quantum t (other p) s = (err einval, s)
sch_setpolicy quantum t p s =
    (ok 0, set_thread t (record (s.threads t) { timeleft = quantum; policy = p }) s)

-- The DPC thread sleeps on `dpc_event`.
module _ (dpc_event : ℕ) where
  unfoldable pub sch_dpc : ℕ → ℕ → ℕ → Sched → Sched
  sch_dpc d func arg s =
      let s' = record s {
        dpcq = if (s.dpcs d).pending then s.dpcq else s.dpcq ++ d ∷ [];
        dpcs = update s.dpcs d (record { pending = true; func = func; arg = arg });
      } in
      (sch_wakeup dpc_event (ok 0) s').0

unfoldable pub dpc_of : List ℕ → Sched → Option ((ℕ × ℕ) × Sched)
dpc_of [] s = none
dpc_of (d ∷ q) s =
    let c = s.dpcs d in
    some (
      (c.func, c.arg),
      record s { dpcq = q; dpcs = update s.dpcs d (record c { pending = false }) },
    )

-- One round of the inner loop of `dpc_thread`: the call to make, taken off the queue.
unfoldable pub dpc_next : Sched → Option ((ℕ × ℕ) × Sched)
unfolding dpc_of
dpc_next s = dpc_of s.dpcq s

-- PRI_USER_MAX and PRI_USER_MIN.
unfoldable pub sched_get_priority_max : Policy → Status
sched_get_priority_max (other p) = err einval
sched_get_priority_max p = ok 150

unfoldable pub sched_get_priority_min : Policy → Status
sched_get_priority_min (other p) = err einval
sched_get_priority_min p = ok 250
