-- ===== src/Sched/Dpcs.antt =====
-- Deferred procedure calls: sch_dpc and the queue that dpc_thread works off, sys/kern/sch.cpp.
use apex.Base.{
  ℕ, ◌+◌, ◌≡◌, ◌≢◌, ◌∙◌, refl, List, [], ◌∷◌, ◌++◌, true, false, if◌then◌else◌, arith, count,
  count-append, update, some,
}
use apex.Base.Status.{Status, ok}
use apex.Sched.Defs.{Sched, set_thread}
use apex.Sched.Sleep.{sch_wakeup, wakeup_loop, enqueue_unless_active, woken}
use apex.Sched.Defs.{schedule, arch_schedule, runq_enqueue}
use apex.Sched.Control.{sch_dpc, dpc_next}
use apex.Sched.Valid.{IsValid, one_if}
use apex.Sched.Wake.Wakeup.{AreAble, sch_wakeup-WakesAll}

-- A DPC object stands in the queue, once, exactly while it is pending.
abbrev pub IsQueued : Sched → Type 0
IsQueued s = (d : ℕ) → count d s.dpcq ≡ one_if (s.dpcs d).pending

abbrev SameDpcs : Sched → Sched → Type 0
SameDpcs s s' = (s'.dpcq ≡ s.dpcq) × (s'.dpcs ≡ s.dpcs)

place-dpcs : (u t : ℕ) (s : Sched) → SameDpcs s (enqueue_unless_active u t s)
unfolding enqueue_unless_active runq_enqueue
place-dpcs u t s = ground arith

wakeup_loop-dpcs :
    (e : ℕ) (r : Status) (q : List ℕ) (s : Sched) (n : ℕ) → SameDpcs s (wakeup_loop e r q s n).0
unfolding wakeup_loop
wakeup_loop-dpcs e r [] s n = (refl, refl)
wakeup_loop-dpcs e r (t ∷ q) s n =
    let s₁ = record (set_thread t (woken r (s.threads t)) s) { sleepq = update s.sleepq e q } in
    let rest = wakeup_loop-dpcs e r q (enqueue_unless_active t t s₁) (n + 1) in
    let first = place-dpcs t t s₁ in (rest.0 ∙ first.0, rest.1 ∙ first.1)

schedule-dpcs : (s : Sched) → SameDpcs s (schedule s)
unfolding schedule arch_schedule
schedule-dpcs s = ground arith

sch_wakeup-dpcs : (e : ℕ) (r : Status) (s : Sched) → SameDpcs s (sch_wakeup e r s).0
unfolding sch_wakeup
sch_wakeup-dpcs e r s =
    let loop = wakeup_loop-dpcs e r (s.sleepq e) s 0 in
    let last = schedule-dpcs (wakeup_loop e r (s.sleepq e) s 0).0 in ground arith

abbrev requested : ℕ → ℕ → ℕ → Sched → Sched
requested d func arg s = record s {
  dpcq = if (s.dpcs d).pending then s.dpcq else s.dpcq ++ d ∷ [];
  dpcs = update s.dpcs d (record { pending = true; func = func; arg = arg });
}

-- A request leaves the object pending with the new function and argument, queued once however
-- often it is requested, and touches no other object.
pub sch_dpc-IsQueued :
    (dpc_event d func arg : ℕ) (s : Sched)
    → IsQueued s
    → let s' = sch_dpc dpc_event d func arg s in
      IsQueued s'
      × (s'.dpcs d ≡ record { pending = true; func = func; arg = arg })
      × ((d' : ℕ) → d' ≢ d → s'.dpcs d' ≡ s.dpcs d')
unfolding sch_dpc count
sch_dpc-IsQueued dpc_event d func arg s v =
    let same = sch_wakeup-dpcs dpc_event (ok 0) (requested d func arg s) in
    (
      λ d'. rw (same.0, same.1) (ground (arith, v d', v d, count-append d' s.dpcq (d ∷ []))),
      rw same.1 (ground arith),
      λ d' ne. rw same.1 (ground arith),
    )

-- The DPC thread takes requests in order, each with the function and argument last asked for,
-- and the object may be requested again at once.
pub dpc_next-IsQueued :
    (d : ℕ) (q : List ℕ) (s : Sched)
    → s.dpcq ≡ d ∷ q
    → IsQueued s
    → (s' : Sched) × (dpc_next s ≡ some (((s.dpcs d).func, (s.dpcs d).arg), s'))
      × (s'.dpcq ≡ q)
      × ((s'.dpcs d).pending ≡ false)
      × IsQueued s'
unfolding dpc_next count
dpc_next-IsQueued d q s h v = (
  record s { dpcq = q; dpcs = update s.dpcs d (record (s.dpcs d) { pending = false }) },
  rw h refl,
  refl,
  ground arith,
  λ d'. ground (arith, v d', v d),
)

-- A request keeps the scheduler valid if the DPC thread is able to run.
pub sch_dpc-IsValid :
    (w : ℕ → ℕ) (dpc_event d func arg : ℕ) (s : Sched)
    → AreAble s (s.sleepq dpc_event)
    → IsValid w s
    → IsValid w (sch_dpc dpc_event d func arg s)
unfolding sch_dpc
sch_dpc-IsValid w dpc_event d func arg s able v =
    (sch_wakeup-WakesAll w dpc_event (ok 0) (requested d func arg s) able (record {
      linked = record {
        queued = v.linked.queued;
        asleep = v.linked.asleep;
        ordered = v.linked.ordered;
      };
      prompt = v.prompt;
      posted = v.posted;
    })).valid
