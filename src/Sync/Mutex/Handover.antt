-- ===== src/Sync/Mutex/Handover.antt =====
-- mutex_unlock by the holder: nested, last, and with threads waiting.
use apex.Base.{
  ℕ, ◌+◌, ◌-◌, ◌<◌, ◌≡◌, refl, List, [], ◌∷◌, true, false, not, ◌&&◌, ◌==◌, arith, Option, none,
  some, Bool-cases, inl, inr, remove,
}
use apex.Base.Status.{ok}
use apex.Sched.Defs.{Sched, arch_schedule}
use apex.Sched.Sleep.{sch_lock, sch_unlock, sch_wakeone, woken}
use apex.Sched.Wake.Wakeone.{first_top, sch_wakeone_lem, sch_wakeone_nobody}
use apex.Sync.Mutex.{Mutex, is_holder, is_empty, mutex_unlock, mutex_unlock_slowpath, hand_over}
use apex.Sync.Mutex.Owner.{IsCounted}

is_holder_self : (o : Option ℕ) (t : ℕ) → o ≡ some t → is_holder o t ≡ true
is_holder_self none t h = cc
is_holder_self (some u) t h = ground arith

unlock-sleepq : (s : Sched) → (sch_unlock s).sleepq ≡ s.sleepq
unfolding sch_unlock arch_schedule
unlock-sleepq s = ground arith

unlock-threads : (s : Sched) → (sch_unlock s).threads ≡ s.threads
unfolding sch_unlock arch_schedule
unlock-threads s = ground arith

-- If the holder of a mutex, locked once, releases it while threads sleep on it, the first of
-- highest priority is woken and owns the mutex with one lock counted, so that no third thread
-- can take it in between; the flag for waiters says whether any sleeper is left.
pub mutex_unlock-hands_over :
    (m : Mutex) (s : Sched) (x : ℕ) (q : List ℕ)
    → m.holder ≡ some s.active
    → m.count ≡ 1
    → m.waiters ≡ true
    → s.sleepq m.event ≡ x ∷ q
    → let (r, m', s') = mutex_unlock m s in
      let top = first_top s x q in
      (r ≡ ok 0)
      × (m'.holder ≡ some top)
      × (m'.count ≡ 1)
      × (m'.waiters ≡ not (is_empty (s'.sleepq m.event)))
      × (s'.sleepq m.event ≡ remove top (x ∷ q))
      × (s'.threads top ≡ woken (ok 0) (s.threads top))
unfolding mutex_unlock mutex_unlock_slowpath hand_over sch_lock
mutex_unlock-hands_over m s x q mine once waits sleeping =
    let self = is_holder_self m.holder s.active mine in
    let last : (m.count - 1 == 0) ≡ true = ground arith in
    let w = sch_wakeone_lem m.event x q (record s { locks = s.locks + 1 }) sleeping in
    let s' = (sch_wakeone m.event (record s { locks = s.locks + 1 })).0 in
    rw (self, waits, last, w.0)
      (
        refl,
        refl,
        refl,
        rw (unlock-sleepq s') refl,
        rw (unlock-sleepq s', w.2, sleeping) refl,
        rw (unlock-threads s', w.1) (ground arith),
      )

-- A release of a nested lock counts it off, and the holder keeps the mutex.
pub mutex_unlock-nested :
    (m : Mutex) (s : Sched)
    → m.holder ≡ some s.active
    → 1 < m.count
    → IsCounted m
    → let (r, m', s') = mutex_unlock m s in
      (r ≡ ok 0) × (m'.holder ≡ some s.active) × (m'.count + 1 ≡ m.count) × IsCounted m'
unfolding mutex_unlock mutex_unlock_slowpath
mutex_unlock-nested m s mine more v =
    let self = is_holder_self m.holder s.active mine in
    let left : (m.count - 1 == 0) ≡ false = ground arith in
    let marked : m.recursive ≡ true = ground (arith, v.marked s.active) in
    let slow : (not m.waiters && not m.recursive) ≡ false = ground arith in
    rw (self, slow, left)
      (
        refl,
        mine,
        omega arith,
        record {
          free = λ h. absurd (cc);
          held = λ t h. omega arith;
          marked = λ t h r. absurd (cc);
        },
      )

-- A release of the only lock with no thread asleep on the mutex frees it and clears its flags.
pub mutex_unlock-frees :
    (m : Mutex) (s : Sched)
    → m.holder ≡ some s.active
    → m.count ≡ 1
    → s.sleepq m.event ≡ []
    → let (r, m', s') = mutex_unlock m s in
      (r ≡ ok 0) × (m'.holder ≡ none) × (m'.waiters ≡ false) × (m'.recursive ≡ false) × IsCounted m'
unfolding mutex_unlock mutex_unlock_slowpath hand_over sch_lock
mutex_unlock-frees m s mine once alone =
    let self = is_holder_self m.holder s.active mine in
    let last : (m.count - 1 == 0) ≡ true = ground arith in
    let w = sch_wakeone_nobody m.event (record s { locks = s.locks + 1 }) alone in
    elim (Bool-cases m.waiters) [
      | inl waits ↦ rw (self, waits, last, w, alone) (refl, refl, refl, refl, freed)
      | inr clear ↦ elim (Bool-cases m.recursive) [
        | inl nested ↦ rw (self, clear, nested, last) (refl, refl, refl, refl, freed)
        | inr plain ↦ rw (self, clear, plain) (refl, refl, refl, refl, freed)
      ]
    ]
  where
    freed :
        {c e : ℕ}
        → IsCounted
            (record { holder = none; waiters = false; recursive = false; count = c; event = e })
    freed {c} {e} = record {
      free = λ h. (refl, refl);
      held = λ t h. absurd (cc);
      marked = λ t h r. absurd (cc);
    }
