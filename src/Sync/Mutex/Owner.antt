-- ===== src/Sync/Mutex/Owner.antt =====
-- Who may hold, take and release a mutex.
use apex.Base.{
  ℕ, ◌+◌, ◌<◌, ◌≡◌, ◌≢◌, refl, Bool, true, false, ◌==◌, arith, Option, none, some, Bool-cases,
  Option-cases, inl, inr,
}
use apex.Base.Status.{Status, ok, err, eintr, einval}
use apex.Sched.Defs.{Sched}
use apex.Sched.Sleep.{sch_lock, sch_prepare_sleep}
use apex.Sync.Wait.{Outcome, done, sleeps, sig_block_all}
use apex.Sync.Mutex.{
  Mutex, is_holder, take_free, sleep_or_fail, mutex_lock_slowpath, restore_if_done, mutex_lock_s,
  mutex_unlock,
}

-- A held mutex counts its holder's locks, and has flags only while it is held; more than one
-- lock is marked as recursive.
pub record IsCounted (m : Mutex) : Type 0 where
  pub free : m.holder ≡ none → (m.waiters ≡ false) × (m.recursive ≡ false)
  pub held : (t : ℕ) → m.holder ≡ some t → 0 < m.count
  pub marked : (t : ℕ) → m.holder ≡ some t → m.recursive ≡ false → m.count ≡ 1

-- What a lock attempt by `t` does: it takes a free mutex, locks its own once more, finds another
-- holder and at most sets the flag for waiters, or is refused for a signal.
pub data Attempt (t : ℕ) (m : Mutex) (r : Outcome) (m' : Mutex) : Type 0 where
  took : m.holder ≡ none → r ≡ done (ok 0) → m'.holder ≡ some t → m'.count ≡ 1 → Attempt t m r m'
  nested :
      m.holder ≡ some t
      → r ≡ done (ok 0)
      → m'.holder ≡ some t
      → m'.count ≡ m.count + 1
      → Attempt t m r m'
  waits :
      (u : ℕ)
      → m.holder ≡ some u
      → u ≢ t
      → r ≢ done (ok 0)
      → m'.holder ≡ some u
      → m'.count ≡ m.count
      → m'.waiters ≡ true
      → Attempt t m r m'
  refused : r ≡ done (err eintr) → m' ≡ m → Attempt t m r m'

sleep_or_fail-ne : (m : Mutex) (r : Status × Sched) → (sleep_or_fail m r).0 ≢ done (ok 0)
unfolding sleep_or_fail
sleep_or_fail-ne m (ok n, s) h = cc
sleep_or_fail-ne m (err e, s) h = cc

sleep_or_fail-mutex : (m : Mutex) (r : Status × Sched) → (sleep_or_fail m r).1 ≡ m
unfolding sleep_or_fail
sleep_or_fail-mutex m (ok n, s) = refl
sleep_or_fail-mutex m (err e, s) = refl

is_holder-eq : (o : Option ℕ) (t : ℕ) → is_holder o t ≡ true → o ≡ some t
is_holder-eq none t h = cc
is_holder-eq (some u) t h = ground arith

-- How a mutex stands to a thread.
pub data Holding (m : Mutex) (t : ℕ) : Type 0 where
  mine : m.holder ≡ some t → is_holder m.holder t ≡ true → Holding m t
  nobody :
      m.holder ≡ none
      → is_holder m.holder t ≡ false
      → take_free t m ≡ some (record m { holder = some t; count = 1 })
      → Holding m t
  others :
      (u : ℕ)
      → m.holder ≡ some u
      → u ≢ t
      → is_holder m.holder t ≡ false
      → take_free t m ≡ none
      → Holding m t

pub Holding-total : (m : Mutex) (t : ℕ) → IsCounted m → Holding m t
unfolding take_free
Holding-total m t v = elim (Option-cases m.holder) [
  | inl e ↦ nobody e (ground arith) (ground (arith, v.free e))
  | inr (u, e) ↦ elim (Bool-cases (u == t)) [
    | inl same ↦ mine (ground arith) (ground arith)
    | inr differs ↦ others u e (ground arith) (ground arith) (ground arith)
  ]
]

slowpath-Attempt :
    (m : Mutex) (s : Sched)
    → Holding m s.active
    → let (r, m', s') = mutex_lock_slowpath m s in Attempt s.active m r m'
unfolding mutex_lock_slowpath
slowpath-Attempt m s (mine e h) = rw h (nested e refl e refl)
slowpath-Attempt m s (nobody e h f) = rw (h, f) (took e refl refl refl)
slowpath-Attempt m s (others u e ne h f) =
    let m' = record m { waiters = true } in
    let p = sch_prepare_sleep m.event 0 (sch_lock s) in
    let same = sleep_or_fail-mutex m' p in
    rw (h, f) (waits u e ne (sleep_or_fail-ne m' p) (rw same e) (rw same) (rw same))

restore_if_done-keeps :
    (b : Bool) (x : Outcome × Mutex × Sched)
    → ((restore_if_done b x).0 ≡ x.0) × ((restore_if_done b x).1 ≡ x.1)
unfolding restore_if_done
restore_if_done-keeps b (done r, m, s) = (refl, refl)
restore_if_done-keeps b (sleeps, m, s) = (refl, refl)

fast-Attempt :
    (m m' : Mutex) (t : ℕ) → IsCounted m → take_free t m ≡ some m' → Attempt t m (done (ok 0)) m'
unfolding take_free
fast-Attempt m m' t v e = took (ground arith) refl (ground arith) (ground arith)

-- Whether or not signals are blocked, a lock attempt on a counted mutex returns success only when
-- the mutex was free, which it takes with one lock counted, or the caller's own, which it counts
-- once more; another holder keeps it, with the flag for waiters set; a pending signal refuses the
-- attempt with EINTR and changes nothing.
pub mutex_lock_s-Attempt :
    (block_signals : Bool) (m : Mutex) (s : Sched)
    → IsCounted m
    → let (r, m', s') = mutex_lock_s block_signals m s in Attempt s.active m r m'
unfolding mutex_lock_s
mutex_lock_s-Attempt true m s v = elim (Option-cases (take_free s.active m)) [
  | inl busy ↦
      let keeps =
        restore_if_done-keeps (s.threads s.active).sig_unblocked
          (mutex_lock_slowpath m (sig_block_all s)) in
      rw (busy, keeps.0, keeps.1)
        (slowpath-Attempt m (sig_block_all s) (Holding-total m s.active v))
  | inr (m', free) ↦ rw free (fast-Attempt m m' s.active v free)
]
mutex_lock_s-Attempt false m s v = elim (Bool-cases (s.threads s.active).sig_unblocked) [
  | inl signal ↦ rw signal (refused refl refl)
  | inr clear ↦ rw clear (elim (Option-cases (take_free s.active m)) [
    | inl busy ↦ rw busy (slowpath-Attempt m s (Holding-total m s.active v))
    | inr (m', free) ↦ rw free (fast-Attempt m m' s.active v free)
  ])
]

-- Nobody but the holder unlocks a mutex: the call fails with EINVAL and changes nothing.
pub mutex_unlock-others :
    (m : Mutex) (s : Sched) → m.holder ≢ some s.active → mutex_unlock m s ≡ (err einval, m, s)
unfolding mutex_unlock
mutex_unlock-others m s ne = ground (arith, is_holder-eq m.holder s.active)
