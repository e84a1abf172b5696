-- ===== src/Sync/Rwlock/Exclusion.antt =====
-- Readers share, writers exclude: the lock against the set of its users.
use apex.Base.{
  ℕ, zero, suc, ◌≡◌, ◌≢◌, refl, Bool, true, false, not, ◌&&◌, ◌==◌, if◌then◌else◌, arith,
  Bool-cases, inl, inr,
}
use apex.Base.Int.{ℤ, pos, negsuc, increment, decrement, is_zero, is_negative}
use apex.Base.Status.{Status, ok, err}
use apex.Sched.Defs.{Sched}
use apex.Sched.Sleep.{sch_lock}
use apex.Sync.Wait.{
  Outcome, done, sleeps, wait_event_lock, wait_event_interruptible_lock, lock_round, restored,
}
use apex.Sync.Rwlock.{
  Rwlock, rwlock_read_lock_s, rwlock_write_lock_s, rwlock_read_unlock, rwlock_write_unlock, lock_by,
  acquired,
}

-- Who uses a lock: so many readers, or one writer.
pub data Users : Type 0 where
  readers : ℕ → Users
  writer : Users

abbrev pub Stands : ℤ → Users → Type 0
Stands z (readers n) = z ≡ pos n
Stands z writer = z ≡ negsuc 0

abbrev pub may_read : Users → Bool
may_read (readers n) = true
may_read writer = false

abbrev pub is_unused : Users → Bool
is_unused (readers n) = n == 0
is_unused writer = false

abbrev pub with_reader : Users → Users
with_reader (readers n) = readers (suc n)
with_reader writer = writer

-- An attempt either succeeds where it may and counts the new user, or changes nothing.
pub data Attempt (allowed : Bool) (u u' : Users) (p p' : Rwlock) (r : Outcome) : Type 0 where
  got : r ≡ done (ok 0) → allowed ≡ true → Stands p'.state u' → Attempt allowed u u' p p' r
  kept : r ≢ done (ok 0) → p' ≡ p → Attempt allowed u u' p p' r

round-open : (e : ℕ) (s : Sched) → (wait_event_interruptible_lock e true s).0 ≡ done (ok 0)
unfolding wait_event_interruptible_lock
round-open e s = refl

round-shut : (n : ℕ) (r : Status × Sched) (s : Sched) → (lock_round false r s).0 ≢ done (ok n)
unfolding lock_round
round-shut n (ok k, s') s h = cc
round-shut n (err e, s') s h = cc

restored-keeps : (b : Bool) (x : Outcome × Sched) → (restored b x).0 ≡ x.0
unfolding restored
restored-keeps b (done r, s) = refl
restored-keeps b (sleeps, s) = refl

-- The wait of a lock call, with signals blocked or not.
abbrev waited : Bool → ℕ → Bool → Sched → Outcome × Sched
waited block_signals e condition s =
    if block_signals
    then wait_event_lock e condition s
    else wait_event_interruptible_lock e condition s

waited-open : (b : Bool) (e : ℕ) (s : Sched) → (waited b e true s).0 ≡ done (ok 0)
unfolding wait_event_lock wait_event_interruptible_lock
waited-open true e s = refl
waited-open false e s = refl

waited-shut : (n : ℕ) (b : Bool) (e : ℕ) (s : Sched) → (waited b e false s).0 ≢ done (ok n)
unfolding wait_event_lock wait_event_interruptible_lock
waited-shut n true e s h = round-shut n _ _ (rw (restored-keeps _ _) at h)
waited-shut n false e s h = round-shut n _ _ h

acquired-done :
    (f : ℤ → ℤ) (p : Rwlock) (x : Outcome × Sched)
    → x.0 ≡ done (ok 0)
    → ((acquired f p x).0 ≡ done (ok 0)) × ((acquired f p x).1.state ≡ f p.state)
unfolding acquired
acquired-done f p (done (ok n), s) h = (h, refl)
acquired-done f p (done (err e), s) h = absurd (cc)
acquired-done f p (sleeps, s) h = absurd (cc)

acquired-not :
    (f : ℤ → ℤ) (p : Rwlock) (x : Outcome × Sched)
    → ((n : ℕ) → x.0 ≢ done (ok n))
    → ((acquired f p x).0 ≢ done (ok 0)) × ((acquired f p x).1 ≡ p)
unfolding acquired
acquired-not f p (done (ok n), s) k = absurd (k n refl)
acquired-not f p (done (err e), s) k = (k 0, refl)
acquired-not f p (sleeps, s) k = (k 0, refl)

lock_by-Attempt :
    (condition : Bool) (f : ℤ → ℤ) (b : Bool) (u u' : Users) (p : Rwlock) (s : Sched)
    → (condition ≡ true → Stands (f p.state) u')
    → let (r, p', s') = lock_by condition f b p s in Attempt condition u u' p p' r
unfolding lock_by
lock_by-Attempt condition f b u u' p s g =
    elim (Bool-cases (not b && (s.threads s.active).sig_unblocked)) [
      | inl signal ↦ rw signal (kept (λ h. cc) refl)
      | inr clear ↦ rw clear (attempt condition g)
    ]
  where
    attempt :
        (c : Bool)
        → (c ≡ true → Stands (f p.state) u')
        → let (r, p', s') = acquired f p (waited b p.event c (sch_lock s)) in Attempt c u u' p p' r
    attempt true g =
        let a =
          acquired-done f p (waited b p.event true (sch_lock s))
            (waited-open b p.event (sch_lock s)) in
        got a.0 refl (rw a.1 (g refl))
    attempt false g =
        let a =
          acquired-not f p (waited b p.event false (sch_lock s))
            (λ n. waited-shut n b p.event (sch_lock s)) in
        kept a.0 a.1

Stands-read : (z : ℤ) (u : Users) → Stands z u → not (is_negative z) ≡ may_read u
Stands-read z (readers n) h = rw h
Stands-read z writer h = rw h

Stands-unused : (z : ℤ) (u : Users) → Stands z u → is_zero z ≡ is_unused u
Stands-unused z (readers zero) h = rw h
Stands-unused z (readers (suc n)) h = rw h (ground arith)
Stands-unused z writer h = rw h

-- A read lock succeeds only where no writer holds the lock, and counts one more reader; else it
-- changes nothing.
pub rwlock_read_lock_s-Attempt :
    (b : Bool) (u : Users) (p : Rwlock) (s : Sched)
    → Stands p.state u
    → let (r, p', s') = rwlock_read_lock_s b p s in Attempt (may_read u) u (with_reader u) p p' r
unfolding rwlock_read_lock_s
rwlock_read_lock_s-Attempt b u p s h =
    rw (← Stands-read p.state u h)
      (lock_by-Attempt (not (is_negative p.state)) increment b u (with_reader u) p s (read u h))
  where
    read :
        (u : Users)
        → Stands p.state u
        → not (is_negative p.state) ≡ true
        → Stands (increment p.state) (with_reader u)
    read (readers n) e o = rw e
    read writer e o = absurd (cc (rw e at o))

-- A write lock succeeds only where nobody holds the lock, and leaves its caller the only user;
-- else it changes nothing.
pub rwlock_write_lock_s-Attempt :
    (b : Bool) (u : Users) (p : Rwlock) (s : Sched)
    → Stands p.state u
    → let (r, p', s') = rwlock_write_lock_s b p s in Attempt (is_unused u) u writer p p' r
unfolding rwlock_write_lock_s
rwlock_write_lock_s-Attempt b u p s h =
    rw (← Stands-unused p.state u h)
      (lock_by-Attempt (is_zero p.state) decrement b u writer p s (write u h))
  where
    write :
        (u : Users) → Stands p.state u → is_zero p.state ≡ true → Stands (decrement p.state) writer
    write (readers zero) e o = rw e
    write (readers (suc n)) e o = absurd (cc (rw e at o))
    write writer e o = absurd (cc (rw e at o))

-- Unlocking a lock with `n + 1` readers leaves `n`, and unlocking a writer's leaves none.
pub unlock-Stands :
    (n : ℕ) (p : Rwlock) (s : Sched)
    → (Stands p.state (readers (suc n)) → Stands (rwlock_read_unlock p s).0.state (readers n))
      × (Stands p.state writer → Stands (rwlock_write_unlock p s).0.state (readers 0))
unfolding rwlock_read_unlock rwlock_write_unlock
unlock-Stands n p s = (λ h. rw h, λ h. rw h)
