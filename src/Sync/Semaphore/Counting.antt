-- ===== src/Sync/Semaphore/Counting.antt =====
-- What the semaphore counts: posts less successful waits, within an `int`.
use apex.Base.{
  List, [], ◌∷◌, ◌++◌, Option, none, some, update, remove, true, ap, ◌∙◌, ℕ, ◌+◌, ◌≤◌, ◌<◌, ◌≡◌,
  ◌⊎◌, refl, false, ltb, ◌==◌, arith, Bool-cases, inl, inr,
}
use apex.Base.Status.{ok, err, eoverflow, eintr}
use apex.Sched.Defs.{Thread, Sched, unlink}
use apex.Sched.Sleep.{sch_prepare_sleep, sch_lock, sch_cancel_sleep, sch_unsleep}
use apex.Sched.Block.{sch_unlock_rest}
use apex.Sync.Futex.Waiting.{Slept, Slept-continue}
use apex.Sync.Wait.{Outcome, done, sleeps, wait_event_interruptible, second_test}
use apex.Sync.Semaphore.{
  Semaphore, int_max, semaphore_post, semaphore_post_once, semaphore_wait_interruptible,
}

-- A post adds one, unless the count stands at the largest `int`: then it fails and changes nothing.
pub semaphore_post_lem :
    (p : Semaphore) (s : Sched)
    → p.count ≤ int_max
    → let (r, p', s') = semaphore_post p s in
      (p'.count ≤ int_max)
      × ((r ≡ ok 0) × (p'.count ≡ p.count + 1)
          ⊎ (r ≡ err eoverflow) × (p.count ≡ int_max) × (p' ≡ p) × (s' ≡ s))
unfolding semaphore_post
semaphore_post_lem p s h = elim (Bool-cases (p.count == int_max)) [
  | inl full ↦ rw full (h, inr (refl, ground arith, refl, refl))
  | inr room ↦ rw room (ground arith, inl (refl, refl))
]

-- Used with `semaphore_post_once` alone a semaphore is binary.
pub semaphore_post_once-binary :
    (p : Semaphore) (s : Sched)
    → p.count ≤ 1
    → let (r, p', s') = semaphore_post_once p s in (r ≡ ok 0) × (p'.count ≡ 1)
unfolding semaphore_post_once
semaphore_post_once-binary p s h = ground arith

-- Once the active thread has cancelled its sleep it is awake and in no queue.
cancel_rest :
    (s : Sched)
    → (s.threads s.active).sleep ≡ true
    → (((sch_cancel_sleep s).threads s.active).sleep ≡ false)
      × ((e : ℕ) → (sch_cancel_sleep s).sleepq e ≡ remove s.active (s.sleepq e))
unfolding sch_cancel_sleep sch_unsleep unlink
cancel_rest s asleep =
    let (t, q, a) = sch_unlock_rest (sch_unsleep s.active (ok 0) s) in
    let here : (s.active == s.active) ≡ true = ground arith in
    (
      ap (λ (f : ℕ → Thread). (f s.active).sleep) t ∙ rw (asleep, here) (ground arith),
      λ e. ap (λ f. f e) q ∙ rw (asleep, here) refl,
    )

-- The sleep queues with the active thread at the end of that of an event.
abbrev pub queued : ℕ → Sched → ℕ → List ℕ
queued e s = update s.sleepq e (s.sleepq e ++ s.active ∷ [])

-- What one attempt may end in. The thread takes one if a test found the count positive; without
-- that it sleeps on the event, or fails for a signal. If others have taken all that the test
-- found, the assertion fails.
pub data Attempt (p p' q : Semaphore) (s : Sched)
    : Option (Outcome × Semaphore × Sched) → Type 0 where
  at_once :
      (q' : Semaphore)
      → 0 < p.count
      → q'.count + 1 ≡ q.count
      → Attempt p p' q s (some (done (ok 0), q', s))
  cancelled :
      (q' : Semaphore) (s' : Sched)
      → p.count ≡ 0
      → 0 < p'.count
      → q'.count + 1 ≡ q.count
      → (s'.threads s.active).sleep ≡ false
      → ((e : ℕ) → s'.sleepq e ≡ remove s.active (queued p.event s e))
      → Attempt p p' q s (some (done (ok 0), q', s'))
  overrun : (0 < p.count) ⊎ (0 < p'.count) → q.count ≡ 0 → Attempt p p' q s none
  asleep :
      (s' : Sched)
      → p.count ≡ 0
      → p'.count ≡ 0
      → Slept p.event 0 s s'
      → Attempt p p' q s (some (sleeps, q, s'))
  interrupted :
      p.count ≡ 0
      → (s.threads s.active).sig_unblocked ≡ true
      → Attempt p p' q s (some (done (err eintr), q, s))

-- An attempt of a wait returns 0 only if it takes one, at once if the first test finds the count
-- positive, or with its sleep cancelled if the second test does, made once the sleep is prepared;
-- it sleeps on the event only if both tests found 0, and fails with EINTR only if the first did and
-- a signal is pending, and then it takes nothing. If others have taken what the test found, the
-- assertion that the count is not negative fails.
pub semaphore_wait-Attempt :
    (p p' q : Semaphore) (s : Sched) → Attempt p p' q s (semaphore_wait_interruptible p p' q s)
unfolding semaphore_wait_interruptible wait_event_interruptible second_test sch_prepare_sleep
    sch_lock
semaphore_wait-Attempt p p' q s = elim (Bool-cases (ltb 0 p.count)) [
  | inl ready ↦ rw ready (elim (Bool-cases (q.count == 0)) [
    | inl gone ↦ rw gone (overrun (inl (ground arith)) (ground arith))
    | inr there ↦ rw there (at_once _ (ground arith) (ground arith))
  ])
  | inr shut ↦ rw shut (elim (Bool-cases (s.threads s.active).sig_unblocked) [
    | inl pending ↦ rw pending (interrupted (ground arith) pending)
    | inr calm ↦ rw calm (elim (Bool-cases (ltb 0 p'.count)) [
      | inl more ↦ rw more (elim (Bool-cases (q.count == 0)) [
        | inl gone ↦ rw gone (overrun (inr (ground arith)) (ground arith))
        | inr there ↦ rw there (
            let (awake, out) = cancel_rest _ (ground arith) in
            cancelled _ _ (ground arith) (ground arith) (ground arith) awake out)
      ])
      | inr no_more ↦ rw no_more (
          asleep _ (ground arith) (ground arith) (
            Slept-continue p.event 0 s _ (record {
              queued = refl;
              asleep = ground arith;
              waits_on = ground arith;
              timed = ground arith;
            })))
    ])
  ])
]
