-- ===== src/Sync/Cond/Signals.antt =====
-- A wait on a condition releases its mutex, and a signal that comes after is not lost.
use apex.Base.{
  ℕ, ◌≡◌, refl, ap, ◌∙◌, List, [], ◌∷◌, ◌++◌, true, false, none, some, update, remove, arith, ◌==◌,
}
use apex.Base.Status.{ok}
use apex.Sched.Defs.{Sched}
use apex.Sched.Sleep.{sch_lock, sch_prepare_sleep, sch_continue_sleep, highest, woken, sch_wakeone}
use apex.Sched.Wake.Wakeone.{sch_wakeone_lem, first_top}
use apex.Sync.Wait.{sleeps}
use apex.Sync.Mutex.{Mutex, mutex_unlock}
use apex.Sync.Futex.Waiting.{Slept, sch_continue_sleep_rest}
use apex.Sync.Cond.{Cond, cond_timedwait_interruptible, release_and_sleep, cond_signal}

-- When the mutex is released, the thread stands in the queue of the condition already, with the
-- timer armed for the time given: what comes after, from `interrupts` on, finds it there.
pub cond_wait-Slept :
    (interrupts : Sched → Sched) (c : Cond) (m : Mutex) (nsec : ℕ) (s : Sched)
    → m.holder ≡ some s.active
    → m.waiters ≡ false
    → m.recursive ≡ false
    → (s.threads s.active).sig_unblocked ≡ false
    → let (o, m', s') = cond_timedwait_interruptible interrupts c m nsec s in
      (o ≡ sleeps)
      × (m'.holder ≡ none)
      × ((s₁ : Sched) × Slept c.event nsec s s₁ × (s' ≡ sch_continue_sleep (interrupts s₁)))
unfolding cond_timedwait_interruptible release_and_sleep sch_prepare_sleep mutex_unlock sch_lock
cond_wait-Slept interrupts c m nsec s held alone once calm =
    let same : (s.active == s.active) ≡ true = ground arith in
    rw (calm, held, alone, once, same)
      (
        refl,
        refl,
        (
          _,
          record {
            queued = refl;
            asleep = ground arith;
            waits_on = ground arith;
            timed = ground arith;
          },
          refl,
        ),
      )

-- A thread that sleeps alone on an event is the one that is woken.
sch_wakeone-only :
    (e t : ℕ) (s : Sched)
    → s.sleepq e ≡ t ∷ []
    → let s' = (sch_wakeone e s).0 in
      (s'.threads ≡ update s.threads t (woken (ok 0) (s.threads t))) × (s'.sleepq e ≡ [])
unfolding highest remove
sch_wakeone-only e t s there =
    let (picked, changed, queues) = sch_wakeone_lem e t [] s there in
    let only : first_top s t [] ≡ t = ground arith in
    (
      changed ∙ ap (λ a. update s.threads a (woken (ok 0) (s.threads a))) only,
      ap (λ q. q e) queues ∙ rw (there, only) (ground arith),
    )

alone_queue :
    (e t : ℕ) (q : ℕ → List ℕ) (s : Sched)
    → s.sleepq e ≡ []
    → q ≡ update s.sleepq e (s.sleepq e ++ t ∷ [])
    → q e ≡ t ∷ []
alone_queue e t q s nobody h = ap (λ f. f e) h ∙ rw nobody (ground arith)

-- What a signal to one sleeping thread leaves: that thread is awake with 0, no other has changed,
-- and nobody sleeps on the condition.
abbrev pub Woke : ℕ → ℕ → Sched → Sched → Type 0
Woke e t s s' = (s'.threads ≡ update s.threads t (woken (ok 0) (s.threads t))) × (s'.sleepq e ≡ [])

-- A thread that holds a mutex, locked once and with no waiters, and that has no unblocked signal,
-- waits on a condition on which nobody waits. Once the mutex is released no signal is lost,
-- whatever happens before it that keeps the queue of the condition: the mutex is free, and whether
-- the signal comes before the thread calls sch_continue_sleep or after, it wakes that thread with
-- 0, and no other, and leaves nobody in the queue.
pub cond_wait-signal :
    (before : Sched → Sched) (c : Cond) (m : Mutex) (nsec : ℕ) (s : Sched)
    → m.holder ≡ some s.active
    → m.waiters ≡ false
    → m.recursive ≡ false
    → (s.threads s.active).sig_unblocked ≡ false
    → s.sleepq c.event ≡ []
    → ((s₁ : Sched) → (before s₁).sleepq c.event ≡ s₁.sleepq c.event)
    → let signalled = λ (s₁ : Sched). (cond_signal c (before s₁)).1 in
      let (o, m', s') = cond_timedwait_interruptible signalled c m nsec s in
      let (o₂, m₂, s₂) = cond_timedwait_interruptible (λ s₁. s₁) c m nsec s in
      (m'.holder ≡ none)
      × ((s₁ : Sched) × Slept c.event nsec s s₁ × Woke c.event s.active (before s₁) s')
      × Woke c.event s.active (before s₂) (signalled s₂)
unfolding cond_signal
cond_wait-signal before c m nsec s held alone once calm nobody quiet =
    let signalled = λ (s₁ : Sched). (cond_signal c (before s₁)).1 in
    let (o, free, before_signal) = cond_wait-Slept signalled c m nsec s held alone once calm in
    let (s₁, k, e) = before_signal in
    let (o₂, free₂, no_signal) = cond_wait-Slept (λ s₁. s₁) c m nsec s held alone once calm in
    let (s₃, k₂, e₂) = no_signal in
    let s₂ = (cond_timedwait_interruptible (λ s₁. s₁) c m nsec s).2 in
    let (t, q) = sch_continue_sleep_rest (signalled s₁) in
    let (t₃, q₃) = sch_continue_sleep_rest s₃ in
    let first =
      sch_wakeone-only c.event s.active (before s₁)
        (quiet s₁ ∙ alone_queue c.event s.active s₁.sleepq s nobody k.queued) in
    let second = sch_wakeone-only c.event s.active (before s₂) (
      quiet s₂
      ∙ alone_queue c.event s.active s₂.sleepq s nobody
          (ap (λ (x : Sched). x.sleepq) e₂ ∙ q₃ ∙ k₂.queued)) in
    (
      free,
      (
        s₁,
        k,
        (
          ap (λ (x : Sched). x.threads) e ∙ t ∙ first.0,
          ap (λ (x : Sched). x.sleepq c.event) e ∙ ap (λ f. f c.event) q ∙ first.1,
        ),
      ),
      second,
    )
