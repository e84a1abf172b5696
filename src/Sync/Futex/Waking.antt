-- ===== src/Sync/Futex/Waking.antt =====
-- futex_wake wakes as many sleepers as it is told to, those of highest priority first.
use apex.Base.{
  ℕ, zero, suc, ◌-◌, ◌≤◌, ◌<◌, ◌≡◌, ◌≢◌, refl, ap, sym, ◌∙◌, min, List, [], ◌∷◌, ltb, ◌==◌,
  if◌then◌else◌, arith, ==_iff, length, count, count-remove, remove, length-remove, Bool-cases, inl,
  inr, Option, none, some, update, not, ◌&&◌,
}
use apex.Base.Int.{pos}
use apex.Base.Status.{ok}
use apex.Sched.Defs.{Thread, Sched}
use apex.Sched.Sleep.{woken, sch_wakeone, sch_lock, sch_unlock}
use apex.Sched.Valid.{IsLinked, IsValid}
use apex.Sched.Wake.Wakeup.{AreAble, WakesAll, sch_wakeup-WakesAll}
use apex.Sched.Wake.Wakeone.{first_top, first_top-IsTop, sch_wakeone_lem, sch_wakeone_nobody}
use apex.Sched.Block.{sch_lock-IsValid, sch_unlock-IsValid, sch_unlock_rest}
use apex.Sync.Semaphore.{int_max}
use apex.Sync.Futex.{
  Futex, futex_find_unlocked, futex_find, futex_wake, wake_at, wake_some, wake_loop, one_if_some,
}

-- Each thread that sleeps on the event stands there once and in no other sleep queue.
pub record IsSingle (e : ℕ) (sleepq : ℕ → List ℕ) : Type 0 where
  pub once : (a : ℕ) → count a (sleepq e) ≤ 1
  pub alone : (a e' : ℕ) → e' ≢ e → 0 < count a (sleepq e) → count a (sleepq e') ≡ 0

pub IsLinked-IsSingle : (w : ℕ → ℕ) (e : ℕ) (s : Sched) → IsLinked w s → IsSingle e s.sleepq
IsLinked-IsSingle w e s v = record {
  once = λ a. ground (arith, v.asleep a e);
  alone = λ a e' ne h. ground (arith, v.asleep a e, v.asleep a e');
}

-- What waking up to `n` sleepers on event `e` does to the threads and to the sleep queues.
pub record Woke (e n : ℕ) (th : ℕ → Thread) (q : ℕ → List ℕ) (th' : ℕ → Thread) (q' : ℕ → List ℕ)
    : Type 0 where
  pub left : length (q' e) ≡ length (q e) - n
  pub fewer : (a : ℕ) → count a (q' e) ≤ count a (q e)
  pub elsewhere : (a e' : ℕ) → e' ≢ e → count a (q' e') ≡ count a (q e')
  pub changed :
      (a : ℕ) → th' a ≡ (if ltb (count a (q' e)) (count a (q e)) then woken (ok 0) (th a) else th a)
  pub by_priority :
      (a b : ℕ) → count a (q' e) < count a (q e) → 0 < count b (q' e) → (th a).prio ≤ (th b).prio

Woke-nobody :
    (e n : ℕ) (th : ℕ → Thread) (q : ℕ → List ℕ)
    → length (q e) ≡ length (q e) - n
    → Woke e n th q th q
Woke-nobody e n th q h = record {
  left = h;
  fewer = λ a. omega arith;
  elsewhere = λ a e' ne. refl;
  changed = λ a. ground arith;
  by_priority = λ a b h. absurd (omega arith);
}

-- One thread of highest priority is woken, then `n` more.
module _ (e t n : ℕ) (th : ℕ → Thread) (q : ℕ → List ℕ) where
  abbrev after_threads : ℕ → Thread
  after_threads = update th t (woken (ok 0) (th t))

  abbrev after_queues : ℕ → List ℕ
  after_queues e' = remove t (q e')

  IsSingle-remove : IsSingle e q → IsSingle e after_queues
  IsSingle-remove i = record {
    once = λ a. ground (arith, count-remove a t (q e), i.once a);
    alone = λ a e' ne h.
        ground (arith, count-remove a t (q e), count-remove a t (q e'), i.alone a e' ne);
  }

  Woke-step :
      (th' : ℕ → Thread) (q' : ℕ → List ℕ)
      → IsSingle e q
      → 0 < count t (q e)
      → ((a : ℕ) → 0 < count a (q e) → (th t).prio ≤ (th a).prio)
      → Woke e n after_threads after_queues th' q'
      → Woke e (suc n) th q th' q'
  Woke-step th' q' i m best r = record {
    left = omega (arith, r.left, length-remove t (q e), i.once t);
    fewer = λ a. ground (arith, r.fewer a, count-remove a t (q e));
    elsewhere =
        λ a e' ne. ground (arith, r.elsewhere a e' ne, count-remove a t (q e'), i.alone t e' ne m);
    changed = λ a. r.changed a ∙ ground (arith, r.fewer a, count-remove a t (q e), i.once t);
    by_priority = λ a b h k. ground (
      arith,
      r.by_priority a b,
      r.fewer b,
      r.fewer t,
      count-remove a t (q e),
      count-remove b t (q e),
      best b,
    );
  }

-- What the loop of wake-ups is to do.
abbrev pub Wakes : ℕ → ℕ → Sched → ℕ × Sched → Type 0
Wakes e n s (k, s') =
    (k ≡ n - length (s.sleepq e)) × Woke e n s.threads s.sleepq s'.threads s'.sleepq

wake_loop-none :
    (e n : ℕ) (s : Sched) → sch_wakeone e s ≡ (s, none) → wake_loop e (suc n) s ≡ (suc n, s)
unfolding wake_loop
wake_loop-none e n s h =
    ap (λ r. let (s', w) = r in elim w [ none ↦ (suc n, s') | some t ↦ wake_loop e n s' ]) h

wake_loop-some :
    (e t n : ℕ) (s : Sched)
    → (sch_wakeone e s).1 ≡ some t
    → wake_loop e (suc n) s ≡ wake_loop e n (sch_wakeone e s).0
unfolding wake_loop
wake_loop-some e t n s h =
    ap
      (λ w. elim w [
        | none ↦ (suc n, (sch_wakeone e s).0)
        | some t ↦ wake_loop e n (sch_wakeone e s).0
      ])
      h

wake_loop-step :
    (e n : ℕ) (s : Sched) (q : List ℕ)
    → s.sleepq e ≡ q
    → IsSingle e s.sleepq
    → ((s' : Sched) → IsSingle e s'.sleepq → Wakes e n s' (wake_loop e n s'))
    → Wakes e (suc n) s (wake_loop e (suc n) s)
wake_loop-step e n s [] h i ih =
    rw (wake_loop-none e n s (sch_wakeone_nobody e s h))
      (rw h (omega arith), Woke-nobody e (suc n) s.threads s.sleepq (rw h (omega arith)))
wake_loop-step e n s (x ∷ q) h i ih =
    let t = first_top s x q in
    let top = first_top-IsTop s e x q h in
    let (picked, changed, queues) = sch_wakeone_lem e x q s h in
    let single = IsSingle-remove e t 0 s.threads s.sleepq i in
    let (left, woke) = ih (sch_wakeone e s).0 (rw queues single) in
    rw (wake_loop-some e t n s picked) (
      left ∙ rw queues (omega (arith, length-remove t (s.sleepq e), i.once t, top.listed)),
      Woke-step e t n s.threads s.sleepq _ _ i top.listed top.best (rw (changed, queues) at woke),
    )

pub wake_loop-Woke : (e n : ℕ) (s : Sched) → IsSingle e s.sleepq → Wakes e n s (wake_loop e n s)
unfolding wake_loop
wake_loop-Woke e zero s i = (omega arith, Woke-nobody e 0 s.threads s.sleepq (omega arith))
wake_loop-Woke e (suc n) s i = wake_loop-step e n s (s.sleepq e) refl i (wake_loop-Woke e n)

-- `sch_wakeup` does it when there are no more sleepers than `n`.
WakesAll-Woke :
    (w : ℕ → ℕ) (e n : ℕ) (s : Sched) (r : Sched × ℕ)
    → IsLinked w s
    → length (s.sleepq e) ≤ n
    → WakesAll w e (ok 0) s r
    → Woke e n s.threads s.sleepq r.0.threads r.0.sleepq
unfolding count
WakesAll-Woke w e n s r v few k = record {
  left = rw k.emptied (omega arith);
  fewer = λ a. rw k.emptied (omega arith);
  elsewhere = λ a e' ne.
      let awake : (r.0.threads a).sleep
          ≡ (not (ltb 0 (count a (s.sleepq e))) && (s.threads a).sleep) =
        rw (k.changed a) (ground arith) in
      ground (arith, k.valid.linked.asleep a e', v.asleep a e', v.asleep a e);
  changed = λ a. rw k.emptied (k.changed a);
  by_priority = λ a b h m. absurd (let m' = rw k.emptied at m in omega arith);
}

-- One wake-up is the loop with one round.
wake_loop-one :
    (e : ℕ) (s : Sched)
    → let (k, s') = wake_loop e 1 s in
      (one_if_some (sch_wakeone e s).1 ≡ 1 - k) × ((sch_wakeone e s).0 ≡ s')
unfolding wake_loop
wake_loop-one e s = from (sch_wakeone e s)
  where
    from :
        (r : Sched × Option ℕ)
        → let (k, s') : ℕ × Sched = elim r.1 [ none ↦ (1, r.0) | some t ↦ (0, r.0) ] in
          (one_if_some r.1 ≡ 1 - k) × (r.0 ≡ s')
    from (s', none) = (refl, refl)
    from (s', some t) = (refl, refl)

wake_some-Woke :
    (w : ℕ → ℕ) (e n : ℕ) (s : Sched)
    → length (s.sleepq e) ≤ int_max
    → AreAble s (s.sleepq e)
    → IsValid w s
    → let (k, s') = wake_some e n s in
      (k ≡ min n (length (s.sleepq e))) × Woke e n s.threads s.sleepq s'.threads s'.sleepq
unfolding wake_some
wake_some-Woke w e n s few able v = elim (Bool-cases (n == 1)) [
  | inl one ↦ rw one (
      let (k, r) = wake_loop-Woke e 1 s (IsLinked-IsSingle w e s v.linked) in
      let (k', s') = wake_loop-one e s in (k' ∙ ground arith, rw s' (rw ((==_iff n 1).0 one) r)))
  | inr several ↦ rw several (elim (Bool-cases (n == int_max)) [
    | inl all ↦ rw all (
        let k = sch_wakeup-WakesAll w e (ok 0) s able v in
        (k.counted ∙ ground arith, WakesAll-Woke w e n s _ v.linked (ground arith) k))
    | inr limited ↦
        rw limited
          (let (k, r) = wake_loop-Woke e n s (IsLinked-IsSingle w e s v.linked) in (omega arith, r))
  ])
]

wake_at-Woke :
    (w : ℕ → ℕ) (f : Futex) (n : ℕ) (s : Sched)
    → length (s.sleepq f.event) ≤ int_max
    → AreAble s (s.sleepq f.event)
    → IsValid w s
    → let (r, s') = wake_at n (some f, s) in
      (r ≡ ok (min n (length (s.sleepq f.event))))
      × Woke f.event n s.threads s.sleepq s'.threads s'.sleepq
unfolding wake_at sch_lock
wake_at-Woke w f n s few able v =
    let (k, r) = wake_some-Woke w f.event n (sch_lock s) few able (sch_lock-IsValid w s v) in
    let (t, q, a) = sch_unlock_rest (wake_some f.event n (sch_lock s)).1 in (ap ok k, rw (t, q) r)

pub Woke-start :
    (e n : ℕ) (th₀ th th' : ℕ → Thread) (q₀ q q' : ℕ → List ℕ)
    → th₀ ≡ th
    → q₀ ≡ q
    → Woke e n th₀ q₀ th' q'
    → Woke e n th q th' q'
Woke-start e n th₀ th th' q₀ q q' t k r = rw (sym t, sym k) r

-- If the address has a futex, the scheduler is valid, and the threads that sleep on the futex,
-- 2^31 - 1 at most, are neither suspended nor dead, futex_wake wakes min(val, sleepers) of them
-- and returns that number. The woken threads get 0 and have priorities at least as high as those
-- of the threads that go on sleeping there; no other thread and no other sleep queue changes.
pub futex_wake-Woke :
    (w : ℕ → ℕ) (fi : List Futex) (f : Futex) (uaddr val : ℕ) (s : Sched)
    → futex_find_unlocked fi uaddr ≡ some f
    → length (s.sleepq f.event) ≤ int_max
    → AreAble s (s.sleepq f.event)
    → IsValid w s
    → let (r, s') = futex_wake fi uaddr (pos val) s in
      (r ≡ ok (min val (length (s.sleepq f.event))))
      × Woke f.event val s.threads s.sleepq s'.threads s'.sleepq
unfolding futex_wake futex_find sch_lock
futex_wake-Woke w fi f uaddr zero s found few able v =
    (ap ok (omega arith), Woke-nobody f.event 0 s.threads s.sleepq (omega arith))
futex_wake-Woke w fi f uaddr (suc n) s found few able v =
    let s' = sch_unlock (sch_lock s) in
    let (t, q, a) = sch_unlock_rest (sch_lock s) in
    let valid = sch_unlock-IsValid w (sch_lock s) (sch_lock-IsValid w s v) in
    let (k, r) = wake_at-Woke w f (suc n) s' (rw q few) (rw (t, q) able) valid in
    rw found (
      k ∙ ap (λ q'. ok (min (suc n) (length (q' f.event)))) q,
      Woke-start f.event (suc n) _ _ _ _ _ _ t q r,
    )
