-- ===== src/Sync/Futex/Moving.antt =====
-- futex_requeue wakes some sleepers and moves others to the queue of a second futex.
use apex.Base.{
  ℕ, zero, suc, ◌≡◌, ◌≢◌, refl, sym, ap, ◌∙◌, List, [], ◌∷◌, ◌++◌, append-nil, append_assoc, false,
  ◌==◌, arith, take, drop, Option, none, some,
}
use mathlib.Core.Path.{ap₂}
use apex.Sched.Defs.{Sched}
use apex.Sched.Sleep.{sch_requeue, requeue_of}
use apex.Sched.Sleep.{sch_lock, sch_unlock}
use apex.Sched.Valid.{IsLinked}
use apex.Sched.Block.{sch_unlock_rest}
use apex.Base.{min, length}
use apex.Base.Status.{ok}
use apex.Base.Int.{pos}
use apex.Sync.Futex.{
  Futex, futex_find_unlocked, futex_find, futex_get, futex_requeue, requeue_from, requeue_to,
  wake_loop, requeue_loop,
}
use apex.Sync.Futex.Waking.{IsSingle, IsLinked-IsSingle, Woke, wake_loop-Woke, Woke-start}

-- Moving `n` threads: they leave the front of the one queue for the end of the other, in order.
pub record Moved (l r n : ℕ) (s s' : Sched) : Type 0 where
  pub source : s'.sleepq l ≡ drop n (s.sleepq l)
  pub target : s'.sleepq r ≡ s.sleepq r ++ take n (s.sleepq l)
  pub elsewhere : (e : ℕ) → e ≢ l → e ≢ r → s'.sleepq e ≡ s.sleepq e
  pub same : s'.threads ≡ s.threads

Moved-none : (l r n : ℕ) (s : Sched) → s.sleepq l ≡ [] → Moved l r n s s
Moved-none l r zero s h = record {
  source = refl;
  target = sym (append-nil (s.sleepq r));
  elsewhere = λ e a b. refl;
  same = refl;
}
Moved-none l r (suc n) s h = record {
  source = rw h refl;
  target = rw h (sym (append-nil (s.sleepq r)));
  elsewhere = λ e a b. refl;
  same = refl;
}

Moved-step :
    (l r n t : ℕ) (q : List ℕ) (s s' : Sched)
    → l ≢ r
    → s.sleepq l ≡ t ∷ q
    → Moved l r n (requeue_of (t ∷ q) l r s).0 s'
    → Moved l r (suc n) s s'
unfolding requeue_of
Moved-step l r n t q s s' ne h m = record {
  source = m.source ∙ ap (drop n) source_at ∙ rw h refl;
  target =
      m.target
      ∙ ap₂ (λ x y. x ++ take n y) target_at source_at
      ∙ rw h (append_assoc (s.sleepq r) (t ∷ []) (take n q));
  elsewhere = λ e a b. m.elsewhere e a b ∙ ground arith;
  same = m.same;
}
  where
    at : ℕ → List ℕ
    at = (requeue_of (t ∷ q) l r s).0.sleepq

    source_at : at l ≡ q
    source_at = ground arith

    target_at : at r ≡ s.sleepq r ++ t ∷ []
    target_at = ground arith

module _ (l r n : ℕ) (s : Sched) where
  abbrev round : List ℕ → Sched
  round q =
      let (s', w) = requeue_of q l r s in elim w [ none ↦ s' | some t ↦ requeue_loop n l r s' ]

  requeue_loop-round : (q : List ℕ) → s.sleepq l ≡ q → requeue_loop (suc n) l r s ≡ round q
  unfolding requeue_loop sch_requeue
  requeue_loop-round q h = ap round h

  requeue_loop-step :
      (q : List ℕ)
      → l ≢ r
      → s.sleepq l ≡ q
      → ((s' : Sched) → Moved l r n s' (requeue_loop n l r s'))
      → Moved l r (suc n) s (requeue_loop (suc n) l r s)
  unfolding requeue_of
  requeue_loop-step [] ne h ih = rw (requeue_loop-round [] h) (Moved-none l r (suc n) s h)
  requeue_loop-step (t ∷ q) ne h ih =
      rw (requeue_loop-round (t ∷ q) h)
        (Moved-step l r n t q s _ ne h (ih (requeue_of (t ∷ q) l r s).0))

-- The loop moves the first `n` sleepers, or all of them if they are fewer.
requeue_loop-Moved : (l r n : ℕ) (s : Sched) → l ≢ r → Moved l r n s (requeue_loop n l r s)
unfolding requeue_loop sch_requeue requeue_of
requeue_loop-Moved l r zero s ne = record {
  source = refl;
  target = sym (append-nil (s.sleepq r));
  elsewhere = λ e a b. refl;
  same = refl;
}
requeue_loop-Moved l r (suc n) s ne =
    requeue_loop-step l r n s (s.sleepq l) ne refl (λ s'. requeue_loop-Moved l r n s' ne)

-- Both parts of a requeue, with the state between them.
pub record Requeued (l r val val2 : ℕ) (s s' : Sched) : Type 0 where
  pub between : Sched
  pub woke : Woke l val s.threads s.sleepq between.threads between.sleepq
  pub moved : Moved l r val2 between s'

module _ (malloc : Option ℕ) (fi : List Futex) (l r : Futex) (uaddr2 val : ℕ) (s : Sched)
    (there : futex_find_unlocked fi uaddr2 ≡ some r) (ne : l.event ≢ r.event)
    (i : IsSingle l.event s.sleepq) where
  abbrev Result : ℕ → Type 0
  Result val2 =
      let (o, fi', s') = requeue_from malloc fi val val2 uaddr2 (some l, s) in
      (o ≡ ok (min val (length (s.sleepq l.event))))
      × (fi' ≡ fi)
      × Requeued l.event r.event val val2 s s'

  requeue_from-Requeued : (val2 : ℕ) → Result val2
  unfolding requeue_from requeue_to futex_get sch_lock
  requeue_from-Requeued zero =
      let (k, woke) = wake_loop-Woke l.event val (sch_lock s) i in
      let s₁ = (wake_loop l.event val (sch_lock s)).1 in
      let (t, q, a) = sch_unlock_rest s₁ in
      (
        ap ok (omega (arith, k)),
        refl,
        record {
          between = sch_unlock s₁;
          woke = rw (t, q) woke;
          moved = requeue_loop-Moved l.event r.event 0 (sch_unlock s₁) ne;
        },
      )
  requeue_from-Requeued (suc n) =
      let (k, woke) = wake_loop-Woke l.event val (sch_lock s) i in
      let s₁ = (wake_loop l.event val (sch_lock s)).1 in
      let s₂ = sch_unlock (sch_lock (sch_unlock s₁)) in
      let (t, q, a) = sch_unlock_rest s₁ in
      let (t', q', a') = sch_unlock_rest (sch_lock (sch_unlock s₁)) in
      let more : (suc n == 0) ≡ false = ground arith in
      rw (more, futex_get, there)
        (
          ap ok (omega (arith, k)),
          refl,
          record {
            between = s₂;
            woke = rw (t' ∙ t, q' ∙ q) woke;
            moved = requeue_loop-Moved l.event r.event (suc n) s₂ ne;
          },
        )

-- If two addresses have futexes with events of their own, and each sleeping thread stands in one
-- queue only, futex_requeue returns min(val, sleepers), the number of the threads of highest
-- priority that it wakes; then it moves the first val2 of the others, or all if they are fewer,
-- to the end of the second queue, in order, and changes no other thread and no other queue.
pub futex_requeue-Requeued :
    (w : ℕ → ℕ) (malloc : Option ℕ) (fi : List Futex) (l r : Futex) (uaddr uaddr2 val val2 : ℕ)
    (s : Sched)
    → futex_find_unlocked fi uaddr ≡ some l
    → futex_find_unlocked fi uaddr2 ≡ some r
    → l.event ≢ r.event
    → IsLinked w s
    → let (o, fi', s') = futex_requeue malloc fi uaddr (pos val) (pos val2) uaddr2 s in
      (o ≡ ok (min val (length (s.sleepq l.event))))
      × (fi' ≡ fi)
      × Requeued l.event r.event val val2 s s'
unfolding futex_requeue futex_find sch_lock
futex_requeue-Requeued w malloc fi l r uaddr uaddr2 val val2 s here there ne v =
    let s₀ = sch_unlock (sch_lock s) in
    let (t, q, a) = sch_unlock_rest (sch_lock s) in
    let single = IsLinked-IsSingle w l.event s v in
    let (o, same, k) =
      requeue_from-Requeued malloc fi l r uaddr2 val s₀ there ne (rw q single) val2 in
    rw here (
      o ∙ ap (λ q'. ok (min val (length (q' l.event)))) q,
      same,
      record {
        between = k.between;
        woke = Woke-start l.event val _ _ _ _ _ _ t q k.woke;
        moved = k.moved;
      },
    )
