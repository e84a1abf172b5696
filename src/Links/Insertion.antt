-- ===== src/Links/Insertion.antt =====
-- runq_enqueue and runq_insert on the links of all queues of the scheduler.
use apex.Base.{
  ℕ, zero, suc, ◌+◌, ◌<◌, ◌≡◌, ◌≢◌, refl, sym, ap, subst, ◌∙◌, Bool, some, List, ◌∷◌, ◌==◌, ltb,
  leb, if◌then◌else◌, arith, Bool-cases, inl, inr, ==_iff, count, length,
}
use apex.Sched.Defs.{Sched, prio_of, insert_last, insert_first, runq_enqueue, runq_insert}
use apex.Links.{Links, link_before, enqueue_link, insert_link}
use apex.Links.Segments.{frame, Between}
use apex.Links.Queues.{IsQueue}
use apex.Links.Scheduler.{queue_of, Represents}
use apex.Links.Walk.{
  insert_where, insert_last_lem, insert_first_lem, count-insert_where, Linked, link_before-Linked,
}

Between-frame :
    (head : ℕ) (xs : List ℕ) (p q t : ℕ) (h g : Links)
    → IsQueue head xs h
    → count p (head ∷ xs) ≡ 0
    → count q (head ∷ xs) ≡ 0
    → count t (head ∷ xs) ≡ 0
    → Between p q t h g
    → IsQueue head xs g
Between-frame head xs p q t h g v out_p out_q out_t w = record {
  seg =
      frame v.seg
        (λ x l.
          w.other_next x (λ e. ground (arith, l, out_p, e)) (λ e. ground (arith, l, out_t, e)))
        (λ x l.
          w.other_prev x (λ e. ground (arith, l, out_q, e)) (λ e. ground (arith, l, out_t, e)));
  once = v.once;
}

-- The run queue with a thread that stood in no queue.
with_runq : List ℕ → Sched → Sched
with_runq l s = record s { runq = l }

module _ (head : ℕ → ℕ) (s : Sched) (h : Links) (v : Represents head s h) (t : ℕ)
    (absent : (q : ℕ) → count t (head q ∷ queue_of s q) ≡ 0) (fuel : ℕ)
    (enough : length s.runq < fuel) (stops : ℕ → Bool) where
  linked : Linked stops t (head 0) s.runq h (link_before fuel stops (head 0) t h)
  linked = link_before-Linked fuel stops t (head 0) s.runq h (v.queues 0) (absent 0) enough

  other_queues : (e : ℕ) → IsQueue (head (suc e)) (s.sleepq e) linked.after
  other_queues e =
      let away = λ (x : ℕ) (l : 0 < count x (head 0 ∷ s.runq)).
        v.apart 0 (suc e) x (λ same. ground (arith, same)) l in
      Between-frame (head (suc e)) (s.sleepq e) linked.p linked.q t h linked.after
        (v.queues (suc e)) (away linked.p linked.p_in) (away linked.q linked.q_in) (absent (suc e))
        linked.seam

  module _ (l : List ℕ) (same : insert_where stops t s.runq ≡ l) where
    new_count : (x : ℕ) → count x l ≡ count x s.runq + (if t == x then 1 else 0)
    new_count x = sym (ap (count x) same) ∙ count-insert_where stops t x s.runq

    all_queues : (q : ℕ) → IsQueue (head q) (queue_of (with_runq l s) q) linked.after
    unfolding with_runq
    all_queues zero = subst (λ l. IsQueue (head 0) l linked.after) same linked.queue
    all_queues (suc e) = other_queues e

    still_apart :
        (q r x : ℕ)
        → q ≢ r
        → 0 < count x (head q ∷ queue_of (with_runq l s) q)
        → count x (head r ∷ queue_of (with_runq l s) r) ≡ 0
    unfolding with_runq count
    still_apart zero zero x other here = absurd (other refl)
    still_apart zero (suc e) x other here = elim (Bool-cases (t == x)) [
      | inl own ↦
          subst (λ x. count x (head (suc e) ∷ s.sleepq e) ≡ 0) ((==_iff t x).0 own) (absent (suc e))
      | inr old ↦ v.apart zero (suc e) x other (ground (arith, here, new_count x, old))
    ]
    still_apart (suc e) zero x other here = elim (Bool-cases (t == x)) [
      | inl own ↦ absurd (
          let out =
            subst (λ x. count x (head (suc e) ∷ s.sleepq e) ≡ 0) ((==_iff t x).0 own)
              (absent (suc e)) in
          ground (arith, here, out))
      | inr old ↦
          let out = v.apart (suc e) zero x other here in ground (arith, out, new_count x, old)
    ]
    still_apart (suc e) (suc f) x other here = v.apart (suc e) (suc f) x other here

    linked-Represents :
        (g : Links) × (link_before fuel stops (head 0) t h ≡ some g)
        × Represents head (with_runq l s) g
    linked-Represents =
        (linked.after, linked.returns, record { queues = all_queues; apart = still_apart })

same-Represents :
    (head : ℕ → ℕ) (s s' : Sched) (h : Links)
    → ((q : ℕ) → queue_of s' q ≡ queue_of s q)
    → Represents head s h
    → Represents head s' h
same-Represents head s s' h e v = record {
  queues = λ q. subst (λ l. IsQueue (head q) l h) (sym (e q)) (v.queues q);
  apart = λ q r x other here.
      subst (λ l. count x (head r ∷ l) ≡ 0) (sym (e r))
        (v.apart q r x other (subst (λ l. 0 < count x (head q ∷ l)) (e q) here));
}

queue_of-enqueue :
    (t : ℕ) (s : Sched) (q : ℕ)
    → queue_of (runq_enqueue t s) q ≡ queue_of (with_runq (insert_last (prio_of s) t s.runq) s) q
unfolding runq_enqueue with_runq
queue_of-enqueue t s zero = refl
queue_of-enqueue t s (suc e) = refl

-- With more fuel than threads in the run queue, the pointer code of runq_enqueue ends, and for a
-- thread that is in no queue it leaves links that represent the queues that the model of the
-- scheduler has after runq_enqueue.
pub runq_enqueue-links :
    (head : ℕ → ℕ) (s : Sched) (h : Links) (t fuel : ℕ)
    → Represents head s h
    → ((q : ℕ) → count t (head q ∷ queue_of s q) ≡ 0)
    → length s.runq < fuel
    → (g : Links) × (enqueue_link fuel (prio_of s) (head 0) t h ≡ some g)
      × Represents head (runq_enqueue t s) g
unfolding enqueue_link runq_enqueue with_runq
runq_enqueue-links head s h t fuel v absent enough =
    let (g, e, v') =
      linked-Represents head s h v t absent fuel enough (λ x. ltb (prio_of s t) (prio_of s x))
        (insert_last (prio_of s) t s.runq) (insert_last_lem (prio_of s) t s.runq) in
    (
      g,
      e,
      same-Represents head (with_runq (insert_last (prio_of s) t s.runq) s) (runq_enqueue t s) g
          (queue_of-enqueue t s) v',
    )

-- The same for runq_insert.
pub runq_insert-links :
    (head : ℕ → ℕ) (s : Sched) (h : Links) (t fuel : ℕ)
    → Represents head s h
    → ((q : ℕ) → count t (head q ∷ queue_of s q) ≡ 0)
    → length s.runq < fuel
    → (g : Links) × (insert_link fuel (prio_of s) (head 0) t h ≡ some g)
      × Represents head (runq_insert t s) g
unfolding insert_link runq_insert with_runq
runq_insert-links head s h t fuel v absent enough =
    linked-Represents head s h v t absent fuel enough (λ x. leb (prio_of s t) (prio_of s x))
      (insert_first (prio_of s) t s.runq) (insert_first_lem (prio_of s) t s.runq)
