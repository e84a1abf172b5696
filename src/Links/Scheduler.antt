-- ===== src/Links/Scheduler.antt =====
-- The scheduler's queues as links: the run queue and the sleep queue of each event hang on heads of
-- their own, and a thread's link stands in one of them at most.
use apex.Base.{
  ℕ, zero, suc, ◌<◌, ◌≤◌, ◌≡◌, ◌≢◌, refl, sym, ap, subst, List, [], ◌∷◌, ◌++◌, ◌==◌, arith,
  Bool-cases, inl, inr, ==_iff, count, count-append, count-remove, last, count-last, remove,
  remove_of_not_mem,
}
use apex.Sched.Defs.{Sched, unlink}
use apex.Links.{Links, queue_remove}
use apex.Links.Segments.{Joined, first, frame}
use apex.Links.Queues.{IsQueue, queue_remove-IsQueue, queue_remove-Seam}

-- Queue 0 is the run queue, and queue `e + 1` the sleep queue of event `e`.
abbrev pub queue_of : Sched → ℕ → List ℕ
queue_of s zero = s.runq
queue_of s (suc e) = s.sleepq e

-- The links represent all queues, on the heads `head`, and no link is in two of them.
pub record Represents (head : ℕ → ℕ) (s : Sched) (h : Links) : Type 0 where
  pub queues : (q : ℕ) → IsQueue (head q) (queue_of s q) h
  pub apart :
      (q r x : ℕ)
      → q ≢ r
      → 0 < count x (head q ∷ queue_of s q)
      → count x (head r ∷ queue_of s r) ≡ 0

split_member :
    (x : ℕ) (l : List ℕ) → 0 < count x l → (xs : List ℕ) × (ys : List ℕ) × (l ≡ xs ++ x ∷ ys)
unfolding count
split_member x [] here = absurd (omega (arith, here))
split_member x (y ∷ l) here = elim (Bool-cases (y == x)) [
  | inl same ↦ ([], l, ap (λ z. z ∷ l) ((==_iff y x).0 same))
  | inr other ↦
      let (xs, ys, e) = split_member x l (ground (arith, here, other)) in (y ∷ xs, ys, ap (◌∷◌ y) e)
]

remove-middle :
    (x : ℕ) (xs ys : List ℕ) → count x (xs ++ x ∷ ys) ≤ 1 → remove x (xs ++ x ∷ ys) ≡ xs ++ ys
unfolding remove count
remove-middle x [] ys once = ground (arith, once, remove_of_not_mem x ys)
remove-middle x (y ∷ xs) ys once =
    ground (arith, once, remove-middle x xs ys, count-append x xs (x ∷ ys))

-- A queue that does not touch the links that change.
Joined-frame :
    (head : ℕ) (xs : List ℕ) (p q : ℕ) (h g : Links)
    → IsQueue head xs h
    → count p (head ∷ xs) ≡ 0
    → count q (head ∷ xs) ≡ 0
    → Joined p q h g
    → IsQueue head xs g
Joined-frame head xs p q h g v out_p out_q w = record {
  seg =
      frame v.seg (λ x l. w.other_next x (λ e. ground (arith, l, out_p, e)))
        (λ x l. w.other_prev x (λ e. ground (arith, l, out_q, e)));
  once = v.once;
}

queue_of-unlink : (t : ℕ) (s : Sched) (q : ℕ) → queue_of (unlink t s) q ≡ remove t (queue_of s q)
unfolding unlink
queue_of-unlink t s zero = refl
queue_of-unlink t s (suc e) = refl

more : (x a t : ℕ) (l : List ℕ) → 0 < count x (a ∷ remove t l) → 0 < count x (a ∷ l)
unfolding count
more x a t l h = ground (arith, h, count-remove x t l)

fewer : (x a t : ℕ) (l : List ℕ) → count x (a ∷ l) ≡ 0 → count x (a ∷ remove t l) ≡ 0
unfolding count
fewer x a t l h = ground (arith, h, count-remove x t l)

pub last-in : (head t : ℕ) (xs ys : List ℕ) → 0 < count (last head xs) (head ∷ xs ++ t ∷ ys)
unfolding count
last-in head t xs ys =
    let x = last head xs in ground (arith, count-last head xs, count-append x xs (t ∷ ys))

pub first-in : (head t : ℕ) (xs ys : List ℕ) → 0 < count (first ys head) (head ∷ xs ++ t ∷ ys)
unfolding count
first-in head t xs [] = ground arith
first-in head t xs (y ∷ ys) = ground (arith, count-append y xs (t ∷ y ∷ ys))

module _ (head : ℕ → ℕ) (s : Sched) (h : Links) (v : Represents head s h) (t q : ℕ)
    (here : 0 < count t (queue_of s q)) where
  -- The queue that the thread stands in.
  own-IsQueue : IsQueue (head q) (remove t (queue_of s q)) (queue_remove t h)
  unfolding count
  own-IsQueue =
      let (xs, ys, e) = split_member t (queue_of s q) here in
      let own = subst (λ l. IsQueue (head q) l h) e (v.queues q) in
      let once : count t (xs ++ t ∷ ys) ≤ 1 = ground (arith, own.once t) in
      subst (λ l. IsQueue (head q) (remove t l) (queue_remove t h)) (sym e)
        (subst (λ l. IsQueue (head q) l (queue_remove t h)) (sym (remove-middle t xs ys once))
          (queue_remove-IsQueue (head q) xs ys t h own))

  -- Another one.
  other-IsQueue : (r : ℕ) → q ≢ r → IsQueue (head r) (remove t (queue_of s r)) (queue_remove t h)
  unfolding count
  other-IsQueue r other =
      let (xs, ys, e) = split_member t (queue_of s q) here in
      let own = subst (λ l. IsQueue (head q) l h) e (v.queues q) in
      let away = λ (x : ℕ) (l : 0 < count x (head q ∷ xs ++ t ∷ ys)).
        v.apart q r x other (subst (λ l. 0 < count x (head q ∷ l)) (sym e) l) in
      let absent : count t (queue_of s r) ≡ 0 =
        ground (arith, v.apart q r t other (ground (arith, here))) in
      subst (λ l. IsQueue (head r) l (queue_remove t h))
        (sym (remove_of_not_mem t (queue_of s r) absent))
        (Joined-frame (head r) (queue_of s r) (last (head q) xs) (first ys (head q)) h
          (queue_remove t h) (v.queues r) (away (last (head q) xs) (last-in (head q) t xs ys))
          (away (first ys (head q)) (first-in (head q) t xs ys))
          (queue_remove-Seam (head q) xs ys t h own))

  -- If links represent the run queue and all sleep queues, each on a head of its own and no link in
  -- two of them, then queue_remove of a link that stands in any of them leaves links that represent
  -- the queues that the model of the scheduler has after unlink.
  pub queue_remove-unlink : Represents head (unlink t s) (queue_remove t h)
  unfolding count
  queue_remove-unlink = record {
    queues = λ r.
        subst (λ l. IsQueue (head r) l (queue_remove t h)) (sym (queue_of-unlink t s r))
          (elim (Bool-cases (q == r)) [
            | inl same ↦
                subst (λ r. IsQueue (head r) (remove t (queue_of s r)) (queue_remove t h))
                  ((==_iff q r).0 same) own-IsQueue
            | inr other ↦ other-IsQueue r (λ e. ground (arith, other, e))
          ]);
    apart = λ q r x other l.
        subst (λ l. count x (head r ∷ l) ≡ 0) (sym (queue_of-unlink t s r))
          (fewer x (head r) t (queue_of s r) (
            v.apart q r x other (
              more x (head q) t (queue_of s q)
                (subst (λ l. 0 < count x (head q ∷ l)) (queue_of-unlink t s q) l))));
  }
