-- ===== src/Links/Queues.antt =====
-- Queues and lists of links: each operation is one on the list of links behind the head.
use apex.Base.{
  ℕ, ◌<◌, ◌≤◌, ◌≡◌, ◌≢◌, ◌⊎◌, append-nil, refl, sym, ap, subst, ◌∙◌, true, false, none, some, List,
  [], ◌∷◌, ◌++◌, ◌==◌, arith, inl, inr, count, count-append, count-last, last,
}
use apex.Links.{
  Links, queue_init, enqueue, dequeue, queue_insert, queue_remove, list_insert, list_remove,
}
use apex.Links.Segments.{
  Seg, nil, first, IsDistinct, Between, Joined, Between-Seg, Joined-Seg, next-last, prev-first,
  next-middle, first-ne,
}
use apex.Links.Neighbours.{
  queue_insert-Between, enqueue-Between, queue_remove-Joined, dequeue-Joined,
}

-- The links behind `head`, in order; they are distinct, and none is the head.
pub record IsQueue (head : ℕ) (xs : List ℕ) (h : Links) : Type 0 where
  pub seg : Seg h head head xs
  pub once : (x : ℕ) → count x (head ∷ xs) ≤ 1

pub IsQueue-IsDistinct :
    (head : ℕ) (xs : List ℕ) (h : Links) → IsQueue head xs h → IsDistinct head head xs
unfolding count
IsQueue-IsDistinct head xs h v = record { once = v.once; ends = ground (arith, v.once head) }

pub queue_init-IsQueue : (head : ℕ) (h : Links) → IsQueue head [] (queue_init head h)
unfolding queue_init count
queue_init-IsQueue head h = record {
  seg = nil (ground arith) (ground arith);
  once = λ x. ground arith;
}

module _ (head : ℕ) (xs ys : List ℕ) (item : ℕ) where
  pub Between-IsQueue :
      (h g : Links)
      → IsQueue head (xs ++ ys) h
      → count item (head ∷ xs ++ ys) ≡ 0
      → Between (last head xs) (first ys head) item h g
      → IsQueue head (xs ++ item ∷ ys) g
  unfolding count
  Between-IsQueue h g v out w = record {
    seg =
        Between-Seg head xs ys item v.seg (IsQueue-IsDistinct head (xs ++ ys) h v)
          (ground (arith, out)) w;
    once = λ x. ground (
      arith,
      v.once x,
      out,
      count-append x xs ys,
      count-append x xs (item ∷ ys),
      count-append item xs ys,
    );
  }

  pub Joined-IsQueue :
      (h g : Links)
      → IsQueue head (xs ++ item ∷ ys) h
      → Joined (last head xs) (first ys head) h g
      → IsQueue head (xs ++ ys) g
  unfolding count
  Joined-IsQueue h g v w = record {
    seg = Joined-Seg head xs ys item v.seg (IsQueue-IsDistinct head (xs ++ item ∷ ys) h v) w;
    once = λ x. ground (arith, v.once x, count-append x xs ys, count-append x xs (item ∷ ys));
  }

  -- The two neighbours of a place are in the queue, or are its head.
  last-other : count item (head ∷ xs ++ ys) ≡ 0 → last head xs ≢ item
  unfolding count
  last-other out e = ground (
    arith,
    out,
    count-append item xs ys,
    subst (λ x. 0 < count x (head ∷ xs)) e (count-last head xs),
  )

  first-other : count item (head ∷ xs ++ ys) ≡ 0 → first ys head ≢ item
  unfolding count
  first-other out e =
      first-ne item head ys (λ same. ground (arith, out, same))
        (ground (arith, out, count-append item xs ys)) (sym e)

  before-other : (h : Links) → IsQueue head (xs ++ item ∷ ys) h → last head xs ≢ item
  unfolding count
  before-other h v e =
      let here = subst (λ x. 0 < count x (head ∷ xs)) e (count-last head xs) in
      ground (arith, v.once item, count-append item xs (item ∷ ys), here)

  pub queue_insert-Seam :
      (h : Links)
      → IsQueue head (xs ++ ys) h
      → count item (head ∷ xs ++ ys) ≡ 0
      → Between (last head xs) (first ys head) item h (queue_insert (last head xs) item h)
  queue_insert-Seam h v out =
      let e = next-last xs ys v.seg in
      subst (λ q. Between (last head xs) q item h (queue_insert (last head xs) item h)) e
        (queue_insert-Between (last head xs) item h (last-other out)
          (λ same. first-other out (sym e ∙ same)))

  -- queue_insert puts a new item behind the link that it is given.
  pub queue_insert-IsQueue :
      (h : Links)
      → IsQueue head (xs ++ ys) h
      → count item (head ∷ xs ++ ys) ≡ 0
      → IsQueue head (xs ++ item ∷ ys) (queue_insert (last head xs) item h)
  queue_insert-IsQueue h v out =
      Between-IsQueue h (queue_insert (last head xs) item h) v out (queue_insert-Seam h v out)

  pub queue_remove-Seam :
      (h : Links)
      → IsQueue head (xs ++ item ∷ ys) h
      → Joined (last head xs) (first ys head) h (queue_remove item h)
  queue_remove-Seam h v =
      let back = prev-first xs (item ∷ ys) v.seg in
      let on = next-middle xs item ys v.seg in
      subst (λ p. Joined p (first ys head) h (queue_remove item h)) back
        (subst (λ q. Joined (h.prev item) q h (queue_remove item h)) on
          (queue_remove-Joined item h (λ same. before-other h v (sym back ∙ same))))

  -- queue_remove takes an item out of the queue that it stands in.
  pub queue_remove-IsQueue :
      (h : Links) → IsQueue head (xs ++ item ∷ ys) h → IsQueue head (xs ++ ys) (queue_remove item h)
  queue_remove-IsQueue h v = Joined-IsQueue h (queue_remove item h) v (queue_remove-Seam h v)

  -- The functions of list.h write the same as those of queue.cpp.
  pub list_insert-IsQueue :
      (h : Links)
      → IsQueue head (xs ++ ys) h
      → count item (head ∷ xs ++ ys) ≡ 0
      → IsQueue head (xs ++ item ∷ ys) (list_insert (last head xs) item h)
  unfolding list_insert queue_insert
  list_insert-IsQueue h v out = queue_insert-IsQueue h v out

  pub list_remove-IsQueue :
      (h : Links) → IsQueue head (xs ++ item ∷ ys) h → IsQueue head (xs ++ ys) (list_remove item h)
  unfolding list_remove queue_remove
  list_remove-IsQueue h v = queue_remove-IsQueue h v

-- enqueue puts a new item at the end of a queue.
pub enqueue-IsQueue :
    (head item : ℕ) (xs : List ℕ) (h : Links)
    → IsQueue head xs h
    → count item (head ∷ xs) ≡ 0
    → IsQueue head (xs ++ item ∷ []) (enqueue head item h)
enqueue-IsQueue head item xs h v out =
    let v' = subst (λ l. IsQueue head l h) (sym (append-nil xs)) v in
    let out' = subst (λ l. count item (head ∷ l) ≡ 0) (sym (append-nil xs)) out in
    let back = prev-first xs [] v'.seg in
    Between-IsQueue head xs [] item h (enqueue head item h) v' out' (
      subst (λ p. Between p head item h (enqueue head item h)) back
        (enqueue-Between head item h (λ same. first-other head xs [] item out' same)
          (λ same. last-other head xs [] item out' (sym back ∙ same))))

-- dequeue of a queue of distinct links takes out and returns the first; of an empty queue it
-- returns nothing and changes nothing.
pub dequeue-IsQueue :
    (head : ℕ) (xs : List ℕ) (h : Links)
    → IsQueue head xs h
    → let (r, h') = dequeue head h in
      (xs ≡ [] × r ≡ none × h' ≡ h)
      ⊎ ((x : ℕ) × (ys : List ℕ) × (xs ≡ x ∷ ys) × (r ≡ some x) × IsQueue head ys h')
unfolding dequeue count last
dequeue-IsQueue head [] h v =
    let none_there = next-last [] [] v.seg in
    let same : (h.next head == head) ≡ true = ground (arith, none_there) in
    inl (refl, rw same refl, rw same refl)
dequeue-IsQueue head (x ∷ ys) h v =
    let first_one = next-last [] (x ∷ ys) v.seg in
    let apart : h.next head ≢ head = (λ same. ground (arith, v.once head, first_one, same)) in
    let other : (h.next head == head) ≡ false = ground (arith, apart) in
    let on : h.next (h.next head) ≡ first ys head =
      ap h.next first_one ∙ next-middle [] x ys v.seg in
    inr (
      x,
      ys,
      refl,
      rw other (ap some first_one),
      Joined-IsQueue head [] ys x h (dequeue head h).1 v
          (subst (λ q. Joined head q h (dequeue head h).1) on (dequeue-Joined head h apart)),
    )
