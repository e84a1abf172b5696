-- ===== src/Links/Walk.antt =====
-- The walk of runq_enqueue and runq_insert over the links of a queue.
use apex.Base.{
  ℕ, zero, suc, ◌+◌, ◌<◌, ◌≡◌, refl, sym, ap, subst, ◌∙◌, Bool, true, false, Option, some, List, [],
  ◌∷◌, ◌++◌, ◌==◌, ltb, leb, if◌then◌else◌, arith, Bool-cases, inl, inr, count, count-append, last,
  count-last, length,
}
use apex.Sched.Defs.{insert_last, insert_first}
use apex.Links.{Links, queue_insert, walk, link_before}
use apex.Links.Segments.{Seg, cons, first, Between, next-last, prev-first}
use apex.Links.Queues.{IsQueue, IsQueue-IsDistinct, queue_insert-IsQueue, queue_insert-Seam}

-- A list with `t` before the first item that `stops`.
unfoldable pub insert_where : (ℕ → Bool) → ℕ → List ℕ → List ℕ
insert_where stops t [] = t ∷ []
insert_where stops t (x ∷ xs) =
    let rest = insert_where stops t xs in if stops x then t ∷ x ∷ xs else x ∷ rest

pub insert_last_lem :
    (prio : ℕ → ℕ) (t : ℕ) (xs : List ℕ)
    → insert_where (λ x. ltb (prio t) (prio x)) t xs ≡ insert_last prio t xs
unfolding insert_where insert_last
insert_last_lem prio t [] = refl
insert_last_lem prio t (x ∷ xs) = rw (insert_last_lem prio t xs) refl

pub insert_first_lem :
    (prio : ℕ → ℕ) (t : ℕ) (xs : List ℕ)
    → insert_where (λ x. leb (prio t) (prio x)) t xs ≡ insert_first prio t xs
unfolding insert_where insert_first
insert_first_lem prio t [] = refl
insert_first_lem prio t (x ∷ xs) = rw (insert_first_lem prio t xs) refl

pub count-insert_where :
    (stops : ℕ → Bool) (t x : ℕ) (xs : List ℕ)
    → count x (insert_where stops t xs) ≡ count x xs + (if t == x then 1 else 0)
unfolding insert_where count
count-insert_where stops t x [] = ground arith
count-insert_where stops t x (y ∷ xs) = ground (arith, count-insert_where stops t x xs)

-- Where the walk stops: the list is cut there.
record Cut (stops : ℕ → Bool) (t head : ℕ) (ys : List ℕ) (found : Option ℕ) : Type 0 where
  before : List ℕ
  after : List ℕ
  whole : ys ≡ before ++ after
  inserted : insert_where stops t ys ≡ before ++ t ∷ after
  at : found ≡ some (first after head)

walk_on :
    (fuel : ℕ) (stops : ℕ → Bool) (head q : ℕ) (h : Links)
    → (q == head) ≡ false
    → stops q ≡ false
    → walk (suc fuel) stops head q h ≡ walk fuel stops head (h.next q) h
unfolding walk
walk_on fuel stops head q h apart later = rw (apart, later) refl

walk-Cut :
    (fuel : ℕ) (stops : ℕ → Bool) (t head a : ℕ) (ys : List ℕ) (h : Links)
    → Seg h head a ys
    → count head ys ≡ 0
    → length ys < fuel
    → Cut stops t head ys (walk fuel stops head (first ys head) h)
unfolding walk insert_where count last
walk-Cut zero stops t head a ys h s out l = absurd (omega (arith, l))
walk-Cut (suc fuel) stops t head a [] h s out l = record {
  before = [];
  after = [];
  whole = refl;
  inserted = refl;
  at = let e : (head == head) ≡ true = ground arith in rw e refl;
}
walk-Cut (suc fuel) stops t head a (y ∷ ys) h (cons n p s) out l =
    let apart : (y == head) ≡ false = ground (arith, out) in
    elim (Bool-cases (stops y)) [
      | inl here ↦ record {
        before = [];
        after = y ∷ ys;
        whole = refl;
        inserted = rw here refl;
        at = rw (apart, here) refl;
      }
      | inr later ↦
          let c = walk-Cut fuel stops t head y ys h s (ground (arith, out)) (omega (arith, l)) in
          let on = next-last [] ys s in
          record {
            before = y ∷ c.before;
            after = c.after;
            whole = ap (◌∷◌ y) c.whole;
            inserted = rw later (ap (◌∷◌ y) c.inserted);
            at =
                walk_on fuel stops head y h apart later
                ∙ ap (λ q. walk fuel stops head q h) on
                ∙ c.at;
          }
    ]

last-here : (head : ℕ) (xs ys : List ℕ) → 0 < count (last head xs) (head ∷ xs ++ ys)
unfolding count
last-here head xs ys =
    let x = last head xs in ground (arith, count-last head xs, count-append x xs ys)

first-here : (head : ℕ) (xs ys : List ℕ) → 0 < count (first ys head) (head ∷ xs ++ ys)
unfolding count
first-here head xs [] = ground arith
first-here head xs (y ∷ ys) = ground (arith, count-append y xs (y ∷ ys))

-- What link_before does to a queue: the item stands before the first link that `stops`, between
-- two links that were in the queue or are its head.
pub record Linked (stops : ℕ → Bool) (t head : ℕ) (xs : List ℕ) (h : Links) (o : Option Links)
    : Type 0 where
  pub after : Links
  pub p : ℕ
  pub q : ℕ
  pub returns : o ≡ some after
  pub queue : IsQueue head (insert_where stops t xs) after
  pub seam : Between p q t h after
  pub p_in : 0 < count p (head ∷ xs)
  pub q_in : 0 < count q (head ∷ xs)

link_found :
    (fuel : ℕ) (stops : ℕ → Bool) (t head q : ℕ) (h : Links)
    → walk fuel stops head (h.next head) h ≡ some q
    → link_before fuel stops head t h ≡ some (queue_insert (h.prev q) t h)
unfolding link_before
link_found fuel stops t head q h e = rw (link_before, e) refl

pub link_before-Linked :
    (fuel : ℕ) (stops : ℕ → Bool) (t head : ℕ) (xs : List ℕ) (h : Links)
    → IsQueue head xs h
    → count t (head ∷ xs) ≡ 0
    → length xs < fuel
    → Linked stops t head xs h (link_before fuel stops head t h)
unfolding last
link_before-Linked fuel stops t head xs h v out l =
    let c = walk-Cut fuel stops t head head xs h v.seg (IsQueue-IsDistinct head xs h v).ends l in
    let start = next-last [] xs v.seg in
    let v' = subst (λ l. IsQueue head l h) c.whole v in
    let out' = subst (λ l. count t (head ∷ l) ≡ 0) c.whole out in
    let back = prev-first c.before c.after v'.seg in
    let p = last head c.before in
    record {
      after = queue_insert p t h;
      p = p;
      q = first c.after head;
      returns =
          link_found fuel stops t head (first c.after head) h
            (ap (λ q. walk fuel stops head q h) start ∙ c.at)
          ∙ ap (λ p. some (queue_insert p t h)) back;
      queue =
          subst (λ l. IsQueue head l (queue_insert p t h)) (sym c.inserted)
            (queue_insert-IsQueue head c.before c.after t h v' out');
      seam = queue_insert-Seam head c.before c.after t h v' out';
      p_in = subst (λ l. 0 < count p (head ∷ l)) (sym c.whole) (last-here head c.before c.after);
      q_in =
          subst (λ l. 0 < count (first c.after head) (head ∷ l)) (sym c.whole)
            (first-here head c.before c.after);
    }
