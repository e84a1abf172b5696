-- ===== src/Sched/Runq.antt =====
-- The run queue's walks in sys/kern/sch.cpp: what they insert where, and the queue's order.
use apex.Base.{
  ℕ, ◌+◌, ◌≤◌, ◌<◌, ◌≡◌, refl, List, [], ◌∷◌, ◌++◌, leb, ◌==◌, if◌then◌else◌, arith, count, remove,
}
use apex.Sched.Defs.{insert_last, insert_first}

-- The threads' priority numbers rise along the queue, from `n` on.
abbrev pub Rises : (ℕ → ℕ) → ℕ → List ℕ → Type 0
Rises prio n [] = Unit {0}
Rises prio n (x ∷ xs) = (n ≤ prio x) × Rises prio (prio x) xs

module _ (prio : ℕ → ℕ) where
  pub Rises-mono : (m n : ℕ) (q : List ℕ) → m ≤ n → Rises prio n q → Rises prio m q
  Rises-mono m n [] h r = tt
  Rises-mono m n (x ∷ xs) h r = (omega arith, r.1)

  pub Rises-remove : (t n : ℕ) (q : List ℕ) → Rises prio n q → Rises prio n (remove t q)
  unfolding remove
  Rises-remove t n [] r = tt
  Rises-remove t n (x ∷ xs) r =
      ground (arith, Rises-remove t (prio x) xs, Rises-mono n (prio x) (remove t xs))

  pub Rises-insert_last :
      (t n : ℕ) (q : List ℕ) → n ≤ prio t → Rises prio n q → Rises prio n (insert_last prio t q)
  unfolding insert_last
  Rises-insert_last t n [] h r = (h, tt)
  Rises-insert_last t n (x ∷ xs) h r = ground (arith, Rises-insert_last t (prio x) xs)

  pub Rises-insert_first :
      (t n : ℕ) (q : List ℕ) → n ≤ prio t → Rises prio n q → Rises prio n (insert_first prio t q)
  unfolding insert_first
  Rises-insert_first t n [] h r = (h, tt)
  Rises-insert_first t n (x ∷ xs) h r = ground (arith, Rises-insert_first t (prio x) xs)

  pub count-insert_last :
      (a t : ℕ) (q : List ℕ)
      → count a (insert_last prio t q) ≡ (if t == a then 1 else 0) + count a q
  unfolding insert_last count
  count-insert_last a t [] = refl
  count-insert_last a t (x ∷ xs) = ground (arith, count-insert_last a t xs)

  pub count-insert_first :
      (a t : ℕ) (q : List ℕ)
      → count a (insert_first prio t q) ≡ (if t == a then 1 else 0) + count a q
  unfolding insert_first count
  count-insert_first a t [] = refl
  count-insert_first a t (x ∷ xs) = ground (arith, count-insert_first a t xs)

  -- The head of a rising queue has the least number.
  pub Rises-le : (a n : ℕ) (q : List ℕ) → Rises prio n q → 0 < count a q → n ≤ prio a
  unfolding count
  Rises-le a n [] r h = absurd (omega arith)
  Rises-le a n (x ∷ xs) r h = ground (arith, Rises-le a (prio x) xs)

-- The order looks at the priorities of the queue's own threads alone.
pub Rises-congr :
    (f g : ℕ → ℕ) (n : ℕ) (q : List ℕ)
    → ((a : ℕ) → 0 < count a q → f a ≡ g a)
    → Rises f n q
    → Rises g n q
unfolding count
Rises-congr f g n [] e r = tt
Rises-congr f g n (x ∷ xs) e r =
    let here : f x ≡ g x = e x (ground arith) in
    (ground arith, subst_bound (Rises-congr f g (f x) xs (λ a h. e a (ground arith)) r.1) here)
  where
    subst_bound : {m k : ℕ} → Rises g m xs → m ≡ k → Rises g k xs
    subst_bound h p = rw (← p) h

-- The threads of a queue that run before a thread of priority `n` that comes last, and after.
unfoldable pub before : (ℕ → ℕ) → ℕ → List ℕ → List ℕ
before prio n [] = []
before prio n (x ∷ xs) = let rest = before prio n xs in if leb (prio x) n then x ∷ rest else rest

unfoldable pub after : (ℕ → ℕ) → ℕ → List ℕ → List ℕ
after prio n [] = []
after prio n (x ∷ xs) = let rest = after prio n xs in if leb (prio x) n then rest else x ∷ rest

module _ (prio : ℕ → ℕ) (n : ℕ) where
  before-Rises : (m : ℕ) (q : List ℕ) → n < m → Rises prio m q → before prio n q ≡ []
  unfolding before
  before-Rises m [] h r = refl
  before-Rises m (x ∷ xs) h r = ground (arith, before-Rises (prio x) xs)

  after-Rises : (m : ℕ) (q : List ℕ) → n < m → Rises prio m q → after prio n q ≡ q
  unfolding after
  after-Rises m [] h r = refl
  after-Rises m (x ∷ xs) h r = ground (arith, after-Rises (prio x) xs)

-- In an ordered queue a thread goes behind those of higher or equal priority, before the others,
-- and no two of those change places.
pub insert_last-split :
    (prio : ℕ → ℕ) (t m : ℕ) (q : List ℕ)
    → Rises prio m q
    → insert_last prio t q ≡ before prio (prio t) q ++ t ∷ after prio (prio t) q
unfolding insert_last before after
insert_last-split prio t m [] r = refl
insert_last-split prio t m (x ∷ xs) r = ground (
  arith,
  insert_last-split prio t (prio x) xs,
  before-Rises prio (prio t) (prio x) xs,
  after-Rises prio (prio t) (prio x) xs,
)
