-- ===== src/Links/Segments.antt =====
-- Segments of links: what putting an item between two neighbours, and taking one out, does to them.
use apex.Base.{ℕ, ◌<◌, ◌≤◌, ◌≡◌, ◌≢◌, ◌∙◌, List, [], ◌∷◌, ◌++◌, arith, count, count-append, last}
use apex.Links.{Links}

-- From `a` the `next` pointers lead through `xs` to `b`, and the `prev` pointers back.
pub data Seg (h : Links) (b : ℕ) : ℕ → List ℕ → Type 0 where
  nil : {a : ℕ} → h.next a ≡ b → h.prev b ≡ a → Seg h b a []
  cons : {a x : ℕ} {xs : List ℕ} → h.next a ≡ x → h.prev x ≡ a → Seg h b x xs → Seg h b a (x ∷ xs)

-- The first link of `ys`, or the end.
abbrev pub first : List ℕ → ℕ → ℕ
first [] b = b
first (y ∷ ys) b = y

-- Links on the way are distinct, and none is the end; the start may be the end.
pub record IsDistinct (a b : ℕ) (xs : List ℕ) : Type 0 where
  pub once : (x : ℕ) → count x (a ∷ xs) ≤ 1
  pub ends : count b xs ≡ 0

tail-IsDistinct : (a b x : ℕ) (xs : List ℕ) → IsDistinct a b (x ∷ xs) → IsDistinct x b xs
unfolding count
tail-IsDistinct a b x xs d = record {
  once = λ y. ground (arith, d.once y);
  ends = ground (arith, d.ends);
}

-- A store that is another one with new pointers of a few links.
pub frame :
    {h g : Links} {b a : ℕ} {xs : List ℕ}
    → Seg h b a xs
    → ((x : ℕ) → 0 < count x (a ∷ xs) → g.next x ≡ h.next x)
    → ((x : ℕ) → 0 < count x (b ∷ xs) → g.prev x ≡ h.prev x)
    → Seg g b a xs
unfolding count
frame (nil n p) f k = nil (f _ (ground arith) ∙ n) (k _ (ground arith) ∙ p)
frame (cons n p s) f k =
    cons (f _ (ground arith) ∙ n) (k _ (ground arith) ∙ p)
      (frame s (λ x l. f x (ground (arith, l))) (λ x l. k x (ground (arith, l))))

-- Where the pointers of a segment lead at the seam of two parts.
pub next-last :
    {h : Links} {b a : ℕ} (xs ys : List ℕ) → Seg h b a (xs ++ ys) → h.next (last a xs) ≡ first ys b
unfolding last
next-last [] [] (nil n p) = n
next-last [] (y ∷ ys) (cons n p s) = n
next-last (x ∷ xs) ys (cons n p s) = next-last xs ys s

pub prev-first :
    {h : Links} {b a : ℕ} (xs ys : List ℕ) → Seg h b a (xs ++ ys) → h.prev (first ys b) ≡ last a xs
unfolding last
prev-first [] [] (nil n p) = p
prev-first [] (y ∷ ys) (cons n p s) = p
prev-first (x ∷ xs) ys (cons n p s) = prev-first xs ys s

pub next-middle :
    {h : Links} {b a : ℕ} (xs : List ℕ) (x : ℕ) (ys : List ℕ)
    → Seg h b a (xs ++ x ∷ ys)
    → h.next x ≡ first ys b
unfolding last
next-middle [] x ys (cons n p s) = next-last [] ys s
next-middle (y ∷ xs) x ys (cons n p s) = next-middle xs x ys s

last-ne : (a x : ℕ) (xs : List ℕ) → count a (x ∷ xs) ≡ 0 → a ≢ last x xs
unfolding last count
last-ne a x [] out e = ground (arith, out, e)
last-ne a x (y ∷ xs) out e = last-ne a y xs (ground (arith, out)) e

pub first-ne : (a b : ℕ) (ys : List ℕ) → a ≢ b → count a ys ≡ 0 → a ≢ first ys b
unfolding count
first-ne a b [] other out e = other e
first-ne a b (y ∷ ys) other out e = ground (arith, out, e)

last_apart : (a b x : ℕ) (xs ys : List ℕ) → IsDistinct a b (x ∷ xs ++ ys) → a ≢ last x xs
unfolding count
last_apart a b x xs ys d = last-ne a x xs (ground (arith, d.once a, count-append a xs ys))

first_apart : (a b x : ℕ) (xs ys : List ℕ) → IsDistinct a b (x ∷ xs ++ ys) → x ≢ first ys b
unfolding count
first_apart a b x xs ys d =
    first-ne x b ys (λ e. ground (arith, d.ends, e))
      (ground (arith, d.once x, count-append x xs ys))

second_apart : (a b x y : ℕ) (xs ys : List ℕ) → IsDistinct a b (x ∷ xs ++ y ∷ ys) → x ≢ first ys b
unfolding count
second_apart a b x y xs ys d =
    first-ne x b ys (λ e. ground (arith, d.ends, e))
      (ground (arith, d.once x, count-append x xs (y ∷ ys)))

-- `item` has been put between the neighbours `p` and `q`.
pub record Between (p q item : ℕ) (h g : Links) : Type 0 where
  pub next_p : g.next p ≡ item
  pub next_item : g.next item ≡ q
  pub prev_item : g.prev item ≡ p
  pub prev_q : g.prev q ≡ item
  pub other_next : (x : ℕ) → x ≢ p → x ≢ item → g.next x ≡ h.next x
  pub other_prev : (x : ℕ) → x ≢ q → x ≢ item → g.prev x ≡ h.prev x

-- The neighbours `p` and `q` of a link have been joined.
pub record Joined (p q : ℕ) (h g : Links) : Type 0 where
  pub next_p : g.next p ≡ q
  pub prev_q : g.prev q ≡ p
  pub other_next : (x : ℕ) → x ≢ p → g.next x ≡ h.next x
  pub other_prev : (x : ℕ) → x ≢ q → g.prev x ≡ h.prev x

module _ {h g : Links} {b : ℕ} where
  pub Between-Seg :
      (a : ℕ) (xs ys : List ℕ) (item : ℕ)
      → Seg h b a (xs ++ ys)
      → IsDistinct a b (xs ++ ys)
      → count item (b ∷ a ∷ xs ++ ys) ≡ 0
      → Between (last a xs) (first ys b) item h g
      → Seg g b a (xs ++ item ∷ ys)
  unfolding last count
  Between-Seg a [] [] item (nil n p) d out w = cons w.next_p w.prev_item (nil w.next_item w.prev_q)
  Between-Seg a [] (y ∷ ys) item (cons n p s) d out w = cons w.next_p w.prev_item (
      cons w.next_item w.prev_q (
        frame s
          (λ x l.
            w.other_next x (λ e. ground (arith, d.once x, l, e)) (λ e. ground (arith, out, l, e)))
          (λ x l.
            w.other_prev x (λ e. ground (arith, d.once x, d.ends, l, e))
              (λ e. ground (arith, out, l, e)))))
  Between-Seg a (x ∷ xs) ys item (cons n p s) d out w =
      cons (w.other_next a (last_apart a b x xs ys d) (λ e. ground (arith, out, e)) ∙ n)
        (w.other_prev x (first_apart a b x xs ys d) (λ e. ground (arith, out, e)) ∙ p)
        (Between-Seg x xs ys item s (tail-IsDistinct a b x (xs ++ ys) d) (ground (arith, out)) w)

  pub Joined-Seg :
      (a : ℕ) (xs ys : List ℕ) (item : ℕ)
      → Seg h b a (xs ++ item ∷ ys)
      → IsDistinct a b (xs ++ item ∷ ys)
      → Joined (last a xs) (first ys b) h g
      → Seg g b a (xs ++ ys)
  unfolding last count
  Joined-Seg a [] [] item (cons n p s) d w = nil w.next_p w.prev_q
  Joined-Seg a [] (y ∷ ys) item (cons n p (cons n' p' s)) d w = cons w.next_p w.prev_q (
      frame s (λ x l. w.other_next x (λ e. ground (arith, d.once x, l, e)))
        (λ x l. w.other_prev x (λ e. ground (arith, d.once x, d.ends, l, e))))
  Joined-Seg a (x ∷ xs) ys item (cons n p s) d w =
      cons (w.other_next a (last_apart a b x xs (item ∷ ys) d) ∙ n)
        (w.other_prev x (second_apart a b x item xs ys d) ∙ p)
        (Joined-Seg x xs ys item s (tail-IsDistinct a b x (xs ++ item ∷ ys) d) w)
