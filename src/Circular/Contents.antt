-- ===== src/Circular/Contents.antt =====
-- The items that a circular buffer holds, in order, and when a buffer is valid.
use apex.Base.{
  ℕ, zero, suc, ◌+◌, ◌%◌, ◌≤◌, ◌<◌, ◌≡◌, refl, sym, ap, ◌∙◌, List, [], ◌∷◌, ◌++◌, arith, length,
  take, drop,
}
use mathlib.Core.Path.{ap₂}
use native.Mathlib.Nat.{mod-lt}
use apex.Circular.{CircularBuffer, size_mod, add, size, get}
use apex.Circular.Wrap.{place_shift, place_before, place, add-place}

module _ {ℓ} {A : Type ℓ} where
  -- The first `n` values of a function.
  abbrev pub items : (ℕ → A) → ℕ → List A
  items f zero = []
  items f (suc n) = f 0 ∷ items (λ i. f (suc i)) n

  pub items-congr : (f g : ℕ → A) (n : ℕ) → ((i : ℕ) → i < n → f i ≡ g i) → items f n ≡ items g n
  items-congr f g zero h = refl
  items-congr f g (suc n) h =
      ap₂ ◌∷◌ (h 0 (omega arith))
        (items-congr (λ i. f (suc i)) (λ i. g (suc i)) n (λ i l. h (suc i) (omega (arith, l))))

  pub length-items : (f : ℕ → A) (n : ℕ) → length (items f n) ≡ n
  length-items f zero = refl
  length-items f (suc n) = ap suc (length-items (λ i. f (suc i)) n)

  pub items-append :
      (f : ℕ → A) (m n k : ℕ) → m + n ≡ k → items f k ≡ items f m ++ items (λ i. f (m + i)) n
  items-append f zero n k e =
      ap (λ j. items f j) (omega arith)
      ∙ items-congr f (λ i. f (0 + i)) n (λ i l. ap f (omega arith))
  items-append f (suc m) n zero e = absurd (omega arith)
  items-append f (suc m) n (suc k) e = ap (◌∷◌ (f 0)) (
      items-append (λ i. f (suc i)) m n k (omega arith)
      ∙ ap (◌++◌ (items (λ i. f (suc i)) m))
          (items-congr (λ i. f (suc (m + i))) (λ i. f (suc m + i)) n (λ i l. ap f (omega arith))))

  pub take-items : (f : ℕ → A) (i n : ℕ) → i ≤ n → take i (items f n) ≡ items f i
  take-items f zero n l = refl
  take-items f (suc i) zero l = absurd (omega arith)
  take-items f (suc i) (suc n) l = ap (◌∷◌ (f 0)) (take-items (λ j. f (suc j)) i n (omega arith))

  pub drop-items :
      (f : ℕ → A) (i n k : ℕ) → i + k ≡ n → drop i (items f n) ≡ items (λ j. f (i + j)) k
  drop-items f zero n k e =
      ap (λ j. items f j) (omega arith)
      ∙ items-congr f (λ j. f (0 + j)) k (λ j l. ap f (omega arith))
  drop-items f (suc i) zero k e = absurd (omega arith)
  drop-items f (suc i) (suc n) k e =
      drop-items (λ j. f (suc j)) i n k (omega arith)
      ∙ items-congr (λ j. f (suc (i + j))) (λ j. f (suc i + j)) k (λ j l. ap f (omega arith))

  -- What `operator[]` gives for each index.
  abbrev pub contents : CircularBuffer A → List A
  contents cb = items (get cb) (size cb)

  -- The capacity is not 0 and divides the range of the counters, which is a power of two; the
  -- counters are in range, and no further apart than the capacity.
  pub record IsBuffer (cb : CircularBuffer A) : Type 0 where
    pub pos : 0 < cb.capacity
    pub fits : size_mod % cb.capacity ≡ 0
    pub below : cb.capacity < size_mod
    pub begin_in : cb.begin < size_mod
    pub end_in : cb.end < size_mod
    pub room : size cb ≤ cb.capacity

  pub get-place :
      (cb : CircularBuffer A) (i : ℕ)
      → IsBuffer cb
      → i ≤ cb.capacity
      → get cb i ≡ cb.b (place cb.capacity (cb.begin % cb.capacity) i)
  unfolding get
  get-place cb i v l = ap cb.b (add-place cb.capacity v.pos v.fits v.below cb.begin i l)

  -- Places that are counted from that of item `i`.
  module _ (cb : CircularBuffer A) (v : IsBuffer cb) (i : ℕ) (inner : i ≤ cb.capacity) where
    item-place : add cb.begin i % cb.capacity ≡ place cb.capacity (cb.begin % cb.capacity) i
    item-place = add-place cb.capacity v.pos v.fits v.below cb.begin i (omega (arith, inner))

    pub from_before :
        (x y : ℕ)
        → x < cb.capacity
        → y < cb.capacity
        → x + cb.capacity ≡ i + y
        → x < i
        → place cb.capacity (cb.begin % cb.capacity) x
          ≡ place cb.capacity (add cb.begin i % cb.capacity) y
    from_before x y p q e l =
        sym (
          place_before cb.capacity (cb.begin % cb.capacity) i y x (mod-lt cb.begin v.pos)
            (omega (arith, inner)) l e)
        ∙ ap (λ j. place cb.capacity j y) (sym item-place)

    pub from_on :
        (x y : ℕ)
        → x < cb.capacity
        → y < cb.capacity
        → x ≡ i + y
        → place cb.capacity (cb.begin % cb.capacity) x
          ≡ place cb.capacity (add cb.begin i % cb.capacity) y
    from_on x y p q e =
        sym (
          place_shift cb.capacity (cb.begin % cb.capacity) i y x (mod-lt cb.begin v.pos)
            (omega (arith, e, p)) q p (omega (arith, e)))
        ∙ ap (λ j. place cb.capacity j y) (sym item-place)
