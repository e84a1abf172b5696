-- ===== src/Page/Memory/Orders.antt =====
-- The number of pages that page_alloc takes for a number of bytes, and the order of its block.
use apex.Base.{
  ℕ, zero, suc, ◌+◌, ◌-◌, ◌*◌, ◌/◌, ◌%◌, ◌^◌, ◌≤◌, ◌<◌, ◌≡◌, refl, sym, subst, leb, ◌==◌, arith,
  Bool-cases, inl, inr, ==_iff,
}
use native.Mathlib.Nat.{
  two-pow-succ, mul-le-mul_right, le-div_iff_mul-le, div-mul-le_self, lt-div-mul-add, mod-add-div',
  le_trans, pow-le-pow_right, one-mul, le_of_mul-le-mul_right, lt_of_mul-lt-mul_right, mul_assoc,
}
use apex.Page.Regions.{floor_log2}
use apex.Page.Regions.States.{two_pow_pos}
use apex.Page.Regions.Freeing.{two_pow_add, pow-le-inv, floor_log2-le}
use apex.Page.Memory.Ptr.{page_align, ceil_log2}

floor_log2-lt : (fuel n : ℕ) → n ≤ fuel → n < 2 ^ suc (floor_log2 fuel n)
unfolding floor_log2
floor_log2-lt zero n l = omega (arith, l, two_pow_pos 1)
floor_log2-lt (suc fuel) n l = elim (Bool-cases (leb n 1)) [
  | inl one ↦ rw one (let e : 2 ^ 1 ≡ 2 = refl in ground (arith, one))
  | inr more ↦ rw more (
      rw (two-pow-succ (suc (floor_log2 fuel (n / 2))))
        (omega (arith, floor_log2-lt fuel (n / 2) (ground arith))))
]

pub floor_log2-pow : (s : ℕ) → floor_log2 (2 ^ s) (2 ^ s) ≡ s
floor_log2-pow s =
    let f = floor_log2 (2 ^ s) (2 ^ s) in
    let low = pow-le-inv f s (floor_log2-le (2 ^ s) (2 ^ s) (two_pow_pos s) (omega arith)) in
    let above = floor_log2-lt (2 ^ s) (2 ^ s) (omega arith) in
    elim (Bool-cases (leb s f)) [
      | inl fine ↦ ground arith
      | inr beyond ↦ absurd (
          let up : 2 ^ suc f ≤ 2 ^ s = pow-le-pow_right (omega arith) (ground arith) in
          omega (arith, up, above))
    ]

-- The least power of two that is not less.
pub ceil_log2-bounds : (n : ℕ) → 0 < n → (n ≤ 2 ^ ceil_log2 n) × (2 ^ ceil_log2 n < 2 * n)
unfolding ceil_log2
ceil_log2-bounds n p =
    let f = floor_log2 n n in
    let low = floor_log2-le n n p (omega arith) in
    let high = floor_log2-lt n n (omega arith) in
    elim (Bool-cases (2 ^ f == n)) [
      | inl single ↦
          let e = (==_iff (2 ^ f) n).0 single in
          let g : f + 1 - 1 ≡ f = omega arith in
          rw (single, g) (omega (arith, e), omega (arith, e, p))
      | inr more ↦
          let g : f + 1 ≡ suc f = omega arith in
          rw (more, g) (omega (arith, high), rw (two-pow-succ f) (ground (arith, low, more)))
    ]

pub le-pages : (page_size n : ℕ) → 0 < n → page_size ≤ n * page_size
le-pages page_size n p =
    subst (λ x. x ≤ n * page_size) (one-mul page_size) (mul-le-mul_right page_size p)

-- The pages that a number of bytes takes.
abbrev pub pages_for : ℕ → ℕ → ℕ
pages_for page_size len = (len + (page_size - 1)) / page_size

abbrev pub order_for : ℕ → ℕ → ℕ
order_for page_size len = ceil_log2 (page_align page_size len) - floor_log2 page_size page_size

module _ (page_size len : ℕ) (some_size : 0 < page_size) (short : len + page_size ≤ 2 ^ 32) where
  pub page_align-pages_for : page_align page_size len ≡ pages_for page_size len * page_size
  unfolding page_align
  page_align-pages_for =
      let top = len + (page_size - 1) in
      let e : top % 2 ^ 32 ≡ top = omega (arith, short, some_size) in
      rw e (omega (arith, mod-add-div' top page_size))

  -- Enough pages, and no more than that.
  pub pages_for-bounds :
      (len ≤ pages_for page_size len * page_size)
      × (pages_for page_size len * page_size < len + page_size)
  pages_for-bounds =
      let top = len + (page_size - 1) in
      let low = div-mul-le_self top page_size in
      let high = lt-div-mul-add {a = top} {b = page_size} some_size in
      (omega (arith, high, some_size), omega (arith, low, some_size))

  pub pages_for_pos : 0 < len → 0 < pages_for page_size len
  pages_for_pos bytes =
      (le-div_iff_mul-le {k = page_size} {x = 1} {y = len + (page_size - 1)} some_size).1
        (rw (one-mul page_size) (omega (arith, bytes, some_size)))

  -- The block of that order is the smallest that holds the pages.
  pub order_for-bounds :
      (s : ℕ)
      → page_size ≡ 2 ^ s
      → 0 < len
      → (pages_for page_size len ≤ 2 ^ order_for page_size len)
        × (2 ^ order_for page_size len < 2 * pages_for page_size len)
  order_for-bounds s power bytes =
      let n = pages_for page_size len in
      let c = ceil_log2 (n * page_size) in
      let log : floor_log2 page_size page_size ≡ s = rw power (floor_log2-pow s) in
      let order : order_for page_size len ≡ c - s = rw (page_align-pages_for, log) refl in
      let some_pages = pages_for_pos bytes in
      let whole = le-pages page_size n some_pages in
      let (enough, least) = ceil_log2-bounds (n * page_size) (omega (arith, whole, some_size)) in
      let large : s ≤ c = pow-le-inv s c (subst (λ x. x ≤ 2 ^ c) power (le_trans whole enough)) in
      let split : 2 ^ (c - s) * page_size ≡ 2 ^ c =
        subst (λ p. 2 ^ (c - s) * p ≡ 2 ^ c) (sym power)
          (two_pow_add s (c - s) c (omega (arith, large))) in
      rw order (
        le_of_mul-le-mul_right {m = n} {n = 2 ^ (c - s)} {k = page_size}
            (omega (arith, enough, split)) some_size,
        lt_of_mul-lt-mul_right page_size {m = 2 ^ (c - s)} {n = 2 * n}
            (omega (arith, least, split, mul_assoc 2 n page_size)),
      )
