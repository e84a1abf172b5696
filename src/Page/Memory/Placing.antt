-- ===== src/Page/Memory/Placing.antt =====
-- Where page_init puts a region: the powers of two around its memory.
use apex.Base.{
  ℕ, suc, ◌+◌, ◌-◌, ◌*◌, ◌/◌, ◌%◌, ◌^◌, ◌≤◌, ◌<◌, ◌≡◌, sym, ap, subst, ◌∙◌, leb, arith, Bool-cases,
  inl, inr,
}
use native.Mathlib.Nat.{
  mod-add-div', mul_assoc, add-mul, lt_of_mul-lt-mul_right, le_of_mul-le-mul_right, two-pow-succ,
  pow-le-pow_right, lt-div-mul-add, div-mul-le_self, mul-le-mul_right,
}
use apex.Page.Regions.States.{two_pow_pos}
use apex.Page.Regions.Freeing.{two_pow_add, pow-le-inv}
use apex.Page.Memory.Ptr.{ceil_log2}
use apex.Page.Memory.Orders.{ceil_log2-bounds, le-pages}
use apex.Page.Memory.Init.{align_to, trunc_to}

pub trunc_to-mul : (n unit : ℕ) → trunc_to n unit ≡ n / unit * unit
unfolding trunc_to
trunc_to-mul n unit = omega (arith, mod-add-div' n unit)

pub align_to-mul :
    (n unit : ℕ) → 0 < unit → n + unit ≤ 2 ^ 32 → align_to n unit ≡ (n + (unit - 1)) / unit * unit
unfolding align_to
align_to-mul n unit p l =
    let top = n + (unit - 1) in
    let e : top % 2 ^ 32 ≡ top = omega (arith, l, p) in rw e (omega (arith, mod-add-div' top unit))

-- Memory of `n` pages from page `x`, so many that the space around it still lies below 2^32.
module _ (page_size s attr x n : ℕ) (power : page_size ≡ 2 ^ s) (some_pages : 0 < n)
    (short : x * page_size + 4 * (n * page_size) ≤ 2 ^ 32) where
  abbrev begin : ℕ
  begin = x * page_size

  abbrev extent : ℕ
  extent = n * page_size

  abbrev unit : ℕ
  unit = 2 ^ ceil_log2 extent

  pub some_size : 0 < page_size
  some_size = subst (λ p. 0 < p) (sym power) (two_pow_pos s)

  pub whole : page_size ≤ extent
  whole = le-pages page_size n some_pages

  pub unit-bounds : (extent ≤ unit) × (unit < 2 * extent)
  unit-bounds = ceil_log2-bounds extent (omega (arith, whole, some_size))

  -- A power of two that holds a page is a number of pages.
  pow-pages : (c : ℕ) → page_size ≤ 2 ^ c → 2 ^ (c - s) * page_size ≡ 2 ^ c
  pow-pages c l =
      let large = pow-le-inv s c (subst (λ p. p ≤ 2 ^ c) power l) in
      subst (λ p. 2 ^ (c - s) * p ≡ 2 ^ c) (sym power)
        (two_pow_add s (c - s) c (omega (arith, large)))

  -- The pages before the region, and the page of its base.
  abbrev pub lead : ℕ
  lead = begin / unit * 2 ^ (ceil_log2 extent - s)

  pub lead-pages : lead * page_size ≡ begin / unit * unit
  lead-pages =
      mul_assoc (begin / unit) (2 ^ (ceil_log2 extent - s)) page_size
      ∙ ap (λ u. begin / unit * u)
          (pow-pages (ceil_log2 extent) (omega (arith, whole, unit-bounds.0)))

  pub lead-le : lead ≤ x
  lead-le =
      le_of_mul-le-mul_right {m = lead} {n = x} {k = page_size}
        (omega (arith, lead-pages, div-mul-le_self begin unit)) some_size

  abbrev pub span : ℕ
  span = (begin + extent + (unit - 1)) / unit * unit - begin / unit * unit

  pub span-bounds : (begin + extent ≤ begin / unit * unit + span) × (span ≤ 2 * unit)
  span-bounds =
      let top = begin + extent + (unit - 1) in
      let pos = two_pow_pos (ceil_log2 extent) in
      let t₁ = div-mul-le_self top unit in
      let t₂ = lt-div-mul-add {a = top} {b = unit} pos in
      let b₁ = div-mul-le_self begin unit in
      let b₂ = lt-div-mul-add {a = begin} {b = unit} pos in
      let three = add-mul (begin / unit) 3 unit in
      let near : top / unit < begin / unit + 3 =
        lt_of_mul-lt-mul_right unit {m = top / unit} {n = begin / unit + 3}
          (omega (arith, t₁, b₂, three, unit-bounds.0, pos)) in
      let steps : top / unit * unit ≤ (begin / unit + 2) * unit =
        mul-le-mul_right unit (omega (arith, near)) in
      (omega (arith, t₂, b₁), omega (arith, steps, add-mul (begin / unit) 2 unit))

  abbrev pub max_order : ℕ
  max_order = ceil_log2 span

  abbrev pub number : ℕ
  number = 2 ^ (max_order - s)

  pub span_pos : extent ≤ span
  span_pos = omega (arith, span-bounds.0, div-mul-le_self begin unit)

  pub number-pages : number * page_size ≡ 2 ^ max_order
  number-pages =
      let (enough, least) = ceil_log2-bounds span (omega (arith, span_pos, whole, some_size)) in
      pow-pages max_order (omega (arith, enough, span_pos, whole))

  -- The pages cover the memory, and end within the address space.
  pub number-bounds :
      (begin + extent ≤ begin / unit * unit + number * page_size) × (number * page_size ≤ 2 * unit)
  number-bounds =
      let (enough, least) = ceil_log2-bounds span (omega (arith, span_pos, whole, some_size)) in
      let c = ceil_log2 extent in
      let double = two-pow-succ c in
      let quad = two-pow-succ (suc c) in
      let order : max_order ≤ suc c = elim (Bool-cases (leb max_order (suc c))) [
        | inl fine ↦ ground arith
        | inr beyond ↦ absurd (
            let up : 2 ^ suc (suc c) ≤ 2 ^ max_order =
              pow-le-pow_right (omega arith) (ground arith) in
            omega (arith, up, least, span-bounds.1, double, quad))
      ] in
      let below : 2 ^ max_order ≤ 2 ^ suc c = pow-le-pow_right (omega arith) order in
      (
        omega (arith, number-pages, span-bounds.0, enough),
        omega (arith, number-pages, below, double),
      )
