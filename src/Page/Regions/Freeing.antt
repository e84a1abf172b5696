-- ===== src/Page/Regions/Freeing.antt =====
-- Freeing a block, and freeing a range of pages block by block.
use apex.Base.{
  ℕ, zero, suc, ◌+◌, ◌-◌, ◌*◌, ◌/◌, ◌%◌, ◌^◌, min, ◌≤◌, ◌<◌, ◌≡◌, refl, sym, ap, ◌∙◌, true, false,
  ◌&&◌, ◌==◌, if◌then◌else◌, ltb, leb, arith, none, some, Bool-cases, inl, inr, ==_iff,
}
use native.Mathlib.Nat.{
  div-lt_iff_lt-mul, mul-div_cancel, pow-le-pow_right, pow-zero, pow-suc, pow-succ', mul_assoc,
  mul-one, div-one, zero-div, zero-mul, le_trans, div-div-eq-div-mul, two-pow-succ,
}
use apex.Page.{free, Region, block_free, first_page_in_block}
use apex.Page.Buddy.Cover.{above, covered, covered-above, free-covered}
use apex.Page.Buddy.Apart.{IsOwned}
use apex.Page.Free.{in_list, is_free, IsBlock, in_block, above-div, block_free-IsBuddy}
use apex.Page.Regions.{set_pages, free_block, countr_zero, floor_log2, page_to_max_order, free_loop}
use apex.Page.Regions.States.{
  SamePlace, IsRegion, Freed, is_free_state, info_of, two_pow_pos, in_block-range, block_pages,
  covered-is_free, relabel-IsBuddy,
}

pub two_pow_add : (o k m : ℕ) → o + k ≡ m → 2 ^ k * 2 ^ o ≡ 2 ^ m
two_pow_add zero k m e = rw (pow-zero, mul-one) (ap (λ x. 2 ^ x) (omega (arith, e)))
two_pow_add (suc o) k zero e = absurd (omega arith)
two_pow_add (suc o) k (suc m) e =
    rw (pow-suc 2 o, pow-suc 2 m, sym (mul_assoc (2 ^ k) (2 ^ o) 2))
      (ap (λ x. x * 2) (two_pow_add o k m (omega arith)))

pub above-above : (i d o q : ℕ) → i + d ≡ o → above o q ≡ above d (above i q)
unfolding above
above-above zero d o q e = let same : o ≡ d = omega (arith, e) in rw same refl
above-above (suc i) d zero q e = absurd (omega arith)
above-above (suc i) d (suc o) q e = above-above i d o (q / 2) (omega arith)

above-first : (i b : ℕ) → above i (b * 2 ^ i) ≡ b
above-first i b = above-div i (b * 2 ^ i) ∙ mul-div_cancel b (two_pow_pos i)

-- The pages of a block of the region are pages of the region.
pub block-lt-nr_pages :
    (r : Region) (page o k q : ℕ)
    → IsBlock r page o k
    → r.nr_pages ≡ 2 ^ (r.nr_orders - 1)
    → in_block page o q ≡ true
    → q < r.nr_pages
block-lt-nr_pages r page o k q b sized inside =
    let same = (==_iff (q / 2 ^ o) (page / 2 ^ o)).0 inside in
    let low : q / 2 ^ o < 2 ^ k = rw same b.inside in
    let below = (div-lt_iff_lt-mul {k = 2 ^ o} {x = q} {y = 2 ^ k} (two_pow_pos o)).0 low in
    omega (arith, below, sized, two_pow_add o k (r.nr_orders - 1) (omega (arith, b.level)))

module _ (page_size : ℕ) (r : Region) (page o k : ℕ) (b : IsBlock r page o k) (v : IsRegion r)
    (held : (q : ℕ) → in_block page o q ≡ true → is_free_state (r.pages q).state ≡ false) where
  not_free : (q : ℕ) → in_block page o q ≡ true → is_free r q ≡ false
  not_free q inside = ground (arith, v.states q, held q inside)

  held-IsOwned : IsOwned k o (page / 2 ^ o) (in_list r)
  held-IsOwned = record {
    uncovered = elim (Bool-cases (covered (in_list r) k o (page / 2 ^ o))) [
      | inl c ↦ absurd (
          let f = covered-is_free r page o k b c page (ground arith) in
          let n = not_free page (ground arith) in cc)
      | inr n ↦ n
    ];
    below = λ d o' b' e up. elim (Bool-cases (in_list r o' b')) [
      | inr n ↦ n
      | inl listed ↦ absurd (
          let q = b' * 2 ^ o' in
          let place : q / 2 ^ o ≡ page / 2 ^ o =
            sym (above-div o q) ∙ above-above o' d o q e ∙ ap (above d) (above-first o' b') ∙ up in
          let found =
            covered-above (in_list r) o' o' (d + k) (r.nr_orders - 1) 0 q (omega arith)
              (omega (arith, e, b.level))
              (rw (above-first o' b') (free-covered (in_list r) (d + k) o' b' listed)) in
          let held_there = not_free q ((==_iff _ _).1 place) in cc)
    ];
  }

  -- Freeing a block of which no page is free: its pages are free, no other page changes, and the
  -- region's invariant holds.
  pub free_block-Freed : Freed r page o (free_block page_size r page o)
  unfolding free_block
  free_block-Freed =
      let info = info_of free none in
      let r₁ = record r {
        pages = set_pages (2 ^ o) page info r.pages;
        free_bytes = r.free_bytes + page_size * 2 ^ o;
      } in
      let (buddy, frame, frees) =
        block_free-IsBuddy r₁ page o k
          (record { level = b.level; inside = b.inside; aligned = b.aligned })
          (relabel-IsBuddy r _ _ _ v.buddy) held-IsOwned in
      let r' = block_free r₁ page o in
      let orders : r'.nr_orders ≡ r.nr_orders = ap (λ (x : Region). x.nr_orders) frame in
      let size : r'.nr_pages ≡ r.nr_pages = ap (λ (x : Region). x.nr_pages) frame in
      let pages =
        block_pages r' page o info r.pages b.aligned (ap (λ (x : Region). x.pages) frame) in
      record {
        valid = record {
          buddy = buddy;
          some_order = rw orders v.some_order;
          sized = size ∙ v.sized ∙ ap (λ n. 2 ^ (n - 1)) (sym orders);
          states = λ q.
              frees q
              ∙ rw (size, pages q)
                  (ground (arith, v.states q, block-lt-nr_pages r page o k q b v.sized));
        };
        same = (size, orders);
        place = (
          ap (λ (x : Region). x.base) frame,
          ap (λ (x : Region). x.first_addr) frame,
          ap (λ (x : Region). x.end_addr) frame,
          ap (λ (x : Region). x.size) frame,
        );
        pages = pages;
      }

-- Trailing zeros say how far a page is aligned.
countr_zero-aligned :
    (fuel page o : ℕ)
    → 0 < page
    → page ≤ fuel
    → o ≤ countr_zero fuel page
    → page / 2 ^ o * 2 ^ o ≡ page
unfolding countr_zero
countr_zero-aligned fuel page zero p l h = rw (pow-zero, mul-one, div-one) refl
countr_zero-aligned zero page (suc o) p l h = absurd (omega arith)
countr_zero-aligned (suc fuel) page (suc o) p l h =
    let even : page % 2 ≡ 0 = ground arith in
    let ih =
      countr_zero-aligned fuel (page / 2) o (omega (arith, even)) (omega arith) (ground arith) in
    let halves : page / 2 ^ suc o ≡ page / 2 / 2 ^ o =
      ap (λ x. page / x) (pow-succ' 2 o) ∙ sym (div-div-eq-div-mul page 2 (2 ^ o)) in
    rw (halves, pow-suc 2 o, sym (mul_assoc (page / 2 / 2 ^ o) (2 ^ o) 2), ih) (omega (arith, even))

pub floor_log2-le : (fuel n : ℕ) → 0 < n → n ≤ fuel → 2 ^ floor_log2 fuel n ≤ n
unfolding floor_log2
floor_log2-le zero n p l = absurd (omega arith)
floor_log2-le (suc fuel) n p l = elim (Bool-cases (leb n 1)) [
  | inl one ↦ rw one (rw pow-zero p)
  | inr more ↦ rw more (
      rw (two-pow-succ (floor_log2 fuel (n / 2)))
        (omega (arith, floor_log2-le fuel (n / 2) (ground arith) (ground arith))))
]

pub pow-le-inv : (o m : ℕ) → 2 ^ o ≤ 2 ^ m → o ≤ m
pow-le-inv o m h = elim (Bool-cases (leb o m)) [
  | inl fine ↦ ground arith
  | inr beyond ↦ absurd (
      let double : 2 ^ suc m ≤ 2 ^ o = pow-le-pow_right (omega arith) (ground arith) in
      omega (arith, double, two-pow-succ m, two_pow_pos m, h))
]

-- The order of the next block of a range.
abbrev next_order : Region → ℕ → ℕ → ℕ
next_order r i end_page = min (page_to_max_order r i) (floor_log2 (end_page - i) (end_page - i))

module _ (r : Region) (i end_page : ℕ) (v : IsRegion r) (some_left : i < end_page)
    (fits : end_page ≤ r.nr_pages) where
  next-le : 2 ^ next_order r i end_page ≤ end_page - i
  next-le =
      le_trans (pow-le-pow_right {n = 2} (omega arith) (omega arith))
        (floor_log2-le (end_page - i) (end_page - i) (omega arith) (omega arith))

  next_order-le : next_order r i end_page ≤ r.nr_orders - 1
  next_order-le =
      pow-le-inv (next_order r i end_page) (r.nr_orders - 1) (omega (arith, next-le, v.sized, fits))

  next-aligned : first_page_in_block i (next_order r i end_page) ≡ i
  unfolding first_page_in_block page_to_max_order
  next-aligned = elim (Bool-cases (i == 0)) [
    | inl first ↦ rw ((==_iff i 0).0 first, zero-div, zero-mul) refl
    | inr later ↦
        countr_zero-aligned i i (next_order r i end_page) (ground arith) (omega arith)
          (rw later (omega arith))
  ]

  next-IsBlock : IsBlock r i (next_order r i end_page) (r.nr_orders - 1 - next_order r i end_page)
  next-IsBlock = record {
    level = omega (arith, next_order-le, v.some_order);
    inside = (div-lt_iff_lt-mul {k = 2 ^ next_order r i end_page} {x = i} (two_pow_pos _)).1 (
        omega (
          arith,
          two_pow_add (next_order r i end_page) (r.nr_orders - 1 - next_order r i end_page)
              (r.nr_orders - 1) (omega (arith, next_order-le)),
          v.sized,
          fits,
        ));
    aligned = next-aligned;
  }

-- What freeing the pages from `i` up to `end_page` promises.
pub record FreedRange (r : Region) (i end_page : ℕ) (r' : Region) : Type 0 where
  pub valid : IsRegion r'
  pub same : (r'.nr_pages ≡ r.nr_pages) × (r'.nr_orders ≡ r.nr_orders)
  pub place : SamePlace r r'
  pub pages :
      (q : ℕ)
      → r'.pages q
        ≡ (if leb i q && ltb q end_page then record { state = free; owner = none } else r.pages q)

-- One block, then the rest of the range.
FreedRange-step :
    (r r₁ r₂ : Region) (i o end_page : ℕ)
    → first_page_in_block i o ≡ i
    → i + 2 ^ o ≤ end_page
    → Freed r i o r₁
    → FreedRange r₁ (i + 2 ^ o) end_page r₂
    → FreedRange r i end_page r₂
FreedRange-step r r₁ r₂ i o end_page aligned fits f g = record {
  valid = g.valid;
  same = (g.same.0 ∙ f.same.0, g.same.1 ∙ f.same.1);
  place =
      (g.place.0 ∙ f.place.0, g.place.1 ∙ f.place.1, g.place.2 ∙ f.place.2, g.place.3 ∙ f.place.3);
  pages =
      λ q. g.pages q ∙ rw (f.pages q, in_block-range i o q aligned) (ground (arith, two_pow_pos o));
}

-- The loop of page_free ends, with fuel for one round more than there are pages, and frees exactly
-- the pages of the range, if they lie in the region and none of them is free.
pub free_loop-FreedRange :
    (page_size fuel i end_page : ℕ) (r : Region)
    → IsRegion r
    → i ≤ end_page
    → end_page ≤ r.nr_pages
    → end_page - i < fuel
    → ((q : ℕ) → i ≤ q → q < end_page → is_free_state (r.pages q).state ≡ false)
    → (r' : Region) × (free_loop page_size fuel i end_page r ≡ some r') × FreedRange r i end_page r'
unfolding free_loop
free_loop-FreedRange page_size zero i end_page r v low fits enough held = absurd (omega arith)
free_loop-FreedRange page_size (suc fuel) i end_page r v low fits enough held =
    elim (Bool-cases (i == end_page)) [
      | inl done ↦ (
        r,
        rw done refl,
        record {
          valid = v;
          same = (refl, refl);
          place = (refl, refl, refl, refl);
          pages = λ q. ground arith;
        },
      )
      | inr more ↦
          let left : i < end_page = ground arith in
          let o = next_order r i end_page in
          let some_pages = next-le r i end_page v left fits in
          let b = next-IsBlock r i end_page v left fits in
          let f = free_block-Freed page_size r i o _ b v (λ q inside.
            let range = sym (in_block-range i o q b.aligned) ∙ inside in
            held q (ground arith) (ground (arith, some_pages))) in
          let r₁ = free_block page_size r i o in
          let (r', e, g) =
            free_loop-FreedRange page_size fuel (i + 2 ^ o) end_page r₁ f.valid
              (omega (arith, some_pages, left)) (rw f.same.0 fits)
              (omega (arith, some_pages, left, two_pow_pos o))
              (λ q l u. rw (f.pages q, in_block-range i o q b.aligned) (ground (arith, held q))) in
          (
            r',
            rw more e,
            FreedRange-step r r₁ r' i o end_page b.aligned (omega (arith, some_pages, left)) f g,
          )
    ]
