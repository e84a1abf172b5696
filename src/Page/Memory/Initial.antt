-- ===== src/Page/Memory/Initial.antt =====
-- What page_init makes of one region.
use apex.Base.{
  ℕ, suc, ◌+◌, ◌-◌, ◌*◌, ◌/◌, ◌%◌, ◌^◌, ◌≤◌, ◌<◌, ◌≡◌, refl, sym, ap, subst, ◌∙◌, false, ◌&&◌, some,
  ltb, leb, ◌==◌, arith, Bool-cases, inl, inr,
}
use native.Mathlib.Nat.{
  add-mul, div-lt_iff_lt-mul, le-div_iff_mul-le, suc-mul, le_of_mul-le-mul_right, mul-le-mul_right,
  div-mul-le_self, lt-div-mul-add,
}
use apex.Page.{Region}
use apex.Page.Regions.{floor_log2, page_addr}
use apex.Page.Regions.States.{IsRegion, two_pow_pos, is_free_state}
use apex.Page.Memory.Ptr.{page_align, ceil_log2}
use apex.Page.Memory.Orders.{floor_log2-pow, pages_for, page_align-pages_for, pages_for-bounds}
use apex.Page.Memory.Init.{MemInfo, align_to, trunc_to, fresh, reserve_holes, init_region}
use apex.Page.Memory.Fresh.{IsWhole, fresh-IsRegion}
use apex.Page.Memory.Holes.{HasMemory, reserve_holes-HasMemory}
use apex.Page.Memory.Placing.{
  trunc_to-mul, align_to-mul, some_size, whole, unit-bounds, lead, lead-pages, lead-le, span,
  span-bounds, number, number-bounds, max_order,
}

module _ (page_size s attr x n : ℕ) (power : page_size ≡ 2 ^ s) (some_pages : 0 < n)
    (short : x * page_size + 4 * (n * page_size) ≤ 2 ^ 32) where
  abbrev region : Region
  region = fresh page_size attr (x * page_size) (x * page_size + n * page_size) (n * page_size)

  abbrev unit : ℕ
  unit = 2 ^ ceil_log2 (n * page_size)

  fresh_span :
      (align_to (x * page_size + n * page_size) unit + (2 ^ 32 - trunc_to (x * page_size) unit))
        % 2 ^ 32
      ≡ span page_size s attr x n power some_pages short
  fresh_span =
      let pos = two_pow_pos (ceil_log2 (n * page_size)) in
      let near = unit-bounds page_size s attr x n power some_pages short in
      let bounds = span-bounds page_size s attr x n power some_pages short in
      let up =
        align_to-mul (x * page_size + n * page_size) unit pos (omega (arith, near.1, short)) in
      let down = trunc_to-mul (x * page_size) unit in
      rw (up, down)
        (omega (
          arith,
          bounds.0,
          bounds.1,
          near.1,
          short,
          whole page_size s attr x n power some_pages short,
          some_size page_size s attr x n power some_pages short,
        ))

  fresh_base : region.base ≡ x * page_size / unit * unit
  unfolding fresh
  fresh_base = trunc_to-mul (x * page_size) unit

  fresh_number : region.nr_pages ≡ number page_size s attr x n power some_pages short
  unfolding fresh
  fresh_number =
      let log : floor_log2 page_size page_size ≡ s = rw power (floor_log2-pow s) in
      let max = max_order page_size s attr x n power some_pages short in
      let e : max - floor_log2 page_size page_size + 1 - 1 ≡ max - s = omega (arith, log) in
      ap (λ y. 2 ^ (ceil_log2 y - floor_log2 page_size page_size + 1 - 1)) fresh_span
      ∙ ap (λ o. 2 ^ o) e

  fresh-IsWhole : IsWhole region
  unfolding fresh
  fresh-IsWhole = record {
    some_order = omega arith;
    sized = refl;
    pages = λ q. refl;
    blocks = λ o. refl;
    bitmap = λ i. refl;
  }

  fresh_size : region.size ≡ region.nr_pages * page_size
  unfolding fresh
  fresh_size = refl

  fresh_first : region.first_addr ≡ x * page_size
  unfolding fresh
  fresh_first = refl

  fresh_end : region.end_addr ≡ x * page_size + n * page_size
  unfolding fresh
  fresh_end = refl

  abbrev before : ℕ
  before = lead page_size s attr x n power some_pages short

  abbrev first : ℕ
  first = x - before

  fresh_page : (y : ℕ) → x ≤ y → page_addr page_size region (y - before) ≡ y * page_size
  unfolding page_addr
  fresh_page y l =
      let le = lead-le page_size s attr x n power some_pages short in
      let split : y * page_size ≡ (y - before) * page_size + before * page_size =
        ap (λ p. p * page_size) (omega (arith, le, l)) ∙ add-mul (y - before) before page_size in
      omega (arith, split, fresh_base, lead-pages page_size s attr x n power some_pages short)

  -- The pages of the region, in addresses.
  fresh_pages :
      (first * page_size ≡ x * page_size - region.base)
      × (region.base ≤ x * page_size)
      × (x * page_size + n * page_size ≤ region.base + region.nr_pages * page_size)
      × (region.base + region.nr_pages * page_size ≤ 2 ^ 32)
  fresh_pages =
      let le = lead-le page_size s attr x n power some_pages short in
      let near = unit-bounds page_size s attr x n power some_pages short in
      let (cover, twice) = number-bounds page_size s attr x n power some_pages short in
      let split : x * page_size ≡ first * page_size + before * page_size =
        ap (λ p. p * page_size) (omega (arith, le)) ∙ add-mul first before page_size in
      let lead = lead-pages page_size s attr x n power some_pages short in
      let low = div-mul-le_self (x * page_size) unit in
      (
        omega (arith, split, fresh_base, lead),
        omega (arith, fresh_base, low),
        rw (fresh_base, fresh_number) cover,
        rw (fresh_base, fresh_number) (omega (arith, twice, near.1, low, short)),
      )

  fresh-HasMemory :
      (r' : Region) × (reserve_holes page_size region ≡ some r')
      × HasMemory page_size
          (some_size page_size s attr x n power some_pages short)
          region
          first
          (first + n)
          r'
  fresh-HasMemory =
      let le = lead-le page_size s attr x n power some_pages short in
      let pos = some_size page_size s attr x n power some_pages short in
      let (here, low, cover, below) = fresh_pages in
      let at_end : page_addr page_size region (first + n) ≡ x * page_size + n * page_size =
        ap (λ y. page_addr page_size region y) (omega (arith, le))
        ∙ fresh_page (x + n) (omega arith)
        ∙ add-mul x n page_size in
      let fits : first + n ≤ region.nr_pages =
        le_of_mul-le-mul_right {m = first + n} {n = region.nr_pages} {k = page_size}
          (omega (arith, here, low, cover, add-mul first n page_size)) pos in
      reserve_holes-HasMemory page_size pos region first (first + n)
        (fresh-IsRegion region fresh-IsWhole)
        (λ q. ap (λ p. is_free_state p.state) (fresh-IsWhole.pages q)) (omega (arith, some_pages))
        fits (fresh_first ∙ sym (fresh_page x (omega arith))) (fresh_end ∙ sym at_end) fresh_size
        (rw fresh_size below)

leb-mul : (k a b : ℕ) → 0 < k → leb (a * k) (b * k) ≡ leb a b
leb-mul k a b p = elim (Bool-cases (leb a b)) [
  | inl fine ↦ ground (arith, fine, mul-le-mul_right {m = a} {n = b} k (ground (arith, fine)))
  | inr beyond ↦ elim (Bool-cases (leb (a * k) (b * k))) [
    | inr more ↦ more ∙ sym beyond
    | inl le ↦ absurd (
        let back = le_of_mul-le-mul_right {m = a} {n = b} {k = k} (ground (arith, le)) p in
        ground (arith, back, beyond))
  ]
]

-- A region as page_init leaves it: its memory is that which is given, less what does not fill a
-- page, it is valid, and its pages are free exactly where they have memory.
pub record Initialised (page_size : ℕ) (mi : MemInfo) (r : Region) : Type 0 where
  pub valid : IsRegion r
  pub begins : (mi.base ≤ r.first_addr) × (r.first_addr < mi.base + page_size)
  pub ends : (r.end_addr ≤ mi.base + mi.size) × (mi.base + mi.size < r.end_addr + page_size)
  pub covers : (r.base ≤ r.first_addr) × (r.end_addr ≤ r.base + r.nr_pages * page_size)
  pub pages :
      (q : ℕ)
      → q < r.nr_pages
      → is_free_state (r.pages q).state ≡ (
          leb r.first_addr (page_addr page_size r q)
          && leb (page_addr page_size r q + page_size) r.end_addr)

module _ (page_size s : ℕ) (mi : MemInfo) (page : ℕ) (power : page_size ≡ 2 ^ s)
    (low : mi.base ≤ page * page_size) (high : suc page * page_size ≤ mi.base + mi.size)
    (short : mi.base + 4 * mi.size ≤ 2 ^ 32) where
  size_pos : 0 < page_size
  size_pos = subst (λ p. 0 < p) (sym power) (two_pow_pos s)

  abbrev x : ℕ
  x = pages_for page_size mi.base

  abbrev y : ℕ
  y = (mi.base + mi.size) / page_size

  page_fits : mi.base + page_size ≤ 2 ^ 32
  page_fits = omega (arith, low, high, short, suc-mul page page_size)

  order : x < y
  order =
      let top = mi.base + (page_size - 1) in
      let below =
        (div-lt_iff_lt-mul {k = page_size} {x = top} {y = suc page} size_pos).1
          (omega (arith, low, suc-mul page page_size, size_pos)) in
      let above =
        (le-div_iff_mul-le {k = page_size} {x = suc page} {y = mi.base + mi.size} size_pos).1
          high in
      omega (arith, below, above)

  begin-pages : page_align page_size mi.base ≡ x * page_size
  begin-pages = page_align-pages_for page_size mi.base size_pos page_fits

  abbrev n : ℕ
  n = y - x

  sum : y * page_size ≡ x * page_size + n * page_size
  sum = ap (λ p. p * page_size) (omega (arith, order)) ∙ add-mul x n page_size

  end-pages : trunc_to ((mi.base + mi.size) % 2 ^ 32) page_size ≡ x * page_size + n * page_size
  end-pages =
      let small : (mi.base + mi.size) % 2 ^ 32 ≡ mi.base + mi.size =
        omega (arith, short, high, low, suc-mul page page_size, size_pos) in
      rw small (trunc_to-mul (mi.base + mi.size) page_size ∙ sum)

  memory-bounds :
      (mi.base ≤ x * page_size)
      × (x * page_size < mi.base + page_size)
      × (y * page_size ≤ mi.base + mi.size)
      × (mi.base + mi.size < y * page_size + page_size)
  memory-bounds =
      let b = pages_for-bounds page_size mi.base size_pos page_fits in
      (
        b.0,
        b.1,
        div-mul-le_self (mi.base + mi.size) page_size,
        lt-div-mul-add {a = mi.base + mi.size} {b = page_size} size_pos,
      )

  room : x * page_size + 4 * (n * page_size) ≤ 2 ^ 32
  room = omega (arith, memory-bounds.0, memory-bounds.2, sum, short)

  extent-pages : (x * page_size + n * page_size + (2 ^ 32 - x * page_size)) % 2 ^ 32 ≡ n * page_size
  extent-pages =
      let some = whole page_size s mi.attr x n power (omega (arith, order)) room in
      omega (arith, room, some, size_pos)

  -- A page by its number and by its address.
  page_test :
      (base q first : ℕ)
      → first * page_size ≡ x * page_size - base
      → base ≤ x * page_size
      → (leb first q && ltb q (first + n)) ≡ (
          leb (x * page_size) (base + q * page_size)
          && leb (base + q * page_size + page_size) (x * page_size + n * page_size))
  page_test base q first here l = ground (
    arith,
    leb-mul page_size first q size_pos,
    leb-mul page_size (suc q) (first + n) size_pos,
    suc-mul q page_size,
    add-mul first n page_size,
    here,
    l,
  )

  -- From a piece of memory that holds a whole page and is not too large for its place below 2^32,
  -- with pages of a power of two, page_init makes a region: the region begins and ends at the
  -- first and last page boundaries in the memory, has pages for all of it, is valid, and its pages
  -- are free exactly where they have memory.
  pub init_region-Initialised :
      (r : Region) × (init_region page_size mi ≡ some r) × Initialised page_size mi r
  unfolding init_region
  init_region-Initialised =
      let some_pages : 0 < n = omega (arith, order) in
      let (r, e, h) = fresh-HasMemory page_size s mi.attr x n power some_pages room in
      let (here, base, cover, below) = fresh_pages page_size s mi.attr x n power some_pages room in
      let starts = h.place.1 ∙ fresh_first page_size s mi.attr x n power some_pages room in
      let stops = h.place.2 ∙ fresh_end page_size s mi.attr x n power some_pages room in
      let enough = whole page_size s mi.attr x n power some_pages room in
      let bytes : (n * page_size == 0) ≡ false = ground (arith, enough, size_pos) in
      (
        r,
        rw (begin-pages, end-pages, extent-pages, bytes) e,
        record {
          valid = h.valid;
          begins = rw starts (memory-bounds.0, memory-bounds.1);
          ends =
              rw stops (omega (arith, memory-bounds.2, sum), omega (arith, memory-bounds.3, sum));
          covers = rw (starts, stops, h.place.0, h.same) (base, cover);
          pages = λ q l.
              h.pages q (rw (sym h.same) l)
              ∙ rw starts (
                  rw stops (
                    page_test r.base q (first page_size s mi.attr x n power some_pages room)
                      (omega (arith, here, h.place.0)) (rw h.place.0 base)));
        },
      )
