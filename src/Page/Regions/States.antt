-- ===== src/Page/Regions/States.antt =====
-- A region's pages are free by their states exactly where they are free by the lists.
use apex.Base.{
  ℕ, zero, suc, ◌+◌, ◌-◌, ◌*◌, ◌/◌, ◌^◌, ◌<◌, ◌≡◌, sym, ap, ◌∙◌, Bool, true, false, ◌&&◌,
  if◌then◌else◌, ltb, leb, arith, Option, none, update, ==_iff,
}
use native.Mathlib.Nat.{le-div_iff_mul-le, div-lt_iff_lt-mul, suc-mul, one-le-pow}
use apex.Page.{
  PgState, free, hole, system, fixed, mapped, PageInfo, Region, block_alloc, first_page_in_block,
  order_to_first_bitmap_idx,
}
use apex.Page.Buddy.Cover.{covered, covered-above}
use apex.Page.Free.{in_list, is_free, IsBuddy, IsBlock, in_block, above-div, block_alloc-IsBuddy}
use apex.Page.Regions.{set_pages, is_lost, do_alloc}

pub two_pow_pos : (n : ℕ) → 0 < 2 ^ n
two_pow_pos n = one-le-pow n 2 (omega arith)

-- The pages of a block follow its first page.
pub in_block-range :
    (page o q : ℕ)
    → first_page_in_block page o ≡ page
    → in_block page o q ≡ (leb page q && ltb q (page + 2 ^ o))
unfolding first_page_in_block
in_block-range page o q aligned =
    let c = page / 2 ^ o in
    let low = le-div_iff_mul-le {k = 2 ^ o} {x = c} {y = q} (two_pow_pos o) in
    let high = div-lt_iff_lt-mul {k = 2 ^ o} {x = q} {y = suc c} (two_pow_pos o) in
    ground (arith, low.0, low.1, high.0, high.1, suc-mul c (2 ^ o), aligned)

pub set_pages-if :
    (n i : ℕ) (info : PageInfo) (pages : ℕ → PageInfo) (q : ℕ)
    → set_pages n i info pages q ≡ (if leb i q && ltb q (i + n) then info else pages q)
unfolding set_pages
set_pages-if zero i info pages q = ground arith
set_pages-if (suc n) i info pages q =
    ground (arith, set_pages-if n (suc i) info (update pages i info) q)

abbrev pub is_free_state : PgState → Bool
is_free_state free = true
is_free_state hole = false
is_free_state system = false
is_free_state fixed = false
is_free_state mapped = false

-- The invariant of a region.
pub record IsRegion (r : Region) : Type 0 where
  pub buddy : IsBuddy r
  pub some_order : 0 < r.nr_orders
  pub sized : r.nr_pages ≡ 2 ^ (r.nr_orders - 1)
  pub states : (q : ℕ) → is_free r q ≡ (ltb q r.nr_pages && is_free_state (r.pages q).state)

-- The buddy allocator does not look at the states and the counts.
pub relabel-IsBuddy :
    (r : Region) (usable free_bytes : ℕ) (pages : ℕ → PageInfo)
    → IsBuddy r
    → IsBuddy (record r { usable = usable; free_bytes = free_bytes; pages = pages })
unfolding order_to_first_bitmap_idx
relabel-IsBuddy r usable free_bytes pages v = record {
  state = v.state;
  shows = record { lists = v.shows.lists; placed = v.shows.placed; bits = v.shows.bits };
  apart = v.apart;
  marks = v.marks;
}

-- A block that lies in a free block has only free pages.
pub covered-is_free :
    (r : Region) (page o k : ℕ)
    → IsBlock r page o k
    → covered (in_list r) k o (page / 2 ^ o) ≡ true
    → (q : ℕ) → in_block page o q ≡ true
    → is_free r q ≡ true
covered-is_free r page o k b here q inside =
    covered-above (in_list r) o o k (r.nr_orders - 1) 0 q (omega arith) (omega (arith, b.level))
      (rw (above-div o q, (==_iff (q / 2 ^ o) (page / 2 ^ o)).0 inside) here)

abbrev pub info_of : PgState → Option ℕ → PageInfo
info_of st owner = record { state = st; owner = owner }

-- What setting the states of a block's pages means.
pub block_pages :
    (r : Region) (page o : ℕ) (info : PageInfo) (pages : ℕ → PageInfo)
    → first_page_in_block page o ≡ page
    → r.pages ≡ set_pages (2 ^ o) page info pages
    → (q : ℕ) → r.pages q ≡ (if in_block page o q then info else pages q)
block_pages r page o info pages aligned e q =
    ap (λ f. f q) e
    ∙ set_pages-if (2 ^ o) page info pages q
    ∙ ap (λ c. if c then info else pages q) (sym (in_block-range page o q aligned))

-- The region has the same addresses and size.
abbrev pub SamePlace : Region → Region → Type 0
SamePlace r r' =
    (r'.base ≡ r.base)
    × (r'.first_addr ≡ r.first_addr)
    × (r'.end_addr ≡ r.end_addr)
    × (r'.size ≡ r.size)

-- What `do_alloc` promises of a block.
pub record Allocated (r : Region) (page o : ℕ) (st : PgState) (owner : Option ℕ) (r' : Region)
    : Type 0 where
  pub valid : IsRegion r'
  pub same : (r'.nr_pages ≡ r.nr_pages) × (r'.nr_orders ≡ r.nr_orders)
  pub place : SamePlace r r'
  pub were_free : (q : ℕ) → in_block page o q ≡ true → is_free_state (r.pages q).state ≡ true
  pub pages :
      (q : ℕ)
      → r'.pages q ≡ (if in_block page o q then record { state = st; owner = owner } else r.pages q)

-- What `free_block` promises of a block.
pub record Freed (r : Region) (page o : ℕ) (r' : Region) : Type 0 where
  pub valid : IsRegion r'
  pub same : (r'.nr_pages ≡ r.nr_pages) × (r'.nr_orders ≡ r.nr_orders)
  pub place : SamePlace r r'
  pub pages :
      (q : ℕ)
      → r'.pages q
        ≡ (if in_block page o q then record { state = free; owner = none } else r.pages q)

module _ (page_size : ℕ) (r : Region) (page o k : ℕ) (b : IsBlock r page o k) (v : IsRegion r) where
  -- A block that lies in a free block is allocated: its pages were free and get the state and the
  -- owner, no other page changes, and the region's invariant holds.
  pub do_alloc-Allocated :
      (st : PgState) (owner : Option ℕ)
      → is_free_state st ≡ false
      → covered (in_list r) k o (page / 2 ^ o) ≡ true
      → Allocated r page o st owner (do_alloc page_size r page o st owner).0
  unfolding do_alloc
  do_alloc-Allocated st owner taken here =
      let info = info_of st owner in
      let r₁ = record r {
        usable = if is_lost st then r.usable - page_size * 2 ^ o else r.usable;
        free_bytes = r.free_bytes - page_size * 2 ^ o;
        pages = set_pages (2 ^ o) page info r.pages;
      } in
      let (buddy, frame, frees) =
        block_alloc-IsBuddy r₁ page o k
          (record { level = b.level; inside = b.inside; aligned = b.aligned })
          (relabel-IsBuddy r _ _ _ v.buddy) here in
      let r' = block_alloc r₁ page o in
      let orders : r'.nr_orders ≡ r.nr_orders = ap (λ (x : Region). x.nr_orders) frame in
      let size : r'.nr_pages ≡ r.nr_pages = ap (λ (x : Region). x.nr_pages) frame in
      let pages =
        block_pages r' page o info r.pages b.aligned (ap (λ (x : Region). x.pages) frame) in
      record {
        valid = record {
          buddy = buddy;
          some_order = rw orders v.some_order;
          sized = size ∙ v.sized ∙ ap (λ n. 2 ^ (n - 1)) (sym orders);
          states = λ q. frees q ∙ rw (size, pages q) (ground (arith, v.states q));
        };
        same = (size, orders);
        place = (
          ap (λ (x : Region). x.base) frame,
          ap (λ (x : Region). x.first_addr) frame,
          ap (λ (x : Region). x.end_addr) frame,
          ap (λ (x : Region). x.size) frame,
        );
        were_free =
            λ q inside. ground (arith, v.states q, covered-is_free r page o k b here q inside);
        pages = pages;
      }
