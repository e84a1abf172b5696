-- ===== src/Page/Tests.antt =====
-- The page allocator at concrete states: tests, and the theorems at inputs that meet their
-- hypotheses.
use apex.Base.{
  ℕ, ◌+◌, ◌*◌, ◌^◌, ◌≡◌, refl, true, false, not, ◌&&◌, ◌||◌, Option, none, some, [], ◌∷◌, ◌==◌,
  if◌then◌else◌, arith, count, remove,
}
use native.Mathlib.Nat.{zero-div, zero-mul}
use apex.Base.Status.{ok}
use apex.Page.{
  free, fixed, Region, order_to_first_bitmap_idx, first_page_in_block, block_alloc, block_free,
}
use apex.Page.Buddy.Cover.{covered}
use apex.Page.Free.{
  in_list, is_free, IsBuddy, IsBlock, in_block, block_alloc-IsBuddy, block_free-IsBuddy,
}
use apex.Page.Regions.{PagePtr, page_addr, do_alloc, free_block}
use apex.Page.Memory.Ptr.{destroy, page_alloc}
use apex.Page.Memory.Layout.{IsLaidOut}
use apex.Page.Memory.Init.{MemInfo, init_region}
use apex.Page.Memory.Initial.{Initialised, init_region-Initialised}
use apex.Page.Memory.Allotment.{Allots, page_alloc-Allots}
use apex.Page.Memory.RoundTrip.{Restored, page_alloc-Restored}
use apex.Page.Memory.{Memory, page_end, page_free}
use apex.Page.Memory.Alloc.{page_alloc_order}
use apex.Page.Memory.Reserve.{reserve_pages, reserve_range, reserve_in, page_reserve}
use apex.Page.Memory.Ranges.{IsMemory}
use apex.Page.Memory.Freeing.{Returns, page_free-Returns}
use apex.Page.Memory.Allocating.{Ordered, page_alloc_order-Ordered}
use apex.Page.Memory.Reserving.{Reserving, page_reserve-Reserving}
use apex.Page.Memory.Shortfall.{reserve_in-short}
use apex.Page.Buddy.Apart.{IsOwned}
use apex.Page.Represent.{same_block}
use apex.Page.Regions.States.{IsRegion, do_alloc-Allocated}

-- Four pages of 4096 bytes, all of them one free block.
abbrev small : Region
small = record {
  attr = 1;
  first_addr = 0;
  end_addr = 16384;
  base = 0;
  usable = 16384;
  free_bytes = 16384;
  size = 16384;
  nr_orders = 3;
  nr_pages = 4;
  pages = λ q. record { state = free; owner = none };
  blocks = λ o. if o == 2 then 0 ∷ [] else [];
  bitmap = λ i. false;
}

small_list : (o page : ℕ) → (count page (small.blocks o) == 0) ≡ not ((o == 2) && (page == 0))
unfolding count
small_list o page = ground arith

small-IsBuddy : IsBuddy small
unfolding covered order_to_first_bitmap_idx
small-IsBuddy = record {
  state = record { free = λ o b. (o == 2) && (b == 0); bit = λ o j. false };
  shows = record {
    lists = λ o b.
        (let same = rw (zero-mul (2 ^ o)) at (same_block b 0 o) in
          ground (arith, small_list o (b * 2 ^ o), same));
    placed = λ o page h.
        (let first : page ≡ 0 = ground (arith, small_list o page, h) in
          rw (first, zero-div, zero-mul) refl);
    bits = λ o j l m. refl;
  };
  apart = record { single = λ o j l. ground arith; apart = λ o b k e h. absurd (ground arith) };
  marks = λ o j l u. ground arith;
}

small-IsRegion : IsRegion small
unfolding covered count
small-IsRegion = record {
  buddy = small-IsBuddy;
  some_order = omega arith;
  sized = refl;
  states = λ q. ground arith;
}

-- One page of the block leaves a page and a block of two; freeing it joins them again.
split_runs : (do_alloc 4096 small 0 0 fixed (some 7)).0.blocks 0 ≡ 1 ∷ []
unfolding do_alloc block_alloc remove
split_runs = refl

split_runs_above : (do_alloc 4096 small 0 0 fixed (some 7)).0.blocks 1 ≡ 2 ∷ []
unfolding do_alloc block_alloc remove
split_runs_above = refl

join_runs : (free_block 4096 (do_alloc 4096 small 0 0 fixed (some 7)).0 0 0).blocks 2 ≡ 0 ∷ []
unfolding do_alloc free_block block_alloc block_free remove
join_runs = refl

half-IsBlock : IsBlock small 2 1 1
unfolding first_page_in_block
half-IsBlock = record { level = refl; inside = omega arith; aligned = refl }

half_here : covered (in_list small) 1 1 1 ≡ true
unfolding covered count
half_here = refl

block_alloc-IsBuddy_example :
    IsBuddy (block_alloc small 2 1)
    × (record (block_alloc small 2 1) { blocks = small.blocks; bitmap = small.bitmap } ≡ small)
    × ((q : ℕ) → is_free (block_alloc small 2 1) q ≡ (is_free small q && not (in_block 2 1 q)))
block_alloc-IsBuddy_example = block_alloc-IsBuddy small 2 1 1 half-IsBlock small-IsBuddy half_here

-- All four pages have been allocated.
whole-IsBlock : IsBlock small 0 2 0
unfolding first_page_in_block
whole-IsBlock = record { level = refl; inside = omega arith; aligned = refl }

whole_here : covered (in_list small) 0 2 0 ≡ true
unfolding covered count
whole_here = refl

abbrev full : Region
full = (do_alloc 4096 small 0 2 fixed (some 7)).0

full-IsRegion : IsRegion full
full-IsRegion =
    (do_alloc-Allocated 4096 small 0 2 0 whole-IsBlock small-IsRegion fixed (some 7) refl
      whole_here).valid

full-IsBlock : IsBlock full 2 1 1
unfolding first_page_in_block do_alloc block_alloc
full-IsBlock = record { level = refl; inside = omega arith; aligned = refl }

full-IsOwned : IsOwned 1 1 1 (in_list full)
unfolding do_alloc block_alloc covered count remove
full-IsOwned = record { uncovered = refl; below = λ d o b e up. ground arith }

block_free-IsBuddy_example :
    IsBuddy (block_free full 2 1)
    × (record (block_free full 2 1) { blocks = full.blocks; bitmap = full.bitmap } ≡ full)
    × ((q : ℕ) → is_free (block_free full 2 1) q ≡ (is_free full q || in_block 2 1 q))
block_free-IsBuddy_example =
    block_free-IsBuddy full 2 1 1 full-IsBlock full-IsRegion.buddy full-IsOwned

-- Memory of one region.
abbrev memory_of : Region → Memory
memory_of r = record { regions = λ i. r; nr_regions = 1; by_priority = λ j. 0 }

small-IsMemory : IsMemory 4096 (memory_of small)
small-IsMemory = record {
  some_size = omega arith;
  regions = λ i l. small-IsRegion;
  by_priority = λ j l. omega arith;
  low = λ i l. omega arith;
  high = λ i l. omega arith;
}

full-IsMemory : IsMemory 4096 (memory_of full)
unfolding do_alloc block_alloc
full-IsMemory = record {
  some_size = omega arith;
  regions = λ i l. full-IsRegion;
  by_priority = λ j l. omega arith;
  low = λ i l. omega arith;
  high = λ i l. omega arith;
}

page_free-Returns_example :
    Returns 4096
      (memory_of full)
      4096
      8192
      (some 7)
      (page_free 4096 (memory_of full) 4096 8192 (some 7))
page_free-Returns_example =
    page_free-Returns 4096 (memory_of full) 4096 8192 (some 7) full-IsMemory (omega arith)
      (omega arith)

page_alloc_order-Ordered_example :
    Ordered 4096
      (memory_of small)
      1
      1
      (some 7)
      (page_alloc_order 4096 (memory_of small) 1 1 (some 7))
page_alloc_order-Ordered_example =
    page_alloc_order-Ordered 4096 (memory_of small) 1 1 (some 7) small-IsMemory

small-IsLaidOut : IsLaidOut 4096 (memory_of small)
unfolding page_addr
small-IsLaidOut = record {
  apart = λ i j li lj ne. absurd (ne (omega (arith, li, lj)));
  ends = λ i l. omega arith;
  usable = λ i q l u f. (omega arith, omega (arith, u));
}

-- 10000 bytes take three of the four pages, the last ones; a length above the last page boundary
-- below 2^32 is aligned to 0.
abbrev pointer_of : Option (PagePtr × Memory) → Option PagePtr
pointer_of none = none
pointer_of (some (p, m)) = some p

alloc_runs :
    pointer_of (page_alloc 4096 (memory_of small) 10_000 1 (some 7))
    ≡ some (record { phys = 4096; length = 12_288; owner = some 7 })
unfolding page_alloc block_alloc
alloc_runs = refl

alloc_overflows : page_alloc 4096 (memory_of small) 4_294_967_295 1 (some 7) ≡ none
unfolding page_alloc
alloc_overflows = refl

page_alloc-Allots_example :
    Allots 4096
      (memory_of small)
      10_000
      1
      (some 7)
      (page_alloc 4096 (memory_of small) 10_000 1 (some 7))
page_alloc-Allots_example =
    page_alloc-Allots 4096 12 (memory_of small) 10_000 1 (some 7) refl small-IsMemory
      small-IsLaidOut (omega arith)

page_alloc-Restored_example :
    (p : PagePtr) × (m₁ m₂ : Memory) × (page_alloc 4096 (memory_of small) 10_000 1 (some 7)
      ≡ some (p, m₁))
    × (destroy 4096 p m₁ ≡ some m₂)
    × Restored (memory_of small) m₂
page_alloc-Restored_example =
    page_alloc-Restored 4096 12 (memory_of small) 10_000 1 (some 7) refl small-IsMemory
      small-IsLaidOut (omega arith)

-- Memory that begins and ends inside pages.
abbrev memory : MemInfo
memory = record { base = 5000; size = 30_000; attr = 1; priority = 0 }

abbrev init_pages : Option Region → ℕ × ℕ × ℕ × ℕ
init_pages none = (0, 0, 0, 0)
init_pages (some r) = (r.first_addr, r.end_addr, r.base, r.nr_pages)

init_runs : init_pages (init_region 4096 memory) ≡ (8192, 32_768, 0, 8)
unfolding init_region reserve_pages block_alloc
init_runs = refl

init_region-Initialised_example :
    (r : Region) × (init_region 4096 memory ≡ some r) × Initialised 4096 memory r
init_region-Initialised_example =
    init_region-Initialised 4096 12 memory 2 refl (omega arith) (omega arith) (omega arith)

page_reserve-Reserving_example :
    Reserving 4096
      (memory_of small)
      5000
      3000
      0
      (some 7)
      (page_reserve 4096 (memory_of small) 5000 3000 0 (some 7))
page_reserve-Reserving_example =
    page_reserve-Reserving 4096 (memory_of small) 5000 3000 0 (some 7) small-IsMemory (omega arith)
      (omega arith)

-- A page's worth of bytes from the middle of a page: two pages are reserved, and the range that is
-- returned ends after the first.
two_pages : (reserve_range 4096 small 2048 4096 fixed 0 (some 7)).0 ≡ ok 0
unfolding reserve_range
two_pages = refl

reserve_in-short_example : page_end 4096 small 0 4096 + 1 ≡ page_end 4096 small 2048 4096
unfolding reserve_in reserve_range
reserve_in-short_example =
    reserve_in-short 4096 small (reserve_range 4096 small 2048 4096 fixed 0 (some 7)).1 2048 4096 0
      0 fixed (some 7) (omega arith) (omega arith) (omega arith) (omega arith) refl
