-- ===== src/Page/Regions.antt =====
-- Allocating and freeing pages, sys/mem/page.cpp: the states of pages over the buddy allocator.
-- `PAGE_SIZE` is a parameter; addresses have 32 bits, as without CONFIG_PAE. A lock guard holds the
-- region for the whole call, so a call is one step.
pub mod States
pub mod Finding
pub mod Freeing
use apex.Base.{
  ℕ, zero, suc, ◌+◌, ◌-◌, ◌*◌, ◌/◌, ◌%◌, ◌^◌, min, Bool, true, false, not, ◌&&◌, ◌||◌, Option, none,
  some, List, [], ◌∷◌, ltb, leb, ◌==◌, if◌then◌else◌, update,
}
use Prim.Native.Nat.{bit_and}
use apex.Base.Status.{Status, ok, err, Errno, efault, einval}
use apex.Page.{
  PgState, free, hole, system, fixed, mapped, PageInfo, Region, block_alloc, block_free,
}

-- `std::countr_zero` of a number that is not 0.
unfoldable pub countr_zero : ℕ → ℕ → ℕ
countr_zero zero n = 0
countr_zero (suc fuel) n = let rest = countr_zero fuel (n / 2) in if n % 2 == 1 then 0 else suc rest

-- `std::bit_width(n) - 1`.
unfoldable pub floor_log2 : ℕ → ℕ → ℕ
floor_log2 zero n = 0
floor_log2 (suc fuel) n = let rest = floor_log2 fuel (n / 2) in if leb n 1 then 0 else suc rest

unfoldable pub page_to_max_order : Region → ℕ → ℕ
unfolding countr_zero
page_to_max_order r page = if page == 0 then r.nr_orders - 1 else countr_zero page page

abbrev pub same_owner : Option ℕ → Option ℕ → Bool
same_owner none none = true
same_owner none (some b) = false
same_owner (some a) none = false
same_owner (some a) (some b) = a == b

-- The loops that set the states of `n` pages.
unfoldable pub set_pages : ℕ → ℕ → PageInfo → (ℕ → PageInfo) → ℕ → PageInfo
set_pages zero i info pages = pages
set_pages (suc n) i info pages = set_pages n (suc i) info (update pages i info)

abbrev pub is_lost : PgState → Bool
is_lost free = false
is_lost hole = true
is_lost system = true
is_lost fixed = false
is_lost mapped = false

-- `page_ptr`: the address, the length and the owner.
pub record PagePtr : Type 0 where
  pub phys : ℕ
  pub length : ℕ
  pub owner : Option ℕ

-- The first list that is not empty, of the `k` lists from `fl`.
unfoldable pub find_from : ℕ → ℕ → Region → Option ℕ
find_from zero fl r = none
find_from (suc k) fl r = elim (r.blocks fl) [ [] ↦ find_from k (suc fl) r | p ∷ _ ↦ some p ]

unfoldable pub find_block : Region → ℕ → Option ℕ
unfolding find_from
find_block r o = if leb r.nr_orders o then none else find_from (r.nr_orders - o) o r

module _ (page_size : ℕ) where
  unfoldable pub page_num : Region → ℕ → ℕ
  page_num r addr = (addr - r.base) / page_size

  unfoldable pub page_addr : Region → ℕ → ℕ
  page_addr r page = r.base + page * page_size

  unfoldable pub do_alloc : Region → ℕ → ℕ → PgState → Option ℕ → Region × PagePtr
  unfolding set_pages page_addr
  do_alloc r page o st owner =
      let len = page_size * 2 ^ o in
      (
        block_alloc
            (record r {
              usable = if is_lost st then r.usable - len else r.usable;
              free_bytes = r.free_bytes - len;
              pages = set_pages (2 ^ o) page (record { state = st; owner = owner }) r.pages;
            })
            page o,
        record { phys = page_addr r page; length = len; owner = owner },
      )

  -- `page_free` of a block.
  unfoldable pub free_block : Region → ℕ → ℕ → Region
  unfolding set_pages
  free_block r page o =
      block_free
        (record r {
          pages = set_pages (2 ^ o) page (record { state = free; owner = none }) r.pages;
          free_bytes = r.free_bytes + page_size * 2 ^ o;
        })
        page o

  -- The last loop of `page_free`, with fuel.
  unfoldable pub free_loop : ℕ → ℕ → ℕ → Region → Option Region
  unfolding page_to_max_order floor_log2 free_block
  free_loop zero i end_page r = none
  free_loop (suc fuel) i end_page r =
      let o = min (page_to_max_order r i) (floor_log2 (end_page - i) (end_page - i)) in
      let rest = free_loop fuel (i + 2 ^ o) end_page (free_block r i o) in
      if i == end_page then some r else rest
