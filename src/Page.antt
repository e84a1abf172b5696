-- ===== src/Page.antt =====
-- The page allocator, sys/mem/page.cpp: the state of a region, and its buddy allocator. A page is
-- named by its number in the region. The bitmap is a function from bit numbers: its words are left
-- out. A free list is a list of the first pages of blocks; `list_remove` names the list, which is
-- the one in which the code's page stands.
pub mod Buddy
pub mod Represent
pub mod Blocks
pub mod Free
pub mod Regions
pub mod Memory
mod Tests
use apex.Base.{
  ℕ, zero, suc, ◌+◌, ◌-◌, ◌*◌, ◌/◌, ◌^◌, Bool, true, false, not, Option, List, [], ◌∷◌, update,
  remove,
}

-- `enum PG_STATE`.
pub data PgState : Type 0 where
  free hole system fixed mapped : PgState

-- `struct page`; its link is what the lists of the region hold.
pub record PageInfo : Type 0 where
  pub state : PgState
  pub owner : Option ℕ

pub record Region : Type 0 where
  pub attr : ℕ
  pub first_addr : ℕ
  pub end_addr : ℕ
  pub base : ℕ
  pub usable : ℕ
  pub free_bytes : ℕ
  pub size : ℕ
  pub nr_orders : ℕ
  pub nr_pages : ℕ
  pub pages : ℕ → PageInfo
  pub blocks : ℕ → List ℕ
  pub bitmap : ℕ → Bool

unfoldable pub bitmap_size : Region → ℕ
bitmap_size r = 2 ^ (r.nr_orders - 1) - 1

unfoldable pub order_to_first_bitmap_idx : Region → ℕ → ℕ
order_to_first_bitmap_idx r o = 2 ^ (r.nr_orders - o - 2) - 1

unfoldable pub page_to_bitmap_idx : Region → ℕ → ℕ → ℕ
unfolding order_to_first_bitmap_idx
page_to_bitmap_idx r page o = order_to_first_bitmap_idx r o + page / 2 ^ suc o

-- The bit after the change, and the region.
unfoldable pub bitmap_toggle : Region → ℕ → ℕ → Bool × Region
unfolding page_to_bitmap_idx
bitmap_toggle r page o =
    let idx = page_to_bitmap_idx r page o in
    (not (r.bitmap idx), record r { bitmap = update r.bitmap idx (not (r.bitmap idx)) })

unfoldable pub first_page_in_block : ℕ → ℕ → ℕ
first_page_in_block page o = page / 2 ^ o * 2 ^ o

unfoldable pub list_insert : ℕ → ℕ → Region → Region
list_insert o page r = record r { blocks = update r.blocks o (page ∷ r.blocks o) }

unfoldable pub list_remove : ℕ → ℕ → Region → Region
list_remove o page r = record r { blocks = update r.blocks o (remove page (r.blocks o)) }

-- The first loop of `block_alloc`, with `k` orders above `i`.
unfoldable pub climb : ℕ → ℕ → ℕ → Region → ℕ × Region
unfolding bitmap_toggle
climb zero i page r = (i, r)
climb (suc k) i page r =
    let (now, r') = bitmap_toggle r page i in
    elim now [ true ↦ climb k (suc i) page r' | false ↦ (i, r') ]

-- A round of the second loop, for order `suc i`.
unfoldable pub split_block : ℕ → ℕ → Region → Region
unfolding first_page_in_block list_insert list_remove
split_block i page r =
    let pa = first_page_in_block page (suc i) in
    list_insert i (pa + 2 ^ i) (list_insert i pa (list_remove (suc i) pa r))

-- `d` rounds, from order `o + d` down.
unfoldable pub split_loop : ℕ → ℕ → ℕ → Region → Region
unfolding split_block
split_loop zero o page r = r
split_loop (suc d) o page r = split_loop d o page (split_block (o + d) page r)

unfoldable pub block_alloc : Region → ℕ → ℕ → Region
unfolding climb split_loop list_remove
block_alloc r page o =
    let (i, r') = climb (r.nr_orders - 1 - o) o page r in
    list_remove o page (split_loop (i - o) o page r')

-- The loop of `block_free`, with `k` orders above `o`.
unfoldable pub join_loop : ℕ → ℕ → ℕ → Region → Region
unfolding bitmap_toggle first_page_in_block list_insert list_remove
join_loop zero o page r = r
join_loop (suc k) o page r =
    let (now, r') = bitmap_toggle r page o in
    let pa = first_page_in_block page (suc o) in
    elim now [
      | true ↦ r'
      | false ↦
          join_loop k (suc o) page
            (list_insert (suc o) pa (list_remove o (pa + 2 ^ o) (list_remove o pa r')))
    ]

unfoldable pub block_free : Region → ℕ → ℕ → Region
unfolding join_loop list_insert
block_free r page o = join_loop (r.nr_orders - 1 - o) o page (list_insert o page r)
