-- ===== src/Page/Memory/Init.antt =====
-- page_init, for one region: where it lies, its block, and the pages without memory. The priority of
-- a region stands in the memory's `by_priority`.
use apex.Base.{ℕ, ◌+◌, ◌-◌, ◌*◌, ◌%◌, ◌^◌, false, Option, none, some, [], ◌∷◌, ◌==◌, if◌then◌else◌}
use apex.Base.Status.{failed}
use apex.Page.{free, hole, Region}
use apex.Page.Regions.{floor_log2}
use apex.Page.Memory.Ptr.{page_align, ceil_log2}
use apex.Page.Memory.Reserve.{reserve_in}

pub record MemInfo : Type 0 where
  pub base : ℕ
  pub size : ℕ
  pub attr : ℕ
  pub priority : ℕ

-- ALIGNn and TRUNCn for a power of two.
unfoldable pub align_to : ℕ → ℕ → ℕ
align_to n unit = let top = (n + (unit - 1)) % 2 ^ 32 in top - top % unit

unfoldable pub trunc_to : ℕ → ℕ → ℕ
trunc_to n unit = n - n % unit

module _ (page_size : ℕ) where
  -- A region from `begin` to `end_addr`, all of whose pages are one free block. PAGE_TRUNC is
  -- `trunc_to` a page.
  unfoldable pub fresh : ℕ → ℕ → ℕ → ℕ → Region
  unfolding align_to trunc_to ceil_log2
  fresh attr begin end_addr extent =
      let unit = 2 ^ ceil_log2 extent in
      let base = trunc_to begin unit in
      let span = (align_to end_addr unit + (2 ^ 32 - base)) % 2 ^ 32 in
      let nr_orders = ceil_log2 span - floor_log2 page_size page_size + 1 in
      let nr_pages = 2 ^ (nr_orders - 1) in
      let size = nr_pages * page_size in
      record {
        attr = attr;
        first_addr = begin;
        end_addr = end_addr;
        base = base;
        usable = size;
        free_bytes = size;
        size = size;
        nr_orders = nr_orders;
        nr_pages = nr_pages;
        pages = λ q. record { state = free; owner = none };
        blocks = λ o. if o == nr_orders - 1 then 0 ∷ [] else [];
        bitmap = λ i. false;
      }

  -- The two calls of page_reserve. The result is `none` where page_init panics.
  unfoldable pub reserve_holes : Region → Option Region
  unfolding reserve_in
  reserve_holes r = elim (reserve_in page_size r r.base (r.first_addr - r.base) hole 0 none) [
    | none ↦ none
    | some (status, r₁) ↦
        let rest = (r₁.base + r₁.size + (2 ^ 32 - r₁.end_addr)) % 2 ^ 32 in
        let second = reserve_in page_size r₁ r₁.end_addr rest hole 0 none in
        if failed status then none else (elim second [
          | none ↦ none
          | some (status', r₂) ↦ if failed status' then none else some r₂
        ])
  ]

  -- The result is `none` where an assertion fails or page_init panics.
  unfoldable pub init_region : MemInfo → Option Region
  unfolding page_align trunc_to fresh reserve_holes
  init_region mi =
      let begin = page_align page_size mi.base in
      let end_addr = trunc_to ((mi.base + mi.size) % 2 ^ 32) page_size in
      let extent = (end_addr + (2 ^ 32 - begin)) % 2 ^ 32 in
      if extent == 0 then none else reserve_holes (fresh mi.attr begin end_addr extent)
