-- ===== src/Page/Memory/Reserve.antt =====
-- page_reserve: the pages of a range of addresses, one by one.
use apex.Base.{
  ℕ, zero, suc, ◌-◌, Bool, true, false, ◌&&◌, ◌||◌, Option, none, some, ◌==◌, if◌then◌else◌,
}
use apex.Page.{PgState, free, hole, system, fixed, mapped, PageInfo, Region}
use apex.Base.Status.{Status, ok, err, einval, eaddrinuse}
use apex.Page.Regions.{PagePtr, same_owner, page_num, page_addr, do_alloc}
use apex.Page.Memory.{Memory, set_region, find_region, page_end}
use apex.Page.Memory.Alloc.{has, paf_realloc, state_of}

-- The numbers of the states.
abbrev pub pg_state : PgState → ℕ
pg_state free = 0
pg_state hole = 1
pg_state system = 2
pg_state fixed = 3
pg_state mapped = 4

-- The tests of a page in the first loop of `page_reserve`.
abbrev pub reservable : PgState → ℕ → Option ℕ → PageInfo → Bool
reservable st attr owner p =
    (pg_state p.state == 0)
    || ((pg_state p.state == pg_state st) && same_owner p.owner owner && has attr paf_realloc)

-- That loop, with `n` pages from `i`.
unfoldable pub all_reservable : ℕ → ℕ → PgState → ℕ → Option ℕ → Region → Bool
all_reservable zero i st attr owner r = true
all_reservable (suc n) i st attr owner r =
    reservable st attr owner (r.pages i) && all_reservable n (suc i) st attr owner r

-- The assertion of `page_reserve`.
abbrev pub may_reserve : PgState → Bool
may_reserve free = false
may_reserve hole = true
may_reserve system = true
may_reserve fixed = true
may_reserve mapped = false

module _ (page_size : ℕ) where
  -- The second loop of `page_reserve`, with `n` pages from `i`.
  unfoldable pub reserve_pages : ℕ → ℕ → PgState → Option ℕ → Region → Region
  unfolding do_alloc
  reserve_pages zero i st owner r = r
  reserve_pages (suc n) i st owner r =
      let r' = (do_alloc page_size r i 0 st owner).0 in
      reserve_pages n (suc i) st owner (if pg_state (r.pages i).state == 0 then r' else r)

  -- `page_reserve` in a region, after its assertion.
  unfoldable pub reserve_range : Region → ℕ → ℕ → PgState → ℕ → Option ℕ → Status × Region
  unfolding page_num page_end page_addr all_reservable reserve_pages
  reserve_range r addr len st attr owner =
      let begin = page_num page_size r addr in
      let last = page_end page_size r addr len in
      if len == 0
      then (ok addr, r)
      else if all_reservable (last - begin) begin st attr owner r
      then (ok (page_addr page_size r begin), reserve_pages (last - begin) begin st owner r)
      else (err eaddrinuse, r)

  -- `page_reserve` in a region. The result is `none` where the assertion fails.
  unfoldable pub reserve_in : Region → ℕ → ℕ → PgState → ℕ → Option ℕ → Option (Status × Region)
  unfolding reserve_range
  reserve_in r addr len st attr owner =
      if may_reserve st then some (reserve_range r addr len st attr owner) else none

  -- `page_reserve` by address, as page_init calls it.
  unfoldable pub reserve_at : Memory → ℕ → ℕ → PgState → ℕ → Option ℕ → Option (Status × Memory)
  unfolding find_region reserve_in
  reserve_at m addr len st attr owner = elim (find_region m addr len) [
    | none ↦ some (err einval, m)
    | some i ↦ elim (reserve_in (m.regions i) addr len st attr owner) [
      | none ↦ none
      | some (status, r) ↦ some (status, set_region i r m)
    ]
  ]

  -- What `page_reserve` makes of the result in region `i`.
  unfoldable pub reserved_ptr :
      Memory → ℕ → ℕ → Option ℕ → Option (Status × Region) → Option (Option PagePtr × Memory)
  reserved_ptr m i len owner none = none
  reserved_ptr m i len owner (some (err e, r)) = some (none, m)
  reserved_ptr m i len owner (some (ok phys, r)) =
      some (some (record { phys = phys; length = len; owner = owner }), set_region i r m)

  -- `page_reserve`, as other parts of the kernel call it.
  unfoldable pub page_reserve : Memory → ℕ → ℕ → ℕ → Option ℕ → Option (Option PagePtr × Memory)
  unfolding find_region reserve_in reserved_ptr
  page_reserve m addr len attr owner = elim (find_region m addr len) [
    | none ↦ some (none, m)
    | some i ↦
        reserved_ptr m i len owner (reserve_in (m.regions i) addr len (state_of attr) attr owner)
  ]
