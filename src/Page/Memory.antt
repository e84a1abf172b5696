-- ===== src/Page/Memory.antt =====
-- The regions of memory and the calls that find a region by address or attributes,
-- sys/mem/page.cpp. An address is a number below 2^32. A region is named by its number in
-- `regions`; `by_priority` holds these numbers in the place of pointers.
pub mod Reserve
pub mod ReservedPages
pub mod Reserving
pub mod Shortfall
pub mod Ranges
pub mod Freeing
pub mod Alloc
pub mod Allocating
pub mod Ptr
pub mod Layout
pub mod Orders
pub mod Changes
pub mod Allotting
pub mod Allotment
pub mod RoundTrip
pub mod Init
pub mod Fresh
pub mod Holes
pub mod Placing
pub mod Initial
use apex.Base.{
  ℕ, zero, suc, ◌+◌, ◌-◌, ◌*◌, ◌/◌, ◌%◌, ◌^◌, Bool, true, false, not, ◌&&◌, ◌||◌, Option, none,
  some, ltb, leb, ◌==◌, if◌then◌else◌, update,
}
use apex.Base.Status.{Status, ok, err, Errno, efault, einval, eaddrinuse}
use apex.Page.{PgState, free, hole, system, fixed, mapped, PageInfo, Region}
use apex.Page.Regions.{PagePtr, same_owner, find_block, page_num, page_addr, do_alloc, free_loop}

pub record Memory : Type 0 where
  pub regions : ℕ → Region
  pub nr_regions : ℕ
  pub by_priority : ℕ → ℕ

abbrev pub set_region : ℕ → Region → Memory → Memory
set_region i r m = record m { regions = update m.regions i r }

-- The loop of `find_region`, with `k` regions from `i`.
unfoldable pub find_in : ℕ → ℕ → ℕ → ℕ → Memory → Option ℕ
find_in zero i begin end_addr m = none
find_in (suc k) i begin end_addr m =
    let rest = find_in k (suc i) begin end_addr m in
    if leb (m.regions i).first_addr begin && leb end_addr (m.regions i).end_addr
    then some i
    else rest

unfoldable pub find_region : Memory → ℕ → ℕ → Option ℕ
unfolding find_in
find_region m begin len =
    let end_addr = (begin + len) % 2 ^ 32 in
    if ltb end_addr begin then none else find_in m.nr_regions 0 begin end_addr m

unfoldable pub page_attr : Memory → ℕ → ℕ → Status
unfolding find_region
page_attr m addr len = elim (find_region m addr len) [
  | none ↦ err efault
  | some i ↦ ok (m.regions i).attr
]

abbrev pub state_refusal : PgState → Option Errno
state_refusal free = some efault
state_refusal hole = some efault
state_refusal system = some efault
state_refusal fixed = none
state_refusal mapped = none

-- The body of the loop of `page_free` that verifies the range.
abbrev pub refusal : Option ℕ → PageInfo → Option Errno
refusal owner p = if same_owner p.owner owner then state_refusal p.state else some einval

-- That loop, with `n` pages from `i`.
unfoldable pub verify : ℕ → ℕ → Option ℕ → Region → Option Errno
verify zero i owner r = none
verify (suc n) i owner r =
    let rest = verify n (suc i) owner r in
    elim (refusal owner (r.pages i)) [ some e ↦ some e | none ↦ rest ]

-- The loop of `page_valid`.
unfoldable pub all_valid : ℕ → ℕ → Option ℕ → Region → Bool
all_valid zero i owner r = true
all_valid (suc n) i owner r =
    let rest = all_valid n (suc i) owner r in
    if same_owner (r.pages i).owner owner
    then (elim (r.pages i).state [
      | hole ↦ false
      | system ↦ false
      | free ↦ rest
      | fixed ↦ rest
      | mapped ↦ rest
    ])
    else false

module _ (page_size : ℕ) where
  -- The page behind the last one that the bytes touch; `len` is not 0.
  unfoldable pub page_end : Region → ℕ → ℕ → ℕ
  unfolding page_num
  page_end r addr len = page_num page_size r (addr + len - 1) + 1

  -- `page_free` in the region that is found. The result is `none` if the fuel is spent.
  unfoldable pub free_in : Memory → ℕ → ℕ → ℕ → Option ℕ → Option (Status × Memory)
  unfolding page_num page_end verify free_loop
  free_in m i addr len owner =
      let r = m.regions i in
      let begin = page_num page_size r addr in
      let last = page_end r addr len in
      elim (verify (last - begin) begin owner r) [
        | some e ↦ some (err e, m)
        | none ↦ elim (free_loop page_size (suc (last - begin)) begin last r) [
          | none ↦ none
          | some r' ↦ some (ok 0, set_region i r' m)
        ]
      ]

  unfoldable pub page_free : Memory → ℕ → ℕ → Option ℕ → Option (Status × Memory)
  unfolding find_region free_in
  page_free m addr len owner = if len == 0 then some (ok 0, m) else elim (find_region m addr len) [
    | none ↦ some (err efault, m)
    | some i ↦ free_in m i addr len owner
  ]

  unfoldable pub page_valid : Memory → ℕ → ℕ → Option ℕ → Bool
  unfolding find_region page_num page_end all_valid
  page_valid m addr len owner = elim (find_region m addr len) [
    | none ↦ false
    | some i ↦
        let r = m.regions i in
        let begin = page_num page_size r addr in
        if len == 0 then true else all_valid (page_end r addr len - begin) begin owner r
  ]
