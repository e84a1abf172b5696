-- ===== src/Page/Memory/Alloc.antt =====
-- page_alloc_order: its flags, the choice of a region, and what it hands out.
use apex.Base.{ℕ, zero, suc, ◌-◌, Bool, not, ◌&&◌, Option, none, some, ◌==◌, if◌then◌else◌}
use Prim.Native.Nat.{bit_and}
use apex.Page.{PgState, fixed, mapped, Region}
use apex.Page.Regions.{PagePtr, find_block, do_alloc}
use apex.Page.Memory.{Memory, set_region}

-- The flags PAF_REALLOC, PAF_MAPPED and PAF_EXACT_SPEED, PAF_MASK, and MA_SPEED_MASK.
abbrev pub paf_realloc : ℕ
paf_realloc = 536_870_912

abbrev pub paf_mapped : ℕ
paf_mapped = 1_073_741_824

abbrev pub paf_exact_speed : ℕ
paf_exact_speed = 2_147_483_648

abbrev pub paf_mask : ℕ
paf_mask = 3_758_096_384

abbrev pub ma_speed_mask : ℕ
ma_speed_mask = 3

abbrev pub has : ℕ → ℕ → Bool
has attr flag = not (bit_and attr flag == 0)

-- `attr & ~mask`.
abbrev pub without : ℕ → ℕ → ℕ
without attr mask = attr - bit_and attr mask

abbrev pub state_of : ℕ → PgState
state_of attr = if has attr paf_mapped then mapped else fixed

-- The tests of a region in the loop of `page_alloc_order`.
abbrev pub suits : ℕ → Bool → Region → Bool
suits attr exact r =
    (bit_and r.attr attr == attr)
    && not (exact && not (bit_and r.attr ma_speed_mask == bit_and attr ma_speed_mask))

module _ (page_size : ℕ) where
  -- The loop over the regions of `page_alloc_order`, with `k` regions from the `j`th.
  unfoldable pub try_regions :
      ℕ → ℕ → ℕ → Bool → ℕ → PgState → Option ℕ → Memory → Option (PagePtr × Memory)
  unfolding find_block do_alloc
  try_regions zero j attr exact o st owner m = none
  try_regions (suc k) j attr exact o st owner m =
      let rest = try_regions k (suc j) attr exact o st owner m in
      let i = m.by_priority j in
      let r = m.regions i in
      if suits attr exact r
      then (elim (find_block r o) [
        | none ↦ rest
        | some p ↦
            let (r', ptr) = do_alloc page_size r p o st owner in some (ptr, set_region i r' m)
      ])
      else rest

  unfoldable pub page_alloc_order : Memory → ℕ → ℕ → Option ℕ → Option (PagePtr × Memory)
  unfolding try_regions
  page_alloc_order m o attr owner =
      let exact = has attr paf_exact_speed in
      let st = state_of attr in
      let attr' = without attr paf_mask in
      let slower = without attr' ma_speed_mask in
      elim (try_regions m.nr_regions 0 attr' exact o st owner m) [
        | some found ↦ some found
        | none ↦
            if not exact && has attr' ma_speed_mask
            then try_regions m.nr_regions 0 slower exact o st owner m
            else none
      ]
