-- ===== src/Page/Memory/Allocating.antt =====
-- What page_alloc_order hands out, and what it means that it hands out nothing.
use apex.Base.{
  ℕ, zero, suc, ◌+◌, ◌-◌, ◌*◌, ◌^◌, ◌≤◌, ◌<◌, ◌≡◌, refl, Bool, true, false, not, ◌&&◌, Option, none,
  some, ◌==◌, if◌then◌else◌, arith, Bool-cases, inl, inr, ==_iff,
}
use Prim.Native.Nat.{bit_and}
use apex.Page.{PgState, Region}
use apex.Page.Free.{in_list, IsBlock}
use apex.Page.Regions.{PagePtr, find_block, page_addr, do_alloc}
use apex.Page.Regions.States.{Allocated, is_free_state, do_alloc-Allocated}
use apex.Page.Regions.Finding.{find_block-IsBlock, find_block-none}
use apex.Page.Memory.{Memory, set_region}
use apex.Page.Memory.Alloc.{
  has, without, paf_exact_speed, paf_mask, ma_speed_mask, state_of, suits, try_regions,
  page_alloc_order,
}
use apex.Page.Memory.Ranges.{IsMemory}
use apex.Page.Memory.Reserving.{state_of-taken}

-- A region has all attributes that are asked for, and exactly the speed if that is asked for.
abbrev pub Suits : ℕ → Bool → Region → Type 0
Suits attr exact r =
    (bit_and r.attr attr ≡ attr)
    × (exact ≡ true → bit_and r.attr ma_speed_mask ≡ bit_and attr ma_speed_mask)

suits-Suits :
    (attr : ℕ) (exact : Bool) (r : Region) → suits attr exact r ≡ true → Suits attr exact r
suits-Suits attr exact r h = (ground arith, λ e. ground arith)

Suits-suits :
    (attr : ℕ) (exact : Bool) (r : Region) → Suits attr exact r → suits attr exact r ≡ true
Suits-suits attr false r h = ground (arith, h.0)
Suits-suits attr true r h = ground (arith, h.0, h.1 refl)

-- A block of a region that suits the attributes has been allocated.
pub record AllocatedFrom (page_size : ℕ) (m : Memory) (attr : ℕ) (exact : Bool) (o : ℕ)
    (st : PgState) (owner : Option ℕ) (ptr : PagePtr) (m' : Memory) : Type 0 where
  pub region : ℕ
  pub exists : region < m.nr_regions
  pub suited : Suits attr exact (m.regions region)
  pub page : ℕ
  pub block : IsBlock (m.regions region) page o ((m.regions region).nr_orders - 1 - o)
  pub changed : Region
  pub allocated : Allocated (m.regions region) page o st owner changed
  pub pointer : ptr ≡ record {
    phys = page_addr page_size (m.regions region) page;
    length = page_size * 2 ^ o;
    owner = owner;
  }
  pub memory : m' ≡ set_region region changed m

-- No region from the `j`th on that suits the attributes has a free block of order `o` or higher.
abbrev pub Exhausted : Memory → ℕ → ℕ → ℕ → Bool → ℕ → Type 0
Exhausted m k j attr exact o =
    (j' : ℕ)
    → j ≤ j'
    → j' < j + k
    → Suits attr exact (m.regions (m.by_priority j'))
    → (i b : ℕ) → o ≤ i
    → i < (m.regions (m.by_priority j')).nr_orders
    → in_list (m.regions (m.by_priority j')) i b ≡ false

do_alloc-pointer :
    (page_size : ℕ) (r : Region) (page o : ℕ) (st : PgState) (owner : Option ℕ)
    → (do_alloc page_size r page o st owner).1
      ≡ record { phys = page_addr page_size r page; length = page_size * 2 ^ o; owner = owner }
unfolding do_alloc
do_alloc-pointer page_size r page o st owner = refl

module _ (page_size : ℕ) (m : Memory) (v : IsMemory page_size m) (o : ℕ) (st : PgState)
    (owner : Option ℕ) (taken : is_free_state st ≡ false) where
  abbrev pub Tried : ℕ → ℕ → ℕ → Bool → Option (PagePtr × Memory) → Type 0
  Tried k j attr exact (some found) =
      AllocatedFrom page_size m attr exact o st owner found.0 found.1
  Tried k j attr exact none = Exhausted m k j attr exact o

  -- What the body of the loop does in a region that suits.
  abbrev in_region : ℕ → Option (PagePtr × Memory) → Option ℕ → Option (PagePtr × Memory)
  in_region i rest none = rest
  in_region i rest (some p) =
      let (r', ptr) = do_alloc page_size (m.regions i) p o st owner in some (ptr, set_region i r' m)

  -- The regions before the rest do not help.
  later :
      (k j attr : ℕ) (exact : Bool) (rest : Option (PagePtr × Memory))
      → (suits attr exact (m.regions (m.by_priority j)) ≡ true
          → (i b : ℕ) → o ≤ i
          → i < (m.regions (m.by_priority j)).nr_orders
          → in_list (m.regions (m.by_priority j)) i b ≡ false)
      → Tried k (suc j) attr exact rest
      → Tried (suc k) j attr exact rest
  later k j attr exact (some found) empty t = t
  later k j attr exact none empty t = λ j' l u s i b l' u'. elim (Bool-cases (j' == j)) [
    | inl here ↦
        let same = (==_iff j' j).0 here in
        rw same (
          empty (Suits-suits attr exact (m.regions (m.by_priority j)) (rw same at s)) i b l'
            (rw same at u'))
    | inr after ↦ t j' (ground arith) (omega (arith, u)) s i b l' u'
  ]

  by_block :
      (found : Option ℕ) (k j attr : ℕ) (exact : Bool) (rest : Option (PagePtr × Memory))
      → find_block (m.regions (m.by_priority j)) o ≡ found
      → j < m.nr_regions
      → suits attr exact (m.regions (m.by_priority j)) ≡ true
      → Tried k (suc j) attr exact rest
      → Tried (suc k) j attr exact (in_region (m.by_priority j) rest found)
  by_block none k j attr exact rest h l good t =
      later k j attr exact rest (λ s. find_block-none (m.regions (m.by_priority j)) o h) t
  by_block (some p) k j attr exact rest h l good t =
      let i = m.by_priority j in
      let r = m.regions i in
      let valid = v.regions i (v.by_priority j l) in
      let (block, here) = find_block-IsBlock r o p valid h in
      record {
        region = i;
        exists = v.by_priority j l;
        suited = suits-Suits attr exact r good;
        page = p;
        block = block;
        changed = (do_alloc page_size r p o st owner).0;
        allocated = do_alloc-Allocated page_size r p o _ block valid st owner taken here;
        pointer = do_alloc-pointer page_size r p o st owner;
        memory = refl;
      }

  try_regions-Tried :
      (k j attr : ℕ) (exact : Bool)
      → j + k ≤ m.nr_regions
      → Tried k j attr exact (try_regions page_size k j attr exact o st owner m)
  unfolding try_regions
  try_regions-Tried zero j attr exact l = λ j' low high. absurd (omega (arith, low, high))
  try_regions-Tried (suc k) j attr exact l =
      let i = m.by_priority j in
      elim (Bool-cases (suits attr exact (m.regions i))) [
        | inr bad ↦ rw bad (
            later k j attr exact _ (λ s. absurd (cc))
              (try_regions-Tried k (suc j) attr exact (omega (arith, l))))
        | inl good ↦
            let rest = try_regions page_size k (suc j) attr exact o st owner m in
            let t = try_regions-Tried k (suc j) attr exact (omega (arith, l)) in
            rw good (
              by_block (find_block (m.regions i) o) k j attr exact rest refl (omega (arith, l)) good
                t)
      ]

-- The attributes without the flags, and without a speed.
abbrev pub plain : ℕ → ℕ
plain attr = without attr paf_mask

abbrev pub any_speed : ℕ → ℕ
any_speed attr = without (plain attr) ma_speed_mask

abbrev pub exact_speed : ℕ → Bool
exact_speed attr = has attr paf_exact_speed

any_speed-plain : (attr : ℕ) → has (plain attr) ma_speed_mask ≡ false → any_speed attr ≡ plain attr
any_speed-plain attr h = ground arith

-- What page_alloc_order promises: a block of a region that suits the attributes, or of a slower
-- one if that is allowed and no other has one; nothing if those have none either.
pub data Ordered (page_size : ℕ) (m : Memory) (o attr : ℕ) (owner : Option ℕ)
    : Option (PagePtr × Memory) → Type 0 where
  as_asked :
      (ptr : PagePtr) (m' : Memory)
      → AllocatedFrom page_size m (plain attr) (exact_speed attr) o (state_of attr) owner ptr m'
      → Ordered page_size m o attr owner (some (ptr, m'))
  slower :
      (ptr : PagePtr) (m' : Memory)
      → exact_speed attr ≡ false
      → Exhausted m m.nr_regions 0 (plain attr) false o
      → AllocatedFrom page_size m (any_speed attr) false o (state_of attr) owner ptr m'
      → Ordered page_size m o attr owner (some (ptr, m'))
  nothing :
      Exhausted m m.nr_regions 0 (plain attr) (exact_speed attr) o
      → (exact_speed attr ≡ false → Exhausted m m.nr_regions 0 (any_speed attr) false o)
      → Ordered page_size m o attr owner none

-- page_alloc_order does what `Ordered` says.
pub page_alloc_order-Ordered :
    (page_size : ℕ) (m : Memory) (o attr : ℕ) (owner : Option ℕ)
    → IsMemory page_size m
    → Ordered page_size m o attr owner (page_alloc_order page_size m o attr owner)
unfolding page_alloc_order
page_alloc_order-Ordered page_size m o attr owner v =
    let exact = exact_speed attr in
    let attr' = plain attr in
    by_try (try_regions page_size m.nr_regions 0 attr' exact o (state_of attr) owner m) (
      try_regions-Tried page_size m v o (state_of attr) owner (state_of-taken attr) m.nr_regions 0
        attr' exact (omega arith))
  where
    again :
        (found : Option (PagePtr × Memory))
        → exact_speed attr ≡ false
        → Exhausted m m.nr_regions 0 (plain attr) (exact_speed attr) o
        → Tried page_size m v o
            (state_of attr)
            owner
            (state_of-taken attr)
            m.nr_regions
            0
            (any_speed attr)
            false
            found
        → Ordered page_size m o attr owner found
    again (some found) e x t = slower found.0 found.1 e (rw e at x) t
    again none e x t = nothing x (λ e'. t)

    by_try :
        (found : Option (PagePtr × Memory))
        → Tried page_size m v o
            (state_of attr)
            owner
            (state_of-taken attr)
            m.nr_regions
            0
            (plain attr)
            (exact_speed attr)
            found
        → Ordered page_size m o attr owner (elim found [
          | some p ↦ some p
          | none ↦
              if not (exact_speed attr) && has (plain attr) ma_speed_mask
              then try_regions page_size m.nr_regions 0
                  (any_speed attr)
                  (exact_speed attr)
                  o
                  (state_of attr)
                  owner
                  m
              else none
        ])
    by_try (some found) t = as_asked found.0 found.1 t
    by_try none t = elim (Bool-cases (exact_speed attr)) [
      | inl on ↦ rw on (nothing t (λ e. absurd (cc)))
      | inr off ↦ elim (Bool-cases (has (plain attr) ma_speed_mask)) [
        | inl fast ↦
            rw (off, fast)
              (again _ off t (
                try_regions-Tried page_size m v o (state_of attr) owner (state_of-taken attr)
                  m.nr_regions 0 (any_speed attr) false (omega arith)))
        | inr none_asked ↦
            rw (off, none_asked)
              (nothing t (λ e. rw (any_speed-plain attr none_asked) (rw off at t)))
      ]
    ]
