-- ===== src/Page/Memory/Reserving.antt =====
-- What page_reserve does with a range of addresses.
use apex.Base.{
  ℕ, ◌+◌, ◌-◌, ◌^◌, ◌<◌, ◌≡◌, refl, subst, true, false, Option, none, some, ◌==◌, arith, Bool-cases,
  inl, inr, ==_iff,
}
use apex.Page.{Region}
use apex.Page.Regions.{PagePtr, page_addr}
use apex.Page.Memory.{Memory, set_region, find_region}
use apex.Page.Regions.States.{is_free_state}
use apex.Page.Memory.Alloc.{paf_mapped, has, state_of}
use apex.Page.Memory.Reserve.{
  may_reserve, all_reservable, reserve_pages, reserve_range, reserve_in, reserved_ptr, page_reserve,
}
use apex.Page.Memory.Ranges.{
  IsMemory, Holds, find_region-Holds, begin_of, end_of, begin-lt-end, end-le,
}
use apex.Page.Memory.ReservedPages.{
  InUse, all_reservable-InUse, ReservedRange, reserve_range-ReservedRange,
}

-- What page_reserve does.
pub data Reserving (page_size : ℕ) (m : Memory) (addr len attr : ℕ) (owner : Option ℕ)
    : Option (Option PagePtr × Memory) → Type 0 where
  no_region :
      find_region m addr len ≡ none → Reserving page_size m addr len attr owner (some (none, m))
  asserts :
      (i : ℕ)
      → Holds m addr len i
      → has attr paf_mapped ≡ true
      → Reserving page_size m addr len attr owner none
  no_bytes :
      (i : ℕ)
      → Holds m addr len i
      → has attr paf_mapped ≡ false
      → len ≡ 0
      → Reserving page_size m addr len attr owner (
          some (
            some (record { phys = addr; length = len; owner = owner }),
            set_region i (m.regions i) m,
          ))
  in_use :
      (i : ℕ)
      → Holds m addr len i
      → has attr paf_mapped ≡ false
      → InUse
          (end_of page_size m addr len i - begin_of page_size m addr i)
          (begin_of page_size m addr i)
          (state_of attr)
          attr
          owner
          (m.regions i)
      → Reserving page_size m addr len attr owner (some (none, m))
  reserved :
      (i : ℕ) (r' : Region)
      → Holds m addr len i
      → has attr paf_mapped ≡ false
      → ReservedRange
          (m.regions i)
          (begin_of page_size m addr i)
          (end_of page_size m addr len i)
          (state_of attr)
          owner
          r'
      → Reserving page_size m addr len attr owner (
          some (
            some (record {
              phys = page_addr page_size (m.regions i) (begin_of page_size m addr i);
              length = len;
              owner = owner;
            }),
            set_region i r' m,
          ))

pub state_of-taken : (attr : ℕ) → is_free_state (state_of attr) ≡ false
state_of-taken attr = elim (Bool-cases (has attr paf_mapped)) [
  | inl on ↦ rw on refl
  | inr off ↦ rw off refl
]

-- In a region that holds the range.
module _ (page_size : ℕ) (m : Memory) (addr len attr : ℕ) (owner : Option ℕ)
    (v : IsMemory page_size m) (i : ℕ) (here : Holds m addr len i) where
  reserve_range-Reserving :
      has attr paf_mapped ≡ false
      → Reserving page_size m addr len attr owner (
          reserved_ptr page_size m i len owner
            (some (reserve_range page_size (m.regions i) addr len (state_of attr) attr owner)))
  unfolding reserve_range reserved_ptr
  reserve_range-Reserving plain = elim (Bool-cases (len == 0)) [
    | inl empty ↦ rw empty (no_bytes i here plain ((==_iff len 0).0 empty))
    | inr bytes ↦
        let below = begin-lt-end page_size m addr len v i here (ground arith) in
        let within = end-le page_size m addr len v i here (ground arith) in
        let begin = begin_of page_size m addr i in
        let last = end_of page_size m addr len i in
        elim (Bool-cases
          (all_reservable (last - begin) begin (state_of attr) attr owner (m.regions i))) [
            | inr taken ↦
                rw (bytes, taken) (in_use i here plain (all_reservable-InUse _ _ _ _ _ _ taken))
            | inl fine ↦
                rw (bytes, fine)
                  (reserved i _ here plain (
                    let whole : begin + (last - begin) ≡ last = omega (arith, below) in
                    subst
                      (λ e. ReservedRange (m.regions i) begin e (state_of attr) owner (
                        reserve_pages page_size (last - begin) begin (state_of attr) owner
                          (m.regions i)))
                      whole
                      (reserve_range-ReservedRange page_size (m.regions i) begin (last - begin)
                        (state_of attr) attr owner (state_of-taken attr) (v.regions i here.exists)
                        (rw whole within) fine)))
          ]
  ]

  reserve_in-Reserving : Reserving page_size m addr len attr owner (
      reserved_ptr page_size m i len owner
        (reserve_in page_size (m.regions i) addr len (state_of attr) attr owner))
  unfolding reserve_in reserved_ptr
  reserve_in-Reserving = elim (Bool-cases (has attr paf_mapped)) [
    | inl mapped_asked ↦ rw mapped_asked (asserts i here mapped_asked)
    | inr plain ↦
        let fine : may_reserve (state_of attr) ≡ true = rw plain refl in
        rw fine (reserve_range-Reserving plain)
  ]

-- On valid memory page_reserve refuses a range that is in no region, and fails an assertion for one
-- in a region if PAF_MAPPED is asked for. Otherwise it refuses a range with a page that it may not
-- reserve, and changes nothing, or all pages of the range are reserved for the owner and no other
-- page changes; an empty range succeeds without a change.
pub page_reserve-Reserving :
    (page_size : ℕ) (m : Memory) (addr len attr : ℕ) (owner : Option ℕ)
    → IsMemory page_size m
    → addr < 2 ^ 32
    → len < 2 ^ 32
    → Reserving page_size m addr len attr owner (page_reserve page_size m addr len attr owner)
unfolding page_reserve
page_reserve-Reserving page_size m addr len attr owner v la ll =
    by_region (find_region m addr len) refl
  where
    by_region :
        (found : Option ℕ)
        → find_region m addr len ≡ found
        → Reserving page_size m addr len attr owner (elim found [
          | none ↦ some (none, m)
          | some i ↦
              reserved_ptr page_size m i len owner
                (reserve_in page_size (m.regions i) addr len (state_of attr) attr owner)
        ])
    by_region none h = no_region h
    by_region (some i) h =
        reserve_in-Reserving page_size m addr len attr owner v i
          (find_region-Holds m addr len i la ll h)
