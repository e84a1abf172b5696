-- ===== src/Page/Memory/Shortfall.antt =====
-- The range that page_reserve returns, and the range that it reserves.
use apex.Base.{
  ℕ, ◌+◌, ◌-◌, ◌*◌, ◌/◌, ◌%◌, ◌≤◌, ◌<◌, ◌≡◌, sym, ap, false, Option, some, ◌==◌, arith, Bool-cases,
  inl, inr,
}
use apex.Page.{PgState, Region}
use apex.Base.Status.{Status, ok}
use apex.Page.Regions.{page_num, page_addr}
use apex.Page.Memory.{page_end}
use native.Mathlib.Nat.{mod-add-div', mod-lt, mul-add-div_right, add-div_left, div-eq_of_lt}
use apex.Page.Memory.Reserve.{may_reserve, all_reservable, reserve_range, reserve_in}

-- The bytes from the start of the first page.
page_end-page_addr :
    (page_size : ℕ) (r : Region) (addr len : ℕ)
    → 0 < page_size
    → 0 < len
    → r.base ≤ addr
    → page_size ≤ (addr - r.base) % page_size + (len - 1) % page_size
    → page_end page_size r (page_addr page_size r (page_num page_size r addr)) len + 1
      ≡ page_end page_size r addr len
unfolding page_end page_num page_addr
page_end-page_addr page_size r addr len p some_bytes low across =
    let a = (addr - r.base) / page_size in
    let b = (len - 1) / page_size in
    let x = (addr - r.base) % page_size in
    let y = (len - 1) % page_size in
    let z = x + y - page_size in
    let here = mod-add-div' (addr - r.base) page_size in
    let there = mod-add-div' (len - 1) page_size in
    let small : z < page_size = omega (arith, mod-lt (addr - r.base) p, mod-lt (len - 1) p) in
    let left : r.base + a * page_size + len - 1 - r.base ≡ a * page_size + (b * page_size + y) =
      omega (arith, there, some_bytes) in
    let right : addr + len - 1 - r.base ≡ a * page_size + (b * page_size + (page_size + z)) =
      omega (arith, here, there, some_bytes, low, across) in
    let left_page : (r.base + a * page_size + len - 1 - r.base) / page_size ≡ a + b =
      rw
        (
          left,
          mul-add-div_right p a (b * page_size + y),
          mul-add-div_right p b y,
          no_pages y (mod-lt (len - 1) p),
        )
        (omega arith) in
    let right_page : (addr + len - 1 - r.base) / page_size ≡ a + b + 1 =
      rw
        (
          right,
          mul-add-div_right p a (b * page_size + (page_size + z)),
          mul-add-div_right p b (page_size + z),
          add-div_left z p,
          no_pages z small,
        )
        (omega arith) in
    omega (arith, left_page, right_page)
  where
    no_pages : (n : ℕ) → n < page_size → n / page_size ≡ 0
    no_pages n l = div-eq_of_lt l

reserve_range-short :
    (page_size : ℕ) (r r' : Region) (addr len phys attr : ℕ) (st : PgState) (owner : Option ℕ)
    → 0 < page_size
    → 0 < len
    → r.base ≤ addr
    → page_size ≤ (addr - r.base) % page_size + (len - 1) % page_size
    → reserve_range page_size r addr len st attr owner ≡ (ok phys, r')
    → page_end page_size r phys len + 1 ≡ page_end page_size r addr len
unfolding reserve_range
reserve_range-short page_size r r' addr len phys attr st owner p some_bytes low across h =
    let begin = page_num page_size r addr in
    let last = page_end page_size r addr len in
    let bytes : (len == 0) ≡ false = ground arith in
    elim (Bool-cases (all_reservable (last - begin) begin st attr owner r)) [
      | inr taken ↦
          absurd (let h' = ap (λ (x : Status × Region). x.0) (rw (bytes, taken) at h) in cc)
      | inl fine ↦
          let h' = ap (λ (x : Status × Region). x.0) (rw (bytes, fine) at h) in
          let same : page_addr page_size r begin ≡ phys = cc in
          rw (sym same) (page_end-page_addr page_size r addr len p some_bytes low across)
    ]

-- If reserving a range that is not empty succeeds, and its bytes reach over one more page boundary
-- than as many bytes from the start of a page, then as many bytes from the address that is
-- returned end one page before the range that is reserved.
pub reserve_in-short :
    (page_size : ℕ) (r r' : Region) (addr len phys attr : ℕ) (st : PgState) (owner : Option ℕ)
    → 0 < page_size
    → 0 < len
    → r.base ≤ addr
    → page_size ≤ (addr - r.base) % page_size + (len - 1) % page_size
    → reserve_in page_size r addr len st attr owner ≡ some (ok phys, r')
    → page_end page_size r phys len + 1 ≡ page_end page_size r addr len
unfolding reserve_in
reserve_in-short page_size r r' addr len phys attr st owner p some_bytes low across h =
    elim (Bool-cases (may_reserve st)) [
      | inr bad ↦ absurd (let h' = rw bad at h in cc)
      | inl fine ↦
          reserve_range-short page_size r r' addr len phys attr st owner p some_bytes low across
            (let h' = rw fine at h in cc)
    ]
