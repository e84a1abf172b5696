-- ===== src/Page/Memory/Ranges.antt =====
-- Where a range of addresses lies, and the check of its pages.
use apex.Base.{
  ℕ, zero, suc, ◌+◌, ◌-◌, ◌*◌, ◌/◌, ◌%◌, ◌^◌, ◌≤◌, ◌<◌, ◌≡◌, refl, sym, false, ◌&&◌, Option, none,
  some, ltb, leb, ◌==◌, arith, Bool-cases, ◌⊎◌, inl, inr, ==_iff,
}
use native.Mathlib.Nat.{div-lt_iff_lt-mul, le-div_iff_mul-le, div-mul-le_self}
use apex.Base.Status.{Errno}
use apex.Page.{PageInfo, Region}
use apex.Page.Regions.{page_num}
use apex.Page.Regions.States.{IsRegion, is_free_state}
use apex.Page.Memory.{Memory, find_in, find_region, refusal, verify, page_end}

-- The regions are valid, and the pages of each hold its addresses.
pub record IsMemory (page_size : ℕ) (m : Memory) : Type 0 where
  pub some_size : 0 < page_size
  pub regions : (i : ℕ) → i < m.nr_regions → IsRegion (m.regions i)
  pub by_priority : (j : ℕ) → j < m.nr_regions → m.by_priority j < m.nr_regions
  pub low : (i : ℕ) → i < m.nr_regions → (m.regions i).base ≤ (m.regions i).first_addr
  pub high :
      (i : ℕ)
      → i < m.nr_regions
      → (m.regions i).end_addr ≤ (m.regions i).base + (m.regions i).nr_pages * page_size

-- The region that find_region finds holds the addresses.
pub record Holds (m : Memory) (begin len i : ℕ) : Type 0 where
  pub exists : i < m.nr_regions
  pub first : (m.regions i).first_addr ≤ begin
  pub last : begin + len ≤ (m.regions i).end_addr

pub find_in-bounds :
    (k i begin end_addr : ℕ) (m : Memory) (found : ℕ)
    → find_in k i begin end_addr m ≡ some found
    → (found < i + k)
      × ((m.regions found).first_addr ≤ begin)
      × (end_addr ≤ (m.regions found).end_addr)
unfolding find_in
find_in-bounds zero i begin end_addr m found h = absurd (cc)
find_in-bounds (suc k) i begin end_addr m found h =
    elim (Bool-cases (leb (m.regions i).first_addr begin && leb end_addr (m.regions i).end_addr)) [
      | inl here ↦
          let h' = rw here at h in
          let same : i ≡ found = cc in
          (
            omega (arith, same),
            rw (sym same) (ground (arith, here)),
            rw (sym same) (ground (arith, here)),
          )
      | inr there ↦
          let (l, f, e) = find_in-bounds k (suc i) begin end_addr m found (rw there at h) in
          (omega (arith, l), f, e)
    ]

pub find_region-Holds :
    (m : Memory) (begin len i : ℕ)
    → begin < 2 ^ 32
    → len < 2 ^ 32
    → find_region m begin len ≡ some i
    → Holds m begin len i
unfolding find_region
find_region-Holds m begin len i bl ll h = elim (Bool-cases (ltb ((begin + len) % 2 ^ 32) begin)) [
  | inl wraps ↦ absurd (let h' = rw wraps at h in cc)
  | inr fine ↦
      let (l, f, e) = find_in-bounds m.nr_regions 0 begin _ m i (rw fine at h) in
      record { exists = omega (arith, l); first = f; last = ground (arith, e, fine, bl, ll) }
]

-- The first refusal of a page and of the pages behind it.
abbrev pub first_of : Option Errno → Option Errno → Option Errno
first_of x rest = elim x [ some e ↦ some e | none ↦ rest ]

pub first_of-none : (x rest : Option Errno) → first_of x rest ≡ none → (x ≡ none) × (rest ≡ none)
first_of-none (some e) rest h = absurd (cc)
first_of-none none rest h = (refl, h)

first_of-some :
    (x rest : Option Errno) (e : Errno) → first_of x rest ≡ some e → (x ≡ some e) ⊎ (rest ≡ some e)
first_of-some (some e') rest e h = inl h
first_of-some none rest e h = inr h

pub verify-none :
    (n i : ℕ) (owner : Option ℕ) (r : Region)
    → verify n i owner r ≡ none
    → (q : ℕ) → i ≤ q
    → q < i + n
    → refusal owner (r.pages q) ≡ none
unfolding verify
verify-none zero i owner r h q l u = absurd (omega (arith, l, u))
verify-none (suc n) i owner r h q l u =
    let (first, rest) = first_of-none (refusal owner (r.pages i)) (verify n (suc i) owner r) h in
    elim (Bool-cases (q == i)) [
      | inl here ↦ rw ((==_iff q i).0 here) first
      | inr later ↦ verify-none n (suc i) owner r rest q (ground arith) (omega (arith, u))
    ]

-- A page for which `verify` stops.
pub record Refused (n i : ℕ) (owner : Option ℕ) (r : Region) (e : Errno) : Type 0 where
  pub page : ℕ
  pub low : i ≤ page
  pub high : page < i + n
  pub why : refusal owner (r.pages page) ≡ some e

pub verify-Refused :
    (n i : ℕ) (owner : Option ℕ) (r : Region) (e : Errno)
    → verify n i owner r ≡ some e
    → Refused n i owner r e
unfolding verify
verify-Refused zero i owner r e h = absurd (cc)
verify-Refused (suc n) i owner r e h =
    elim (first_of-some (refusal owner (r.pages i)) (verify n (suc i) owner r) e h) [
      | inl first ↦ record { page = i; low = omega arith; high = omega arith; why = first }
      | inr rest ↦
          let w = verify-Refused n (suc i) owner r e rest in
          record {
            page = w.page;
            low = omega (arith, w.low);
            high = omega (arith, w.high);
            why = w.why;
          }
    ]

pub not_refused-not_free :
    (owner : Option ℕ) (p : PageInfo) → refusal owner p ≡ none → is_free_state p.state ≡ false
not_refused-not_free owner p h = ground arith

-- The page of an address of a region is one of its pages.
pub page_num-lt :
    (page_size : ℕ) (r : Region) (addr : ℕ)
    → 0 < page_size
    → r.base ≤ addr
    → addr < r.base + r.nr_pages * page_size
    → page_num page_size r addr < r.nr_pages
unfolding page_num
page_num-lt page_size r addr p l h =
    (div-lt_iff_lt-mul {k = page_size} {x = addr - r.base} {y = r.nr_pages} p).1
      (omega (arith, l, h))

pub page_num_mono :
    (page_size : ℕ) (r : Region) (addr addr' : ℕ)
    → 0 < page_size
    → addr ≤ addr'
    → page_num page_size r addr ≤ page_num page_size r addr'
unfolding page_num
page_num_mono page_size r addr addr' p l =
    (le-div_iff_mul-le {k = page_size} {x = (addr - r.base) / page_size} {y = addr' - r.base} p).1
      (omega (arith, div-mul-le_self (addr - r.base) page_size, l))

-- The pages of `len` bytes from `addr` in region `i`.
abbrev pub begin_of : ℕ → Memory → ℕ → ℕ → ℕ
begin_of page_size m addr i = page_num page_size (m.regions i) addr

abbrev pub end_of : ℕ → Memory → ℕ → ℕ → ℕ → ℕ
end_of page_size m addr len i = page_end page_size (m.regions i) addr len

-- The range's pages are some pages of the region.
module _ (page_size : ℕ) (m : Memory) (addr len : ℕ) (v : IsMemory page_size m) (i : ℕ)
    (here : Holds m addr len i) (some_bytes : 0 < len) where
  pub begin-lt-end : begin_of page_size m addr i < end_of page_size m addr len i
  unfolding page_end
  begin-lt-end =
      omega (
        arith,
        page_num_mono page_size (m.regions i) addr (addr + len - 1) v.some_size (omega arith),
      )

  pub end-le : end_of page_size m addr len i ≤ (m.regions i).nr_pages
  unfolding page_end
  end-le =
      let below =
        page_num-lt page_size (m.regions i) (addr + len - 1) v.some_size
          (omega (arith, v.low i here.exists, here.first))
          (omega (arith, v.high i here.exists, here.last)) in
      omega (arith, below)
