-- ===== src/Page/Memory/Layout.antt =====
-- How page_init lays out the regions, and page_free of pages that are held.
use apex.Base.{
  ℕ, zero, suc, ◌+◌, ◌-◌, ◌*◌, ◌/◌, ◌%◌, ◌^◌, ◌≤◌, ◌<◌, ◌≡◌, ◌≢◌, refl, sym, ◌∙◌, true, false, ◌&&◌,
  Option, none, some, ltb, leb, ◌==◌, arith, Bool-cases, ◌⊎◌, inl, inr, ==_iff,
}
use native.Mathlib.Nat.{
  div-lt_iff_lt-mul, le-div_iff_mul-le, mul-div_cancel, suc-mul, add-mul, mul_comm,
}
use apex.Base.Status.{Status, ok}
use apex.Page.{Region}
use apex.Page.Regions.{page_num, page_addr}
use apex.Page.Regions.States.{is_free_state}
use apex.Page.Regions.Freeing.{FreedRange}
use apex.Page.Memory.{Memory, set_region, find_in, find_region, refusal, page_end, page_free}
use apex.Page.Memory.Ranges.{IsMemory, Holds}
use apex.Page.Memory.Freeing.{Freeing, no_bytes, no_region, refused, freed, page_free-Returns}

-- The regions do not overlap, end below 2^32, and a page that is free has memory behind it.
pub record IsLaidOut (page_size : ℕ) (m : Memory) : Type 0 where
  pub apart :
      (i j : ℕ)
      → i < m.nr_regions
      → j < m.nr_regions
      → i ≢ j
      → ((m.regions i).end_addr ≤ (m.regions j).first_addr)
        ⊎ ((m.regions j).end_addr ≤ (m.regions i).first_addr)
  pub ends : (i : ℕ) → i < m.nr_regions → (m.regions i).end_addr < 2 ^ 32
  pub usable :
      (i q : ℕ)
      → i < m.nr_regions
      → q < (m.regions i).nr_pages
      → is_free_state ((m.regions i).pages q).state ≡ true
      → ((m.regions i).first_addr ≤ page_addr page_size (m.regions i) q)
        × (page_addr page_size (m.regions i) q + page_size ≤ (m.regions i).end_addr)

-- `k` pages of region `i` from page `first` are held by the owner.
pub record Owns (page_size : ℕ) (m : Memory) (owner : Option ℕ) (i first k : ℕ) : Type 0 where
  pub exists : i < m.nr_regions
  pub low : (m.regions i).first_addr ≤ page_addr page_size (m.regions i) first
  pub high : page_addr page_size (m.regions i) first + page_size * suc k ≤ (m.regions i).end_addr
  pub held : (q : ℕ) → first ≤ q → q < first + suc k → refusal owner ((m.regions i).pages q) ≡ none

find_in-found :
    (k j i begin end_addr : ℕ) (m : Memory)
    → j ≤ i
    → i < j + k
    → (m.regions i).first_addr ≤ begin
    → end_addr ≤ (m.regions i).end_addr
    → find_in k j begin end_addr m ≢ none
unfolding find_in
find_in-found zero j i begin end_addr m l u first last h = absurd (omega (arith, l, u))
find_in-found (suc k) j i begin end_addr m l u first last h =
    elim (Bool-cases (leb (m.regions j).first_addr begin && leb end_addr (m.regions j).end_addr)) [
      | inl here ↦ (let h' = rw here at h in cc)
      | inr there ↦ elim (Bool-cases (i == j)) [
        | inl same ↦ absurd (
            let e = (==_iff i j).0 same in
            let first' = rw e at first in
            let last' = rw e at last in ground (arith, there, first', last'))
        | inr other ↦
            find_in-found k (suc j) i begin end_addr m (ground arith) (omega (arith, u)) first last
              (rw there at h)
      ]
    ]

find_region-found :
    (page_size : ℕ) (m : Memory) (begin len i : ℕ)
    → IsLaidOut page_size m
    → Holds m begin len i
    → find_region m begin len ≢ none
unfolding find_region
find_region-found page_size m begin len i laid here h =
    let high = laid.ends i here.exists in
    let ends : (begin + len) % 2 ^ 32 ≡ begin + len = omega (arith, high, here.last) in
    let fine : ltb ((begin + len) % 2 ^ 32) begin ≡ false = ground (arith, ends) in
    find_in-found m.nr_regions 0 i begin ((begin + len) % 2 ^ 32) m (omega arith)
      (omega (arith, here.exists)) here.first (rw ends here.last) (rw fine at h)

same_region :
    (page_size : ℕ) (m : Memory) (begin len i j : ℕ)
    → IsLaidOut page_size m
    → 0 < len
    → Holds m begin len i
    → Holds m begin len j
    → i ≡ j
same_region page_size m begin len i j laid bytes a b = elim (Bool-cases (i == j)) [
  | inl same ↦ (==_iff i j).0 same
  | inr other ↦ absurd (elim (laid.apart i j a.exists b.exists (λ e. ground (arith, other, e))) [
    | inl below ↦ omega (arith, a.last, b.first, below, bytes)
    | inr above ↦ omega (arith, b.last, a.first, above, bytes)
  ])
]

pub page_num-page_addr :
    (page_size : ℕ) (r : Region) (page : ℕ)
    → 0 < page_size
    → page_num page_size r (page_addr page_size r page) ≡ page
unfolding page_num page_addr
page_num-page_addr page_size r page p =
    let e : r.base + page * page_size - r.base ≡ page * page_size = omega arith in
    rw e (mul-div_cancel page p)

pub page_end-page_addr :
    (page_size : ℕ) (r : Region) (first k : ℕ)
    → 0 < page_size
    → page_end page_size r (page_addr page_size r first) (page_size * suc k) ≡ first + suc k
unfolding page_end page_num page_addr
page_end-page_addr page_size r first k p =
    let x = r.base + first * page_size + page_size * suc k - 1 - r.base in
    let e : page_size * suc k ≡ k * page_size + page_size =
      mul_comm page_size (suc k) ∙ suc-mul k page_size in
    let s = add-mul first k page_size in
    let low : first + k ≤ x / page_size =
      (le-div_iff_mul-le {k = page_size} {x = first + k} {y = x} p).1 (omega (arith, e, s, p)) in
    let high : x / page_size < suc (first + k) =
      (div-lt_iff_lt-mul {k = page_size} {x = x} {y = suc (first + k)} p).1
        (omega (arith, e, s, p, suc-mul (first + k) page_size)) in
    omega (arith, low, high)

-- What page_free does to pages that are held: it succeeds and frees exactly them.
abbrev pub FreesHeld : ℕ → Memory → ℕ → ℕ → ℕ → Status → Memory → Type 0
FreesHeld page_size m i first k status m' =
    (r' : Region) × (status ≡ ok 0)
    × (m' ≡ set_region i r' m)
    × FreedRange (m.regions i) first (first + suc k) r'

module _ (page_size : ℕ) (m : Memory) (owner : Option ℕ) (i first k : ℕ) (v : IsMemory page_size m)
    (laid : IsLaidOut page_size m) (own : Owns page_size m owner i first k) where
  abbrev from_addr : ℕ
  from_addr = page_addr page_size (m.regions i) first

  abbrev bytes : ℕ
  bytes = page_size * suc k

  bytes_pos : 0 < bytes
  bytes_pos = omega (arith, v.some_size, mul_comm page_size (suc k), suc-mul k page_size)

  range-Holds : Holds m from_addr bytes i
  range-Holds = record { exists = own.exists; first = own.low; last = own.high }

  by_freeing :
      (status : Status) (m' : Memory)
      → Freeing page_size m from_addr bytes owner status m'
      → FreesHeld page_size m i first k status m'
  by_freeing status m' (no_bytes z) = absurd (omega (arith, z, bytes_pos))
  by_freeing status m' (no_region h) =
      absurd (find_region-found page_size m from_addr bytes i laid range-Holds h)
  by_freeing status m' (refused j e here w) = absurd (
      let same = same_region page_size m from_addr bytes i j laid bytes_pos range-Holds here in
      let begin = page_num-page_addr page_size (m.regions i) first v.some_size in
      let last = page_end-page_addr page_size (m.regions i) first k v.some_size in
      let why = rw (sym same) at w.why in
      let low = rw (sym same, begin) at w.low in
      let high = rw (sym same, begin, last) at w.high in
      let fine = own.held w.page low (omega (arith, high, low)) in cc)
  by_freeing status m' (freed j r' here held f) =
      let same = same_region page_size m from_addr bytes i j laid bytes_pos range-Holds here in
      let begin = page_num-page_addr page_size (m.regions i) first v.some_size in
      let last = page_end-page_addr page_size (m.regions i) first k v.some_size in
      (r', refl, rw same refl, rw (sym same, begin, last) at f)

  pub page_free-FreesHeld :
      (status : Status) × (m' : Memory) × (page_free page_size m from_addr bytes owner
        ≡ some (status, m'))
      × FreesHeld page_size m i first k status m'
  page_free-FreesHeld =
      let end_addr = laid.ends i own.exists in
      let (status, m', e, f) =
        page_free-Returns page_size m from_addr bytes owner v (omega (arith, end_addr, own.high))
          (omega (arith, end_addr, own.high)) in
      (status, m', e, by_freeing status m' f)
