-- ===== src/Page/Memory/Holes.antt =====
-- The pages of a region without memory are reserved, and no others.
use apex.Base.{
  ℕ, zero, suc, ◌+◌, ◌-◌, ◌*◌, ◌%◌, ◌^◌, ◌≤◌, ◌<◌, ◌≡◌, refl, sym, ap, subst, ◌∙◌, true, false,
  ◌&&◌, Option, none, some, ltb, leb, ◌==◌, arith,
}
use native.Mathlib.Nat.{mul_comm, zero-mul, suc-mul, add-mul}
use apex.Base.Status.{Status, failed}
use apex.Page.{PgState, hole, Region}
use apex.Page.Regions.{page_addr}
use apex.Page.Regions.States.{IsRegion, SamePlace, is_free_state}
use apex.Page.Memory.Reserve.{all_reservable, reserve_pages, reserve_range, reserve_in}
use apex.Page.Memory.ReservedPages.{Reserved, reserve_pages-Reserved}
use apex.Page.Memory.Orders.{le-pages}
use apex.Page.Memory.Layout.{page_num-page_addr, page_end-page_addr}
use apex.Page.Memory.Init.{reserve_holes}

free-all_reservable :
    (n i : ℕ) (st : PgState) (attr : ℕ) (owner : Option ℕ) (r : Region)
    → ((q : ℕ) → i ≤ q → q < i + n → is_free_state (r.pages q).state ≡ true)
    → all_reservable n i st attr owner r ≡ true
unfolding all_reservable
free-all_reservable zero i st attr owner r h = refl
free-all_reservable (suc n) i st attr owner r h = ground (
  arith,
  h i (omega arith) (omega arith),
  free-all_reservable n (suc i) st attr owner r (λ q l u. h q (omega arith) (omega (arith, u))),
)

-- Pages that are free are all reserved.
abbrev Holed : ℕ → Region → ℕ → ℕ → Status × Region → Type 0
Holed page_size r first n s = (failed s.0 ≡ false) × Reserved r first n hole none s.1

module _ (page_size : ℕ) (some_size : 0 < page_size) where
  reserve_range-Holed :
      (r : Region) (first n : ℕ)
      → IsRegion r
      → first + n ≤ r.nr_pages
      → ((q : ℕ) → first ≤ q → q < first + n → is_free_state (r.pages q).state ≡ true)
      → Holed page_size r first n
          (reserve_range page_size r (page_addr page_size r first) (n * page_size) hole 0 none)
  unfolding reserve_range reserve_pages
  reserve_range-Holed r first zero v fits free =
      rw (zero-mul page_size)
        (refl, reserve_pages-Reserved page_size hole none refl 0 first r v fits)
  reserve_range-Holed r first (suc k) v fits free =
      let bytes : (suc k * page_size == 0) ≡ false =
        ground (arith, some_size, suc-mul k page_size) in
      let begin = page_num-page_addr page_size r first some_size in
      let last = page_end-page_addr page_size r first k some_size in
      let number : first + suc k - first ≡ suc k = omega arith in
      let fine = free-all_reservable (suc k) first hole 0 none r free in
      rw (bytes, mul_comm (suc k) page_size, begin, last, number, fine)
        (refl, reserve_pages-Reserved page_size hole none refl (suc k) first r v fits)

  -- A region of which exactly the pages from `a` up to `b` are free.
  pub record HasMemory (r : Region) (a b : ℕ) (r' : Region) : Type 0 where
    pub valid : IsRegion r'
    pub place : SamePlace r r'
    pub same : r'.nr_pages ≡ r.nr_pages
    pub pages : (q : ℕ) → q < r.nr_pages → is_free_state (r'.pages q).state ≡ (leb a q && ltb q b)

  module _ (r : Region) (a b : ℕ) (v : IsRegion r)
      (free : (q : ℕ) → is_free_state (r.pages q).state ≡ true) (some_pages : a < b)
      (fits : b ≤ r.nr_pages) (begins : r.first_addr ≡ page_addr page_size r a)
      (ends : r.end_addr ≡ page_addr page_size r b) (sized : r.size ≡ r.nr_pages * page_size)
      (short : r.base + r.size ≤ 2 ^ 32) where
    abbrev low : Status × Region
    low = reserve_range page_size r r.base (r.first_addr - r.base) hole 0 none

    low-Holed : Holed page_size r 0 a low
    unfolding page_addr
    low-Holed =
        let base : page_addr page_size r 0 ≡ r.base = omega (arith, zero-mul page_size) in
        let len : a * page_size ≡ r.first_addr - r.base = omega (arith, begins) in
        subst
          (λ x.
            Holed page_size r 0 a (reserve_range page_size r x (r.first_addr - r.base) hole 0 none))
          base
          (subst
            (λ n.
              Holed page_size r 0 a
                (reserve_range page_size r (page_addr page_size r 0) n hole 0 none))
            len (reserve_range-Holed r 0 a v (omega (arith, some_pages, fits)) (λ q l u. free q)))

    abbrev rest : ℕ
    rest = (low.1.base + low.1.size + (2 ^ 32 - low.1.end_addr)) % 2 ^ 32

    abbrev high : Status × Region
    high = reserve_range page_size low.1 low.1.end_addr rest hole 0 none

    high-Holed : Holed page_size low.1 b (r.nr_pages - b) high
    unfolding page_addr
    high-Holed =
        let h = low-Holed.1 in
        let addr : page_addr page_size low.1 b ≡ low.1.end_addr =
          rw (h.place.0, h.place.2) (sym ends) in
        let part : r.nr_pages * page_size ≡ (r.nr_pages - b) * page_size + b * page_size =
          ap (λ x. x * page_size) (omega (arith, fits)) ∙ add-mul (r.nr_pages - b) b page_size in
        let whole : page_size ≤ b * page_size = le-pages page_size b (omega (arith, some_pages)) in
        let len : (r.nr_pages - b) * page_size ≡ rest =
          rw (h.place.0, h.place.2, h.place.3)
            (omega (arith, ends, sized, short, part, whole, some_size)) in
        subst
          (λ x.
            Holed page_size low.1 b (r.nr_pages - b)
              (reserve_range page_size low.1 x rest hole 0 none))
          addr
          (subst
            (λ n.
              Holed page_size low.1 b (r.nr_pages - b)
                (reserve_range page_size low.1 (page_addr page_size low.1 b) n hole 0 none))
            len
            (reserve_range-Holed low.1 b (r.nr_pages - b) h.valid
              (rw h.same.0 (omega (arith, fits)))
              (λ q l u. rw (h.pages q) (ground (arith, free q, l, some_pages)))))

    pub reserve_holes-HasMemory :
        (r' : Region) × (reserve_holes page_size r ≡ some r') × HasMemory r a b r'
    unfolding reserve_holes reserve_in
    reserve_holes-HasMemory =
        let h = low-Holed in
        let g = high-Holed in
        (
          high.1,
          rw (h.0, g.0) refl,
          record {
            valid = g.1.valid;
            place = (
              g.1.place.0 ∙ h.1.place.0,
              g.1.place.1 ∙ h.1.place.1,
              g.1.place.2 ∙ h.1.place.2,
              g.1.place.3 ∙ h.1.place.3,
            );
            same = g.1.same.0 ∙ h.1.same.0;
            pages = λ q l. ground (arith, g.1.pages q, h.1.pages q, free q, l, some_pages, fits);
          },
        )
