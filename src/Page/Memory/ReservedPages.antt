-- ===== src/Page/Memory/ReservedPages.antt =====
-- Which pages page_reserve takes, and for which it refuses.
use apex.Base.{
  ℕ, zero, suc, ◌+◌, ◌-◌, ◌≤◌, ◌<◌, ◌≡◌, refl, sym, ◌∙◌, Bool, true, false, ◌&&◌, Option, none,
  some, ltb, leb, ◌==◌, if◌then◌else◌, arith, Bool-cases, inl, inr, ==_iff,
}
use apex.Page.{PgState, free, hole, system, fixed, mapped, PageInfo, Region}
use apex.Page.Regions.{same_owner, do_alloc}
use native.Mathlib.Nat.{pow-zero, div-one, mul-one}
use apex.Page.{first_page_in_block}
use apex.Page.Free.{IsBlock}
use apex.Page.Regions.States.{SamePlace, IsRegion, is_free_state, info_of, do_alloc-Allocated}
use apex.Page.Memory.Reserve.{pg_state, reservable, all_reservable, reserve_pages}

-- A page of a region is a block of order 0.
one_page-IsBlock :
    (r : Region) (i : ℕ) → IsRegion r → i < r.nr_pages → IsBlock r i 0 (r.nr_orders - 1)
unfolding first_page_in_block
one_page-IsBlock r i v l = record {
  level = omega (arith, v.some_order);
  inside = rw (pow-zero, div-one) (omega (arith, v.sized, l));
  aligned = rw (pow-zero, div-one, mul-one) refl;
}

-- What reserving `n` pages from `i` promises: those that are free are taken.
pub record Reserved (r : Region) (i n : ℕ) (st : PgState) (owner : Option ℕ) (r' : Region)
    : Type 0 where
  pub valid : IsRegion r'
  pub same : (r'.nr_pages ≡ r.nr_pages) × (r'.nr_orders ≡ r.nr_orders)
  pub place : SamePlace r r'
  pub pages :
      (q : ℕ)
      → r'.pages q ≡ (
          if leb i q && ltb q (i + n) && is_free_state (r.pages q).state
          then record { state = st; owner = owner }
          else r.pages q)

free_num : (st : PgState) → (pg_state st == 0) ≡ is_free_state st
free_num free = refl
free_num hole = refl
free_num system = refl
free_num fixed = refl
free_num mapped = refl

-- A range of one page.
only_page :
    (r : Region) (i : ℕ) (info : PageInfo) (b : Bool)
    → is_free_state (r.pages i).state ≡ b
    → (q : ℕ)
    → (if leb i q && ltb q (i + 1) && is_free_state (r.pages q).state then info else r.pages q)
      ≡ (if b && (q == i) then info else r.pages q)
only_page r i info b h q = elim (Bool-cases (q == i)) [
  | inl same ↦ rw ((==_iff q i).0 same) (ground (arith, h))
  | inr other ↦ ground arith
]

module _ (page_size : ℕ) (st : PgState) (owner : Option ℕ) (taken : is_free_state st ≡ false) where
  reserve_one-Reserved :
      (r : Region) (i : ℕ)
      → IsRegion r
      → i < r.nr_pages
      → Reserved r i 1 st owner
          (if pg_state (r.pages i).state == 0 then (do_alloc page_size r i 0 st owner).0 else r)
  reserve_one-Reserved r i v l =
      let info = info_of st owner in
      elim (Bool-cases (is_free_state (r.pages i).state)) [
        | inl f ↦
            let a =
              do_alloc-Allocated page_size r i 0 _ (one_page-IsBlock r i v l) v st owner taken
                (rw (pow-zero, div-one) (ground (arith, v.states i, f, l))) in
            rw (free_num (r.pages i).state, f)
              (record {
                valid = a.valid;
                same = a.same;
                place = a.place;
                pages = λ q.
                    a.pages q
                    ∙ rw (pow-zero, div-one q, div-one i) (sym (only_page r i info true f q));
              })
        | inr held ↦
            rw (free_num (r.pages i).state, held)
              (record {
                valid = v;
                same = (refl, refl);
                place = (refl, refl, refl, refl);
                pages = λ q. sym (only_page r i info false held q);
              })
      ]

  pub reserve_pages-Reserved :
      (n i : ℕ) (r : Region)
      → IsRegion r
      → i + n ≤ r.nr_pages
      → Reserved r i n st owner (reserve_pages page_size n i st owner r)
  unfolding reserve_pages
  reserve_pages-Reserved zero i r v l = record {
    valid = v;
    same = (refl, refl);
    place = (refl, refl, refl, refl);
    pages = λ q. ground arith;
  }
  reserve_pages-Reserved (suc n) i r v l =
      let one = reserve_one-Reserved r i v (omega (arith, l)) in
      let rest = reserve_pages-Reserved n (suc i) _ one.valid (rw one.same.0 (omega (arith, l))) in
      record {
        valid = rest.valid;
        same = (rest.same.0 ∙ one.same.0, rest.same.1 ∙ one.same.1);
        place = (
          rest.place.0 ∙ one.place.0,
          rest.place.1 ∙ one.place.1,
          rest.place.2 ∙ one.place.2,
          rest.place.3 ∙ one.place.3,
        );
        pages = λ q. rest.pages q ∙ rw (one.pages q) (ground arith);
      }

all_reservable-each :
    (n i : ℕ) (st : PgState) (attr : ℕ) (owner : Option ℕ) (r : Region)
    → all_reservable n i st attr owner r ≡ true
    → (q : ℕ) → i ≤ q
    → q < i + n
    → reservable st attr owner (r.pages q) ≡ true
unfolding all_reservable
all_reservable-each zero i st attr owner r h q l u = absurd (omega (arith, l, u))
all_reservable-each (suc n) i st attr owner r h q l u =
    let (first, rest) = both (reservable st attr owner (r.pages i)) _ h in
    elim (Bool-cases (q == i)) [
      | inl here ↦ rw ((==_iff q i).0 here) first
      | inr later ↦
          all_reservable-each n (suc i) st attr owner r rest q (ground arith) (omega (arith, u))
    ]
  where
    both : (a b : Bool) → (a && b) ≡ true → (a ≡ true) × (b ≡ true)
    both true b h = (refl, h)
    both false b h = absurd (cc)

-- A page that may not be reserved.
pub record InUse (n i : ℕ) (st : PgState) (attr : ℕ) (owner : Option ℕ) (r : Region) : Type 0 where
  pub page : ℕ
  pub low : i ≤ page
  pub high : page < i + n
  pub why : reservable st attr owner (r.pages page) ≡ false

pub all_reservable-InUse :
    (n i : ℕ) (st : PgState) (attr : ℕ) (owner : Option ℕ) (r : Region)
    → all_reservable n i st attr owner r ≡ false
    → InUse n i st attr owner r
unfolding all_reservable
all_reservable-InUse zero i st attr owner r h = absurd (cc)
all_reservable-InUse (suc n) i st attr owner r h =
    elim (Bool-cases (reservable st attr owner (r.pages i))) [
      | inr here ↦ record { page = i; low = omega arith; high = omega arith; why = here }
      | inl fine ↦
          let w = all_reservable-InUse n (suc i) st attr owner r (rw fine at h) in
          record {
            page = w.page;
            low = omega (arith, w.low);
            high = omega (arith, w.high);
            why = w.why;
          }
    ]

-- The range's pages are all reserved for the owner, and no other page changes.
pub record ReservedRange (r : Region) (begin last : ℕ) (st : PgState) (owner : Option ℕ)
    (r' : Region) : Type 0 where
  pub valid : IsRegion r'
  pub taken :
      (q : ℕ)
      → begin ≤ q
      → q < last
      → (pg_state (r'.pages q).state ≡ pg_state st) × (same_owner (r'.pages q).owner owner ≡ true)
  pub others : (q : ℕ) → (leb begin q && ltb q last) ≡ false → r'.pages q ≡ r.pages q

same_owner_refl : (owner : Option ℕ) → same_owner owner owner ≡ true
same_owner_refl none = refl
same_owner_refl (some a) = ground arith

taken_page :
    (st : PgState) (attr : ℕ) (owner : Option ℕ) (p : PageInfo) (b : Bool)
    → is_free_state p.state ≡ b
    → reservable st attr owner p ≡ true
    → let p' : PageInfo = if b then info_of st owner else p in
      (pg_state p'.state ≡ pg_state st) × (same_owner p'.owner owner ≡ true)
taken_page st attr owner p true h each = (refl, same_owner_refl owner)
taken_page st attr owner p false h each =
    let held = free_num p.state ∙ h in (ground (arith, each, held), ground (arith, each, held))

pub reserve_range-ReservedRange :
    (page_size : ℕ) (r : Region) (begin n : ℕ) (st : PgState) (attr : ℕ) (owner : Option ℕ)
    → is_free_state st ≡ false
    → IsRegion r
    → begin + n ≤ r.nr_pages
    → all_reservable n begin st attr owner r ≡ true
    → ReservedRange r begin (begin + n) st owner (reserve_pages page_size n begin st owner r)
reserve_range-ReservedRange page_size r begin n st attr owner taken v fits h =
    let f = reserve_pages-Reserved page_size st owner taken n begin r v fits in
    record {
      valid = f.valid;
      taken = λ q l u.
          let each = all_reservable-each n begin st attr owner r h q l u in
          rw
            (
              f.pages q,
              let c : leb begin q ≡ true = ground arith in c,
              let c : ltb q (begin + n) ≡ true = ground arith in c,
            )
            (taken_page st attr owner (r.pages q) (is_free_state (r.pages q).state) refl each);
      others = λ q out. f.pages q ∙ ground (arith, out);
    }
