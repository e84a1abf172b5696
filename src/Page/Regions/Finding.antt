-- ===== src/Page/Regions/Finding.antt =====
-- find_block: the block that is found, and what it means that none is.
use apex.Base.{
  ℕ, zero, suc, ◌+◌, ◌-◌, ◌*◌, ◌/◌, ◌^◌, ◌≤◌, ◌<◌, ◌≡◌, refl, sym, ap, subst, ◌∙◌, true, false, leb,
  ◌==◌, arith, Option, none, some, List, [], ◌∷◌, count, Bool-cases, inl, inr, ==_iff,
}
use native.Mathlib.Nat.{mul_assoc, mul-div_cancel, div-lt_iff_lt-mul}
use apex.Page.{Region, first_page_in_block}
use apex.Page.Buddy.Cover.{above, covered, covered-above, free-covered}
use apex.Page.Free.{in_list, IsBlock, above-div}
use apex.Page.Regions.{find_from, find_block}
use apex.Page.Regions.States.{IsRegion, two_pow_pos}
use apex.Page.Regions.Freeing.{two_pow_add, above-above}

-- The first page that a scan of the lists finds stands in one of them.
record Found (r : Region) (fl k page : ℕ) : Type 0 where
  order : ℕ
  low : fl ≤ order
  high : order < fl + k
  listed : 0 < count page (r.blocks order)

abbrev scan : ℕ → ℕ → Region → List ℕ → Option ℕ
scan k fl r [] = find_from k (suc fl) r
scan k fl r (p ∷ _) = some p

find_from-scan :
    (k fl : ℕ) (r : Region) (q : List ℕ)
    → (elim q [ [] ↦ find_from k (suc fl) r | p ∷ _ ↦ some p ]) ≡ scan k fl r q
find_from-scan k fl r [] = refl
find_from-scan k fl r (p ∷ q) = refl

scan-Found :
    (k fl page : ℕ) (r : Region) (q : List ℕ)
    → r.blocks fl ≡ q
    → scan k fl r q ≡ some page
    → (find_from k (suc fl) r ≡ some page → Found r (suc fl) k page)
    → Found r fl (suc k) page
unfolding count
scan-Found k fl page r [] e h ih =
    let f = ih h in
    record {
      order = f.order;
      low = omega (arith, f.low);
      high = omega (arith, f.high);
      listed = f.listed;
    }
scan-Found k fl page r (p ∷ q) e h ih = record {
  order = fl;
  low = omega arith;
  high = omega arith;
  listed = rw e (let same : p ≡ page = cc in ground arith);
}

find_from-Found : (k fl page : ℕ) (r : Region) → find_from k fl r ≡ some page → Found r fl k page
unfolding find_from
find_from-Found zero fl page r h = absurd (cc)
find_from-Found (suc k) fl page r h =
    scan-Found k fl page r (r.blocks fl) refl (sym (find_from-scan k fl r (r.blocks fl)) ∙ h)
      (find_from-Found k (suc fl) page r)

scan-none :
    (k fl : ℕ) (r : Region) (q : List ℕ)
    → r.blocks fl ≡ q
    → scan k fl r q ≡ none
    → (r.blocks fl ≡ []) × (find_from k (suc fl) r ≡ none)
scan-none k fl r [] e h = (e, h)
scan-none k fl r (p ∷ q) e h = absurd (cc)

find_from-none :
    (k fl : ℕ) (r : Region)
    → find_from k fl r ≡ none
    → (o b : ℕ) → fl ≤ o
    → o < fl + k
    → in_list r o b ≡ false
unfolding find_from count
find_from-none zero fl r h o b l u = absurd (omega (arith, l, u))
find_from-none (suc k) fl r h o b l u =
    let (empty, rest) =
      scan-none k fl r (r.blocks fl) refl (sym (find_from-scan k fl r (r.blocks fl)) ∙ h) in
    elim (Bool-cases (o == fl)) [
      | inl here ↦ rw ((==_iff o fl).0 here, empty) refl
      | inr later ↦ find_from-none k (suc fl) r rest o b (ground arith) (omega (arith, u))
    ]

-- A first page of a list of a higher order is a first page of order `o` of the same block.
module _ (r : Region) (o page : ℕ) (v : IsRegion r) (f : Found r o (r.nr_orders - o) page)
    (some_order : o < r.nr_orders) where
  abbrev higher : ℕ
  higher = f.order - o

  placed_high : page / 2 ^ f.order * 2 ^ f.order ≡ page
  placed_high = v.buddy.shows.placed f.order page f.listed

  listed_high : in_list r f.order (page / 2 ^ f.order) ≡ true
  listed_high = rw placed_high (ground (arith, f.listed))

  page-lt-nr_pages : page < r.nr_pages
  page-lt-nr_pages =
      let found =
        covered-above (in_list r) f.order f.order (r.nr_orders - 1 - f.order) (r.nr_orders - 1) 0
          page (omega arith) (omega (arith, f.high, f.low))
          (rw (above-div f.order page) (free-covered (in_list r) _ f.order _ listed_high)) in
      ground (arith, v.states page, found)

  placed_low : page / 2 ^ o * 2 ^ o ≡ page
  placed_low =
      let c = page / 2 ^ f.order in
      let split : c * 2 ^ higher * 2 ^ o ≡ page =
        mul_assoc c (2 ^ higher) (2 ^ o)
        ∙ ap (λ x. c * x) (two_pow_add o higher f.order (omega (arith, f.low)))
        ∙ placed_high in
      subst (λ x. x / 2 ^ o * 2 ^ o ≡ x) split
        (ap (λ x. x * 2 ^ o) (mul-div_cancel (c * 2 ^ higher) (two_pow_pos o)))

  covered_low : covered (in_list r) (r.nr_orders - 1 - o) o (page / 2 ^ o) ≡ true
  covered_low =
      let up : o + higher ≡ f.order = omega (arith, f.low) in
      let same : above higher (page / 2 ^ o) ≡ page / 2 ^ f.order =
        ap (above higher) (sym (above-div o page))
        ∙ sym (above-above o higher f.order page up)
        ∙ above-div f.order page in
      covered-above (in_list r) f.order higher (r.nr_orders - 1 - f.order) _ o (page / 2 ^ o) up
        (omega (arith, f.high, f.low)) (rw same (free-covered (in_list r) _ f.order _ listed_high))

  found-IsBlock : IsBlock r page o (r.nr_orders - 1 - o)
  unfolding first_page_in_block
  found-IsBlock = record {
    level = omega (arith, some_order);
    inside = (div-lt_iff_lt-mul {k = 2 ^ o} {x = page} (two_pow_pos o)).1 (
        omega (
          arith,
          page-lt-nr_pages,
          v.sized,
          two_pow_add o (r.nr_orders - 1 - o) (r.nr_orders - 1) (omega (arith, some_order)),
        ));
    aligned = placed_low;
  }

-- The block that find_block finds lies in a free block of the region.
pub find_block-IsBlock :
    (r : Region) (o page : ℕ)
    → IsRegion r
    → find_block r o ≡ some page
    → IsBlock r page o (r.nr_orders - 1 - o)
      × (covered (in_list r) (r.nr_orders - 1 - o) o (page / 2 ^ o) ≡ true)
unfolding find_block
find_block-IsBlock r o page v h = elim (Bool-cases (leb r.nr_orders o)) [
  | inl high ↦ absurd (let h' = rw high at h in cc)
  | inr low ↦
      let f = find_from-Found (r.nr_orders - o) o page r (rw low at h) in
      let some_order : o < r.nr_orders = ground arith in
      (found-IsBlock r o page v f some_order, covered_low r o page v f some_order)
]

-- If find_block finds nothing, no block of the order or of a higher one is free.
pub find_block-none :
    (r : Region) (o : ℕ)
    → find_block r o ≡ none
    → (i b : ℕ) → o ≤ i
    → i < r.nr_orders
    → in_list r i b ≡ false
unfolding find_block
find_block-none r o h i b l u = elim (Bool-cases (leb r.nr_orders o)) [
  | inl high ↦ absurd (ground arith)
  | inr low ↦ find_from-none (r.nr_orders - o) o r (rw low at h) i b l (ground arith)
]
