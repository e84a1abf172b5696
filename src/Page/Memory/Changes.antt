-- ===== src/Page/Memory/Changes.antt =====
-- Changes of pages in one region: the regions keep their places, and their pages are told by ranges.
use apex.Base.{
  ℕ, zero, suc, ◌+◌, ◌*◌, ◌<◌, ◌≡◌, refl, ap, ◌∙◌, Bool, true, ◌&&◌, Option, none, some, ltb, leb,
  ◌==◌, if◌then◌else◌, arith, Bool-cases, inl, inr, ==_iff,
}
use native.Mathlib.Nat.{mul-zero}
use apex.Base.Status.{Status, ok}
use apex.Page.{free, PageInfo, Region}
use apex.Page.Regions.{page_addr}
use apex.Page.Regions.States.{IsRegion, SamePlace, is_free_state, info_of}
use apex.Page.Memory.{Memory, set_region, page_free}
use apex.Page.Memory.Ranges.{IsMemory}
use apex.Page.Memory.Layout.{IsLaidOut, Owns, page_free-FreesHeld}

abbrev pub page_of : Memory → ℕ → ℕ → PageInfo
page_of m i q = (m.regions i).pages q

-- The same regions at the same places, and each of them valid.
pub record SameRegions (m m' : Memory) : Type 0 where
  pub number : m'.nr_regions ≡ m.nr_regions
  pub order : (j : ℕ) → m'.by_priority j ≡ m.by_priority j
  pub places : (i : ℕ) → SamePlace (m.regions i) (m'.regions i)
  pub sizes : (i : ℕ) → (m'.regions i).nr_pages ≡ (m.regions i).nr_pages
  pub valid : (i : ℕ) → i < m.nr_regions → IsRegion (m'.regions i)

pub SameRegions-IsMemory :
    (page_size : ℕ) (m m' : Memory)
    → IsMemory page_size m
    → SameRegions m m'
    → IsMemory page_size m'
SameRegions-IsMemory page_size m m' v same = record {
  some_size = v.some_size;
  regions = λ i l. same.valid i (rw same.number at l);
  by_priority = λ j l. rw (same.order j, same.number) (v.by_priority j (rw same.number at l));
  low = λ i l. rw ((same.places i).0, (same.places i).1) (v.low i (rw same.number at l));
  high = λ i l.
      rw ((same.places i).0, (same.places i).2, same.sizes i) (v.high i (rw same.number at l));
}

-- Pages that are free were free before.
pub SameRegions-IsLaidOut :
    (page_size : ℕ) (m m' : Memory)
    → IsLaidOut page_size m
    → SameRegions m m'
    → ((i q : ℕ)
        → is_free_state (page_of m' i q).state ≡ true
        → is_free_state (page_of m i q).state ≡ true)
    → IsLaidOut page_size m'
unfolding page_addr
SameRegions-IsLaidOut page_size m m' laid same was = record {
  apart = λ i j li lj ne.
      rw ((same.places i).1, (same.places i).2, (same.places j).1, (same.places j).2)
        (laid.apart i j (rw same.number at li) (rw same.number at lj) ne);
  ends = λ i l. rw (same.places i).2 (laid.ends i (rw same.number at l));
  usable = λ i q l u f.
      rw ((same.places i).0, (same.places i).1, (same.places i).2)
        (laid.usable i q (rw same.number at l) (rw (same.sizes i) at u) (was i q f));
}

-- A region of the memory is changed.
pub set_region-SameRegions :
    (m : Memory) (i : ℕ) (r' : Region)
    → ((j : ℕ) → j < m.nr_regions → IsRegion (m.regions j))
    → IsRegion r'
    → SamePlace (m.regions i) r'
    → r'.nr_pages ≡ (m.regions i).nr_pages
    → SameRegions m (set_region i r' m)
set_region-SameRegions m i r' v valid place size = record {
  number = refl;
  order = λ j. refl;
  places = λ j. elim (Bool-cases (j == i)) [
    | inl same ↦ rw same (rw ((==_iff j i).0 same) place)
    | inr other ↦ rw other (refl, refl, refl, refl)
  ];
  sizes = λ j. elim (Bool-cases (j == i)) [
    | inl same ↦ rw same (rw ((==_iff j i).0 same) size)
    | inr other ↦ rw other refl
  ];
  valid =
      λ j l. elim (Bool-cases (j == i)) [ inl same ↦ rw same valid | inr other ↦ rw other (v j l) ];
}

pub SameRegions-trans :
    (m₁ m₂ m₃ : Memory) → SameRegions m₁ m₂ → SameRegions m₂ m₃ → SameRegions m₁ m₃
SameRegions-trans m₁ m₂ m₃ a b = record {
  number = b.number ∙ a.number;
  order = λ j. b.order j ∙ a.order j;
  places = λ i. (
    (b.places i).0 ∙ (a.places i).0,
    (b.places i).1 ∙ (a.places i).1,
    (b.places i).2 ∙ (a.places i).2,
    (b.places i).3 ∙ (a.places i).3,
  );
  sizes = λ i. b.sizes i ∙ a.sizes i;
  valid = λ i l. b.valid i (rw a.number l);
}

-- One of the `n` pages from page `first` of region `i`.
abbrev pub in_range : ℕ → ℕ → ℕ → ℕ → ℕ → Bool
in_range i first n j q = (j == i) && (leb first q && ltb q (first + n))

-- The pages of region `i` change in a range, and no others.
pub set_region-pages :
    (m : Memory) (i first n : ℕ) (r' : Region) (info : PageInfo)
    → ((q : ℕ)
        → r'.pages q ≡ (if leb first q && ltb q (first + n) then info else (m.regions i).pages q))
    → (j q : ℕ)
    → page_of (set_region i r' m) j q ≡ (if in_range i first n j q then info else page_of m j q)
set_region-pages m i first n r' info pages j q = elim (Bool-cases (j == i)) [
  | inl same ↦
      let e = (==_iff j i).0 same in
      let now : (set_region i r' m).regions j ≡ r' = rw same refl in
      ap (λ (r : Region). r.pages q) now ∙ pages q ∙ rw (same, e) refl
  | inr other ↦
      let now : (set_region i r' m).regions j ≡ m.regions j = rw other refl in
      ap (λ (r : Region). r.pages q) now ∙ rw other refl
]

-- The pages of a range are free, and no other page changes.
abbrev pub Frees : ℕ → Memory → ℕ → ℕ → ℕ → Option (Status × Memory) → Type 0
Frees page_size m i first n result =
    (status : Status) × (m' : Memory) × (result ≡ some (status, m'))
    × SameRegions m m'
    × ((j q : ℕ)
        → page_of m' j q ≡ (if in_range i first n j q then info_of free none else page_of m j q))

-- page_free of pages that are held, or of none.
module _ (page_size : ℕ) (m : Memory) (owner : Option ℕ) (i first : ℕ) (v : IsMemory page_size m)
    (laid : IsLaidOut page_size m) where
  pub page_free-Frees :
      (n : ℕ)
      → ((k : ℕ) → n ≡ suc k → Owns page_size m owner i first k)
      → Frees page_size m i first n
          (page_free page_size m (page_addr page_size (m.regions i) first) (page_size * n) owner)
  unfolding page_free
  page_free-Frees zero own = (
    ok 0,
    m,
    rw (mul-zero page_size) refl,
    record {
      number = refl;
      order = λ j. refl;
      places = λ j. (refl, refl, refl, refl);
      sizes = λ j. refl;
      valid = v.regions;
    },
    λ j q. ground arith,
  )
  page_free-Frees (suc k) own =
      let (status, m', e, freed) =
        page_free-FreesHeld page_size m owner i first k v laid (own k refl) in
      let (r', done, same, f) = freed in
      (
        status,
        m',
        e,
        rw same (set_region-SameRegions m i r' v.regions f.valid f.place f.same.0),
        λ j q. rw same (set_region-pages m i first (suc k) r' (info_of free none) f.pages j q),
      )
