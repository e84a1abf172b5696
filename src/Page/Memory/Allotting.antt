-- ===== src/Page/Memory/Allotting.antt =====
-- The end of page_alloc: the low pages of the block that are not asked for are given back.
use apex.Base.{
  ℕ, suc, ◌+◌, ◌-◌, ◌*◌, ◌%◌, ◌^◌, ◌≤◌, ◌<◌, ◌≡◌, refl, sym, ap, subst, ◌∙◌, Bool, true, false,
  Option, none, some, ◌==◌, if◌then◌else◌, arith,
}
use native.Mathlib.Nat.{mul_comm, add-mul, mul-add, suc-mul}
use apex.Base.Status.{Status}
use apex.Page.{PgState, Region}
use apex.Page.Regions.{PagePtr, page_addr}
use apex.Page.Regions.States.{is_free_state, info_of, in_block-range, two_pow_pos}
use apex.Page.Regions.Freeing.{block-lt-nr_pages}
use apex.Page.Memory.{Memory, refusal, page_free}
use apex.Page.Memory.Ptr.{get, release, excess, trim}
use apex.Page.Memory.Orders.{le-pages}
use apex.Page.Memory.Ranges.{IsMemory}
use apex.Page.Memory.Layout.{IsLaidOut, Owns}
use apex.Page.Memory.Allocating.{AllocatedFrom}
use apex.Page.Memory.Changes.{
  page_of, SameRegions, SameRegions-IsMemory, SameRegions-IsLaidOut, set_region-SameRegions,
  in_range, set_region-pages, page_free-Frees,
}

get-held : (p : PagePtr) → (p.length == 0) ≡ false → get p ≡ some p.phys
unfolding get
get-held p held = rw held refl

release-held :
    (p : PagePtr) → (p.length == 0) ≡ false → release p ≡ some (p.phys, record p { length = 0 })
unfolding release
release-held p held = rw held refl

trim-steps :
    (page_size o len : ℕ) (owner : Option ℕ) (p : PagePtr) (m m' : Memory) (status : Status)
    → (p.length == 0) ≡ false
    → page_free page_size m p.phys (excess page_size o len) owner ≡ some (status, m')
    → trim page_size o len owner p m
      ≡ some (
        record { phys = (p.phys + excess page_size o len) % 2 ^ 32; length = len; owner = owner },
        m',
      )
unfolding trim
trim-steps page_size o len owner p m m' status held freed =
    rw (trim, get-held p held, freed, release-held p held) refl

module _ (page_size : ℕ) (m : Memory) (attr : ℕ) (exact : Bool) (o : ℕ) (st : PgState)
    (owner : Option ℕ) (p : PagePtr) (m₁ : Memory)
    (a : AllocatedFrom page_size m attr exact o st owner p m₁) (v : IsMemory page_size m)
    (laid : IsLaidOut page_size m) (mine : refusal owner (info_of st owner) ≡ none) where
  abbrev region : Region
  region = m.regions a.region

  pub block-SameRegions : SameRegions m m₁
  block-SameRegions = rw a.memory (
      set_region-SameRegions m a.region a.changed v.regions a.allocated.valid a.allocated.place
        a.allocated.same.0)

  pub block_pages :
      (j q : ℕ)
      → page_of m₁ j q
        ≡ (if in_range a.region a.page (2 ^ o) j q then info_of st owner else page_of m j q)
  block_pages = rw a.memory (
      set_region-pages m a.region a.page (2 ^ o) a.changed (info_of st owner) (λ q.
        subst (λ (c : Bool). a.changed.pages q ≡ (if c then info_of st owner else region.pages q))
          (in_block-range a.page o q a.block.aligned) (a.allocated.pages q)))

  -- The pages of the block are in the region, and were free.
  pub block_page :
      (q : ℕ)
      → a.page ≤ q
      → q < a.page + 2 ^ o
      → (q < region.nr_pages) × (is_free_state (region.pages q).state ≡ true)
  block_page q l u =
      let inside = in_block-range a.page o q a.block.aligned ∙ ground (arith, l, u) in
      (
        block-lt-nr_pages region a.page o _ q a.block (v.regions a.region a.exists).sized inside,
        a.allocated.were_free q inside,
      )

  pub block_addrs :
      (region.first_addr ≤ page_addr page_size region a.page)
      × (page_addr page_size region a.page + page_size * 2 ^ o ≤ region.end_addr)
  unfolding page_addr
  block_addrs =
      let pos = two_pow_pos o in
      let top = a.page + (2 ^ o - 1) in
      let (lf, ff) = block_page a.page (omega arith) (omega (arith, pos)) in
      let (lt, ft) = block_page top (omega arith) (omega (arith, pos)) in
      let first = laid.usable a.region a.page a.exists lf ff in
      let last = laid.usable a.region top a.exists lt ft in
      let sum = add-mul a.page (2 ^ o - 1) page_size in
      let whole : (2 ^ o - 1) * page_size + page_size ≡ page_size * 2 ^ o =
        sym (suc-mul (2 ^ o - 1) page_size)
        ∙ mul_comm (suc (2 ^ o - 1)) page_size
        ∙ ap (λ x. page_size * x) (omega (arith, pos)) in
      (first.0, omega (arith, last.1, sum, whole))

  not_free : is_free_state st ≡ false
  not_free = ground (arith, mine)

  pub block-IsLaidOut : IsLaidOut page_size m₁
  block-IsLaidOut =
      SameRegions-IsLaidOut page_size m m₁ laid block-SameRegions
        (λ i q f. ground (arith, block_pages i q, not_free, f))

  block-IsMemory : IsMemory page_size m₁
  block-IsMemory = SameRegions-IsMemory page_size m m₁ v block-SameRegions

  same_page_addr : page_addr page_size (m₁.regions a.region) a.page ≡ p.phys
  unfolding page_addr
  same_page_addr =
      rw a.pointer (ap (λ b. b + a.page * page_size) (block-SameRegions.places a.region).0)

  module _ (n : ℕ) (some_pages : 0 < n) (fits : n ≤ 2 ^ o) where
    -- The pages that are given back are held.
    low-Owns : (k : ℕ) → 2 ^ o - n ≡ suc k → Owns page_size m₁ owner a.region a.page k
    low-Owns k e =
        let place = block-SameRegions.places a.region in
        let here = same_page_addr ∙ ap (λ (p : PagePtr). p.phys) a.pointer in
        let part : page_size * 2 ^ o ≡ page_size * suc k + page_size * n =
          ap (λ x. page_size * x) (omega (arith, e, fits)) ∙ mul-add page_size (suc k) n in
        record {
          exists = rw block-SameRegions.number a.exists;
          low = rw (here, place.1) block_addrs.0;
          high = rw (here, place.2) (omega (arith, block_addrs.1, part));
          held = λ q l u.
              (let inside : in_range a.region a.page (2 ^ o) a.region q ≡ true =
                  ground (arith, l, u, e) in
                rw (block_pages a.region q, inside) mine);
        }

    excess-pages : excess page_size o (n * page_size) ≡ page_size * (2 ^ o - n)
    excess-pages =
        let part : page_size * 2 ^ o ≡ page_size * (2 ^ o - n) + page_size * n =
          ap (λ x. page_size * x) (omega (arith, fits)) ∙ mul-add page_size (2 ^ o - n) n in
        let one = mul_comm page_size n in
        let pos = le-pages page_size n some_pages in
        omega (arith, part, one, block_addrs.1, laid.ends a.region a.exists, pos, v.some_size)

    -- What trim leaves.
    abbrev pub Trimmed : Option (PagePtr × Memory) → Type 0
    Trimmed result =
        (m₂ : Memory) × (result
          ≡ some (
            record {
              phys = page_addr page_size region (a.page + (2 ^ o - n));
              length = n * page_size;
              owner = owner;
            },
            m₂,
          ))
        × SameRegions m₁ m₂
        × ((j q : ℕ)
            → page_of m₂ j q ≡ (
                if in_range a.region a.page (2 ^ o - n) j q
                then info_of PgState.free none
                else page_of m₁ j q))

    block_held : (p.length == 0) ≡ false
    block_held =
        let whole = le-pages page_size (2 ^ o) (two_pow_pos o) in
        let long = ap (λ (p : PagePtr). p.length) a.pointer in
        ground (arith, whole, long, mul_comm page_size (2 ^ o), v.some_size)

    trimmed_addr :
        (p.phys + page_size * (2 ^ o - n)) % 2 ^ 32
        ≡ page_addr page_size region (a.page + (2 ^ o - n))
    unfolding page_addr
    trimmed_addr =
        let here = ap (λ (p : PagePtr). p.phys) a.pointer in
        let sum = add-mul a.page (2 ^ o - n) page_size in
        let one = mul_comm page_size (2 ^ o - n) in
        let part : page_size * 2 ^ o ≡ page_size * (2 ^ o - n) + page_size * n =
          ap (λ x. page_size * x) (omega (arith, fits)) ∙ mul-add page_size (2 ^ o - n) n in
        let below = laid.ends a.region a.exists in
        omega (arith, here, sum, one, part, block_addrs.1, below)

    pub trim-Trimmed : Trimmed (trim page_size o (n * page_size) owner p m₁)
    trim-Trimmed =
        let (status, m₂, e, same, pages) =
          page_free-Frees page_size m₁ owner a.region a.page block-IsMemory block-IsLaidOut
            (2 ^ o - n) low-Owns in
        let freed : page_free page_size m₁ p.phys (excess page_size o (n * page_size)) owner
            ≡ some (status, m₂) =
          rw (excess-pages, sym same_page_addr) e in
        (
          m₂,
          trim-steps page_size o (n * page_size) owner p m₁ m₂ status block_held freed
              ∙ rw (excess-pages, trimmed_addr) refl,
          same,
          pages,
        )
