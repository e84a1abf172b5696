-- ===== src/Page/Memory/Allotment.antt =====
-- page_alloc: what it hands out, and that its pages are free again when their pointer is destroyed.
use apex.Base.{
  ℕ, ◌+◌, ◌-◌, ◌*◌, ◌^◌, ◌≤◌, ◌<◌, ◌≡◌, refl, ap, ◌∙◌, Bool, true, false, Option, none, some, ◌==◌,
  if◌then◌else◌, arith, Bool-cases, ◌⊎◌, inl, inr, ==_iff,
}
use native.Mathlib.Nat.{mul_comm, add-mul}
use apex.Page.{free, PageInfo, Region}
use apex.Page.Regions.{PagePtr, page_addr}
use apex.Page.Regions.States.{is_free_state, info_of}
use apex.Page.Memory.{Memory, refusal}
use apex.Page.Memory.Alloc.{state_of, page_alloc_order}
use apex.Page.Memory.Ptr.{empty, trim, page_align, page_alloc}
use apex.Page.Memory.Orders.{
  le-pages, pages_for, order_for, page_align-pages_for, pages_for_pos, pages_for-bounds,
  order_for-bounds,
}
use apex.Page.Memory.Ranges.{IsMemory}
use apex.Page.Memory.Layout.{IsLaidOut}
use apex.Page.Memory.Allocating.{
  Suits, AllocatedFrom, plain, any_speed, exact_speed, Ordered, as_asked, slower, nothing,
  page_alloc_order-Ordered,
}
use apex.Page.Memory.Changes.{
  page_of, SameRegions, SameRegions-IsLaidOut, SameRegions-trans, in_range,
}
use apex.Page.Memory.Allotting.{
  block-SameRegions, block_pages, block_page, block_addrs, trim-Trimmed,
}

-- A region has what is asked for, or all but the speed if another speed will do.
abbrev pub Suited : ℕ → Region → Type 0
Suited attr r =
    Suits (plain attr) (exact_speed attr) r
    ⊎ ((exact_speed attr ≡ false) × Suits (any_speed attr) false r)

-- `n` free pages of a suitable region have been handed out: they have the state and the owner, and
-- no other page is free or held that was not.
pub record AllottedFrom (page_size : ℕ) (m : Memory) (n attr : ℕ) (owner : Option ℕ) (p : PagePtr)
    (m' : Memory) : Type 0 where
  pub region : ℕ
  pub first : ℕ
  pub exists : region < m.nr_regions
  pub suited : Suited attr (m.regions region)
  pub pointer : p ≡ record {
    phys = page_addr page_size (m.regions region) first;
    length = n * page_size;
    owner = owner;
  }
  pub inside :
      ((m.regions region).first_addr ≤ page_addr page_size (m.regions region) first)
      × (page_addr page_size (m.regions region) first + n * page_size ≤ (m.regions region).end_addr)
  pub were_free :
      (q : ℕ) → first ≤ q → q < first + n → is_free_state (page_of m region q).state ≡ true
  pub pages :
      (q : ℕ) → first ≤ q → q < first + n → page_of m' region q ≡ info_of (state_of attr) owner
  pub others :
      (j q : ℕ)
      → in_range region first n j q ≡ false
      → is_free_state (page_of m' j q).state ≡ is_free_state (page_of m j q).state
  pub held :
      (j q : ℕ) → is_free_state (page_of m j q).state ≡ false → page_of m' j q ≡ page_of m j q
  pub same : SameRegions m m'
  pub laid_out : IsLaidOut page_size m'

-- The owner may free its pages.
pub may_free : (attr : ℕ) (owner : Option ℕ) → refusal owner (info_of (state_of attr) owner) ≡ none
may_free attr none = ground arith
may_free attr (some a) = ground arith

is_taken : (attr : ℕ) → is_free_state (state_of attr) ≡ false
is_taken attr = ground arith

-- A page of a range that is taken and whose first pages are given back.
cut_page :
    (i first k n j q : ℕ) (x y info : PageInfo)
    → y ≡ (
        if in_range i first k j q
        then info_of free none
        else if in_range i first (k + n) j q
        then info
        else x)
    → (in_range i first (k + n) j q ≡ true → is_free_state x.state ≡ true)
    → (in_range i (first + k) n j q ≡ true → y ≡ info)
      × (in_range i (first + k) n j q ≡ false → is_free_state y.state ≡ is_free_state x.state)
      × (is_free_state x.state ≡ false → y ≡ x)
cut_page i first k n j q x y info e was =
    (λ h. ground (arith, e, h), λ h. ground (arith, e, h, was), λ h. ground (arith, e, h, was))

module _ (page_size : ℕ) (m : Memory) (n attr : ℕ) (owner : Option ℕ) (v : IsMemory page_size m)
    (laid : IsLaidOut page_size m) (some_pages : 0 < n) where
  -- The block that page_alloc_order gives is cut to size.
  by_block :
      (attr' : ℕ) (exact : Bool) (o : ℕ) (p : PagePtr) (m₁ : Memory)
      → ((r : Region) → Suits attr' exact r → Suited attr r)
      → n ≤ 2 ^ o
      → AllocatedFrom page_size m attr' exact o (state_of attr) owner p m₁
      → (p' : PagePtr) × (m' : Memory) × (trim page_size o (n * page_size) owner p m₁
          ≡ some (p', m'))
        × AllottedFrom page_size m n attr owner p' m'
  unfolding page_addr
  by_block attr' exact o p m₁ suits fits a =
      let st = state_of attr in
      let mine = may_free attr owner in
      let (m₂, e, same, freed) =
        trim-Trimmed page_size m attr' exact o st owner p m₁ a v laid mine n some_pages fits in
      let before = block_pages page_size m attr' exact o st owner p m₁ a v laid mine in
      let was = block_page page_size m attr' exact o st owner p m₁ a v laid mine in
      let addrs = block_addrs page_size m attr' exact o st owner p m₁ a v laid mine in
      let one = block-SameRegions page_size m attr' exact o st owner p m₁ a v laid mine in
      let both = SameRegions-trans m m₁ m₂ one same in
      let taken = is_taken attr in
      let k = 2 ^ o - n in
      let all : k + n ≡ 2 ^ o = omega (arith, fits) in
      let cut = λ (j q : ℕ).
        cut_page a.region a.page k n j q (page_of m j q) (page_of m₂ j q) (info_of st owner)
          (freed j q ∙ rw (all, before j q) refl)
          (λ h.
            let there = (==_iff j a.region).0 (ground (arith, h)) in
            rw there (was q (ground (arith, h)) (ground (arith, h, all))).1) in
      let part : (a.page + k) * page_size + n * page_size ≡ a.page * page_size + page_size * 2 ^ o =
        omega (
          arith,
          add-mul a.page k page_size,
          add-mul k n page_size,
          ap (λ x. x * page_size) all,
          mul_comm page_size (2 ^ o),
        ) in
      (
        _,
        m₂,
        e,
        record {
          region = a.region;
          first = a.page + k;
          exists = a.exists;
          suited = suits (m.regions a.region) a.suited;
          pointer = refl;
          inside =
              (omega (arith, addrs.0, add-mul a.page k page_size), omega (arith, addrs.1, part));
          were_free = λ q l u. (was q (omega (arith, l)) (omega (arith, u, fits))).1;
          pages = λ q l u. (cut a.region q).0 (ground (arith, l, u));
          others = λ j q. (cut j q).1;
          held = λ j q. (cut j q).2;
          same = both;
          laid_out =
              SameRegions-IsLaidOut page_size m m₂ laid both
                (λ i q f. ground (arith, (cut i q).0, (cut i q).1, f, taken));
        },
      )

-- `n` pages hold the bytes, and fewer do not.
abbrev pub IsEnough : ℕ → ℕ → ℕ → Type 0
IsEnough page_size len n = (len ≤ n * page_size) × (n * page_size < len + page_size)

-- What page_alloc promises: nothing for no bytes; else just enough pages, or nothing if
-- page_alloc_order has no block of the least order that holds them.
pub data Allotting (page_size : ℕ) (m : Memory) (len attr : ℕ) (owner : Option ℕ)
    : PagePtr → Memory → Type 0 where
  no_bytes : len ≡ 0 → Allotting page_size m len attr owner empty m
  no_block :
      (n o : ℕ)
      → IsEnough page_size len n
      → n ≤ 2 ^ o
      → 2 ^ o < 2 * n
      → page_alloc_order page_size m o attr owner ≡ none
      → Allotting page_size m len attr owner empty m
  allotted :
      (n : ℕ) (p : PagePtr) (m' : Memory)
      → IsEnough page_size len n
      → AllottedFrom page_size m n attr owner p m'
      → Allotting page_size m len attr owner p m'

abbrev pub Allots : ℕ → Memory → ℕ → ℕ → Option ℕ → Option (PagePtr × Memory) → Type 0
Allots page_size m len attr owner result =
    (p : PagePtr) × (m' : Memory) × (result ≡ some (p, m'))
    × Allotting page_size m len attr owner p m'

module _ (page_size s : ℕ) (m : Memory) (len attr : ℕ) (owner : Option ℕ)
    (power : page_size ≡ 2 ^ s) (v : IsMemory page_size m) (laid : IsLaidOut page_size m)
    (short : len + page_size ≤ 2 ^ 32) where
  abbrev finish : Option (PagePtr × Memory) → Option (PagePtr × Memory)
  finish found = elim found [
    | none ↦ some (empty, m)
    | some (p, m') ↦ trim page_size (order_for page_size len) (page_align page_size len) owner p m'
  ]

  by_found :
      (attr' : ℕ) (exact : Bool) (p : PagePtr) (m₁ : Memory)
      → ((r : Region) → Suits attr' exact r → Suited attr r)
      → AllocatedFrom page_size m attr' exact (order_for page_size len) (state_of attr) owner p m₁
      → 0 < len
      → Allots page_size m len attr owner (finish (some (p, m₁)))
  by_found attr' exact p m₁ suits a bytes =
      let n = pages_for page_size len in
      let o = order_for page_size len in
      let fits = (order_for-bounds page_size len v.some_size short s power bytes).0 in
      let (p', m', e, b) =
        by_block page_size m n attr owner v laid
          (pages_for_pos page_size len v.some_size short bytes) attr' exact o p m₁ suits fits a in
      (
        p',
        m',
        ap (λ l. trim page_size o l owner p m₁)
              (page_align-pages_for page_size len v.some_size short)
            ∙ e,
        allotted n p' m' (pages_for-bounds page_size len v.some_size short) b,
      )

  by_order :
      (found : Option (PagePtr × Memory))
      → page_alloc_order page_size m (order_for page_size len) attr owner ≡ found
      → Ordered page_size m (order_for page_size len) attr owner found
      → 0 < len
      → Allots page_size m len attr owner (finish found)
  by_order none e (nothing x y) bytes =
      let (enough, least) = order_for-bounds page_size len v.some_size short s power bytes in
      (
        empty,
        m,
        refl,
        no_block (pages_for page_size len) (order_for page_size len)
            (pages_for-bounds page_size len v.some_size short) enough least e,
      )
  by_order (some _) e (as_asked p m₁ a) bytes =
      by_found (plain attr) (exact_speed attr) p m₁ (λ r h. inl h) a bytes
  by_order (some _) e (slower p m₁ off x a) bytes =
      by_found (any_speed attr) false p m₁ (λ r h. inr (off, h)) a bytes

  -- page_alloc on valid memory, laid out as page_init does it, with pages of a power of two: for a
  -- length up to a page below 2^32 it returns. It hands out just enough free pages of a suitable
  -- region, which have the state and the owner; no other page becomes or stops being free, none
  -- that was held changes, and the memory stays laid out. Or it gives an empty pointer: for no
  -- bytes, or if page_alloc_order has no block of the least order that holds the pages.
  pub page_alloc-Allots : Allots page_size m len attr owner (page_alloc page_size m len attr owner)
  unfolding page_alloc
  page_alloc-Allots = elim (Bool-cases (len == 0)) [
    | inl none_asked ↦ rw none_asked (empty, m, refl, no_bytes ((==_iff len 0).0 none_asked))
    | inr bytes ↦
        let some_bytes : 0 < len = ground arith in
        let whole =
          le-pages page_size (pages_for page_size len)
            (pages_for_pos page_size len v.some_size short some_bytes) in
        let taken : (page_align page_size len == 0) ≡ false =
          ground
            (arith, whole, page_align-pages_for page_size len v.some_size short, v.some_size) in
        rw (bytes, taken)
          (by_order (page_alloc_order page_size m (order_for page_size len) attr owner) refl
            (page_alloc_order-Ordered page_size m (order_for page_size len) attr owner v)
            some_bytes)
  ]
