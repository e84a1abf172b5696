-- ===== src/Page/Memory/RoundTrip.antt =====
-- A page_ptr from page_alloc and its destructor.
use apex.Base.{
  ℕ, zero, suc, ◌+◌, ◌*◌, ◌^◌, ◌≤◌, ◌≡◌, refl, sym, ap, ◌∙◌, Bool, true, false, not, Option, none,
  some, ◌==◌, if◌then◌else◌, arith, ==_iff,
}
use native.Mathlib.Nat.{mul_comm, zero-mul}
use apex.Base.Status.{Status}
use apex.Page.Regions.{PagePtr, page_addr}
use apex.Page.Regions.States.{is_free_state}
use apex.Page.Memory.{Memory, page_free}
use apex.Page.Memory.Ptr.{empty, destroy, page_alloc}
use apex.Page.Memory.Orders.{le-pages}
use apex.Page.Memory.Ranges.{IsMemory}
use apex.Page.Memory.Layout.{IsLaidOut, Owns}
use apex.Page.Memory.Changes.{
  page_of, SameRegions, SameRegions-IsMemory, SameRegions-trans, in_range, page_free-Frees,
}
use apex.Page.Memory.Allotment.{
  AllottedFrom, may_free, Allotting, no_bytes, no_block, allotted, page_alloc-Allots,
}

-- The same pages are free, and those that are held have not changed.
pub record Restored (m m' : Memory) : Type 0 where
  pub same : SameRegions m m'
  pub free : (j q : ℕ) → is_free_state (page_of m' j q).state ≡ is_free_state (page_of m j q).state
  pub held :
      (j q : ℕ) → is_free_state (page_of m j q).state ≡ false → page_of m' j q ≡ page_of m j q

module _ (page_size : ℕ) (m : Memory) (v : IsMemory page_size m) where
  unchanged : Restored m m
  unchanged = record {
    same = record {
      number = refl;
      order = λ j. refl;
      places = λ j. (refl, refl, refl, refl);
      sizes = λ j. refl;
      valid = v.regions;
    };
    free = λ j q. refl;
    held = λ j q h. refl;
  }

  destroy-empty : destroy page_size empty m ≡ some m
  unfolding destroy
  destroy-empty = refl

abbrev memory_after : Option (Status × Memory) → Option Memory
memory_after none = none
memory_after (some (status, m')) = some m'

-- The pages of a pointer are freed.
destroy-held :
    (page_size : ℕ) (p : PagePtr) (m m' : Memory) (status : Status)
    → (p.length == 0) ≡ false
    → page_free page_size m p.phys p.length p.owner ≡ some (status, m')
    → destroy page_size p m ≡ some m'
unfolding destroy
destroy-held page_size p m m' status held e =
    ap
      (λ (b : Bool).
        if not b then memory_after (page_free page_size m p.phys p.length p.owner) else some m)
      held
    ∙ ap memory_after e

destroy-none :
    (page_size : ℕ) (p : PagePtr) (m : Memory)
    → (p.length == 0) ≡ true
    → destroy page_size p m ≡ some m
unfolding destroy
destroy-none page_size p m none_held = rw none_held refl

module _ (page_size : ℕ) (m : Memory) (attr : ℕ) (owner : Option ℕ) (p : PagePtr) (m' : Memory)
    (v : IsMemory page_size m) where
  allotted-Owns :
      (k : ℕ)
      → (a : AllottedFrom page_size m (suc k) attr owner p m')
      → Owns page_size m' owner a.region a.first k
  unfolding page_addr
  allotted-Owns k a =
      let place = a.same.places a.region in
      record {
        exists = rw a.same.number a.exists;
        low = rw (place.0, place.1) a.inside.0;
        high = rw (place.0, place.2, mul_comm page_size (suc k)) a.inside.1;
        held = λ q l u. rw (a.pages q l u) (may_free attr owner);
      }

  allotted-address :
      (n : ℕ) (a : AllottedFrom page_size m n attr owner p m')
      → page_addr page_size (m'.regions a.region) a.first ≡ p.phys
  unfolding page_addr
  allotted-address n a = rw a.pointer (ap (λ b. b + a.first * page_size) (a.same.places a.region).0)

  allotted-was_free :
      (n : ℕ) (a : AllottedFrom page_size m n attr owner p m') (j q : ℕ)
      → in_range a.region a.first n j q ≡ true
      → is_free_state (page_of m j q).state ≡ true
  allotted-was_free n a j q h =
      let there = (==_iff j a.region).0 (ground (arith, h)) in
      rw there (a.were_free q (ground (arith, h)) (ground (arith, h)))

  allotted-Restored :
      (n : ℕ)
      → AllottedFrom page_size m n attr owner p m'
      → (m₂ : Memory) × (destroy page_size p m' ≡ some m₂) × Restored m m₂
  allotted-Restored zero a =
      let short = ap (λ (p : PagePtr). p.length) a.pointer ∙ zero-mul page_size in
      (
        m',
        destroy-none page_size p m' (rw short refl),
        record { same = a.same; free = λ j q. a.others j q (ground arith); held = a.held },
      )
  allotted-Restored (suc k) a =
      let v' = SameRegions-IsMemory page_size m m' v a.same in
      let (status, m₂, e, same, pages) =
        page_free-Frees page_size m' owner a.region a.first v' a.laid_out (suc k)
          (λ k' e. allotted-Owns k' (rw e at a)) in
      let whole = le-pages page_size (suc k) (omega arith) in
      let long = ap (λ (p : PagePtr). p.length) a.pointer ∙ mul_comm (suc k) page_size in
      let mine = ap (λ (p : PagePtr). p.owner) a.pointer in
      let some_pages : (p.length == 0) ≡ false =
        ground (arith, whole, long, v.some_size, mul_comm (suc k) page_size) in
      let was = λ (j q : ℕ) (h : in_range a.region a.first (suc k) j q ≡ true).
        allotted-was_free (suc k) a j q h in
      (
        m₂,
        destroy-held page_size p m' m₂ status some_pages
            (rw (long, mine, sym (allotted-address (suc k) a)) e),
        record {
          same = SameRegions-trans m m' m₂ a.same same;
          free = λ j q. ground (arith, pages j q, was j q, a.others j q);
          held = λ j q h. ground (arith, pages j q, was j q, a.held j q h, h);
        },
      )

module _ (page_size s : ℕ) (m : Memory) (len attr : ℕ) (owner : Option ℕ)
    (power : page_size ≡ 2 ^ s) (v : IsMemory page_size m) (laid : IsLaidOut page_size m)
    (short : len + page_size ≤ 2 ^ 32) where
  destroy-Restored :
      (p : PagePtr) (m' : Memory)
      → Allotting page_size m len attr owner p m'
      → (m₂ : Memory) × (destroy page_size p m' ≡ some m₂) × Restored m m₂
  destroy-Restored _ _ (no_bytes z) = (m, destroy-empty page_size m v, unchanged page_size m v)
  destroy-Restored _ _ (no_block n o enough fits least e) =
      (m, destroy-empty page_size m v, unchanged page_size m v)
  destroy-Restored _ _ (allotted n p m' enough a) =
      allotted-Restored page_size m attr owner p m' v n a

  -- On valid memory, laid out as page_init does it, with pages of a power of two and for a length
  -- up to a page below 2^32, page_alloc and the destructor of the page_ptr that it returns succeed,
  -- and then the same pages are free as before, no page that was held has changed, and the regions
  -- are valid.
  pub page_alloc-Restored :
      (p : PagePtr) × (m₁ m₂ : Memory) × (page_alloc page_size m len attr owner ≡ some (p, m₁))
      × (destroy page_size p m₁ ≡ some m₂)
      × Restored m m₂
  page_alloc-Restored =
      let (p, m₁, e, a) = page_alloc-Allots page_size s m len attr owner power v laid short in
      let (m₂, d, r) = destroy-Restored p m₁ a in (p, m₁, m₂, e, d, r)
