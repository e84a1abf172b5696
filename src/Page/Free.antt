-- ===== src/Page/Free.antt =====
-- Which pages are free, before and after block_alloc and block_free.
use apex.Base.{
  ℕ, zero, suc, ◌+◌, ◌-◌, ◌*◌, ◌/◌, ◌^◌, ◌<◌, ◌≡◌, sym, ap, subst, ◌∙◌, fun_ext, Bool, true, not,
  ◌&&◌, ◌||◌, ◌==◌, ltb, arith, Bool-cases, inl, inr, count,
}
use mathlib.Core.Path.{ap₂}
use native.Mathlib.Nat.{pow-zero, div-one}
use apex.Page.{Region, first_page_in_block, block_alloc, block_free}
use apex.Page.Buddy.{Buddy, alloc, release}
use apex.Page.Buddy.Cover.{above, above-half, covered}
use apex.Page.Buddy.Apart.{IsApart, Marks, IsOwned}
use apex.Page.Buddy.Alloc.{alloc-Allocated}
use apex.Page.Buddy.Release.{release-Released}
use apex.Page.Represent.{Represents, div_pow}
use apex.Page.Blocks.{block_alloc-Represents, block_free-Represents}

-- Block `b` of order `o` is in its free list.
abbrev pub in_list : Region → ℕ → ℕ → Bool
in_list r o b = ltb 0 (count (b * 2 ^ o) (r.blocks o))

-- A page is free if it lies in a block of a free list.
abbrev pub is_free : Region → ℕ → Bool
is_free r page = covered (in_list r) (r.nr_orders - 1) 0 page

-- The free blocks do not overlap, no two buddies are free, and each bit says whether one of its
-- pair is.
pub record IsBuddy (r : Region) : Type 0 where
  pub state : Buddy
  pub shows : Represents r state
  pub apart : IsApart (r.nr_orders - 1) state.free
  pub marks : Marks 0 (r.nr_orders - 1) state.free state.bit

pub above-div : (d b : ℕ) → above d b ≡ b / 2 ^ d
unfolding above
above-div zero b = rw pow-zero (sym (div-one b))
above-div (suc d) b = above-half d b ∙ ap (λ x. x / 2) (above-div d b) ∙ sym (div_pow b d)

lists_eq : (r : Region) (s : Buddy) → Represents r s → in_list r ≡ s.free
lists_eq r s v = fun_ext (λ o. fun_ext (λ b. v.lists o b))

-- From the free blocks to the free pages.
pages_eq :
    (r r' : Region) (s s' : Buddy) (o : ℕ) (change : Bool → ℕ → Bool)
    → Represents r s
    → Represents r' s'
    → r'.nr_orders ≡ r.nr_orders
    → ((q : ℕ)
        → covered s'.free (r.nr_orders - 1) 0 q
          ≡ change (covered s.free (r.nr_orders - 1) 0 q) (above o q))
    → (q : ℕ) → is_free r' q ≡ change (is_free r q) (q / 2 ^ o)
pages_eq r r' s s' o change v v' orders h q =
    ap (λ f. covered f (r'.nr_orders - 1) 0 q) (lists_eq r' s' v')
    ∙ ap (λ n. covered s'.free (n - 1) 0 q) orders
    ∙ h q
    ∙ ap₂ change (ap (λ f. covered f (r.nr_orders - 1) 0 q) (sym (lists_eq r s v))) (above-div o q)

-- An operation that leaves the orders below `low` alone keeps their bits right.
Marks-all :
    (low top : ℕ) (s s' : Buddy)
    → Marks 0 top s.free s.bit
    → ((o b : ℕ) → o < low → s'.free o b ≡ s.free o b)
    → ((o j : ℕ) → o < low → s'.bit o j ≡ s.bit o j)
    → Marks low top s'.free s'.bit
    → Marks 0 top s'.free s'.bit
Marks-all low top s s' m free_below bits_below m' o j l u = elim (Bool-cases (ltb o low)) [
  | inl under ↦
      ground (arith, m o j l u, free_below o (2 * j), free_below o (2 * j + 1), bits_below o j)
  | inr over ↦ m' o j (ground arith) u
]

-- The block that is allocated or freed: block `page / 2 ^ o` of order `o` of the region, by its
-- first page.
pub record IsBlock (r : Region) (page o k : ℕ) : Type 0 where
  pub level : o + suc k ≡ r.nr_orders
  pub inside : page / 2 ^ o < 2 ^ k
  pub aligned : first_page_in_block page o ≡ page

abbrev pub in_block : ℕ → ℕ → ℕ → Bool
in_block page o q = q / 2 ^ o == page / 2 ^ o

module _ (r : Region) (page o k : ℕ) (b : IsBlock r page o k) (v : IsBuddy r) where
  level_top : o + k ≡ r.nr_orders - 1
  level_top = omega (arith, b.level)

  -- Allocating a block that lies in a free one keeps the allocator's invariant; the pages of the
  -- block are no longer free, and every other page is free if it was.
  pub block_alloc-IsBuddy :
      covered (in_list r) k o (page / 2 ^ o) ≡ true
      → let r' = block_alloc r page o in
        IsBuddy r'
        × (record r' { blocks = r.blocks; bitmap = r.bitmap } ≡ r)
        × ((q : ℕ) → is_free r' q ≡ (is_free r q && not (in_block page o q)))
  block_alloc-IsBuddy here =
      let (frame, shows) =
        block_alloc-Represents r v.state k o page b.level b.inside b.aligned v.shows in
      let orders = ap (λ (x : Region). x.nr_orders) frame in
      let a =
        alloc-Allocated (r.nr_orders - 1) k o (page / 2 ^ o) v.state v.apart
          (λ o' j l u. v.marks o' j (omega arith) u) level_top
          (rw (sym (lists_eq r v.state v.shows)) here) in
      (
        record {
          state = alloc k o (page / 2 ^ o) v.state;
          shows = shows;
          apart = rw orders a.kept;
          marks = rw orders (Marks-all o _ v.state _ v.marks a.free_below a.bits_below a.marks);
        },
        frame,
        pages_eq r _ v.state _ o (λ x y. x && not (y == page / 2 ^ o)) v.shows shows orders
            (λ q. a.pages o (r.nr_orders - 1) 0 q (omega arith) (omega (arith, level_top))),
      )

  -- Freeing a block of which nothing is free keeps the invariant; the pages of the block are free
  -- afterwards, and every other page is free if it was.
  pub block_free-IsBuddy :
      IsOwned k o (page / 2 ^ o) (in_list r)
      → let r' = block_free r page o in
        IsBuddy r'
        × (record r' { blocks = r.blocks; bitmap = r.bitmap } ≡ r)
        × ((q : ℕ) → is_free r' q ≡ (is_free r q || in_block page o q))
  block_free-IsBuddy owned =
      let (frame, shows) =
        block_free-Represents r v.state k o page b.level b.inside b.aligned v.shows in
      let orders = ap (λ (x : Region). x.nr_orders) frame in
      let a =
        release-Released (r.nr_orders - 1) k o (page / 2 ^ o) v.state v.apart
          (λ o' j l u. v.marks o' j (omega arith) u) level_top
          (subst (IsOwned k o (page / 2 ^ o)) (lists_eq r v.state v.shows) owned) in
      (
        record {
          state = release k o (page / 2 ^ o) v.state;
          shows = shows;
          apart = rw orders a.kept;
          marks = rw orders (Marks-all o _ v.state _ v.marks a.free_below a.bits_below a.marks);
        },
        frame,
        pages_eq r _ v.state _ o (λ x y. x || (y == page / 2 ^ o)) v.shows shows orders
            (λ q. a.pages o (r.nr_orders - 1) 0 q (omega arith) (omega (arith, level_top))),
      )
