-- ===== src/Page/Blocks.antt =====
-- block_alloc and block_free do to the lists and the bitmap what is done to the free blocks.
use apex.Base.{
  ℕ, zero, suc, ◌+◌, ◌-◌, ◌*◌, ◌/◌, ◌^◌, ◌≤◌, ◌<◌, ◌≡◌, refl, sym, ap, subst, ◌∙◌, Bool, true,
  false, not, arith, Bool-cases, inl, inr,
}
use native.Mathlib.Nat.{two-pow-succ, mul-add, two-mul, add-mul, one-mul}
use apex.Page.{
  Region, bitmap_toggle, first_page_in_block, list_insert, list_remove, climb, split_block,
  split_loop, block_alloc, join_loop, block_free,
}
use apex.Page.Buddy.{Buddy, put, del, flip, alloc, join, merge, release}
use apex.Page.Buddy.Apart.{flip_value}
use apex.Page.Buddy.Alloc.{flipped, alloc-bit}
use apex.Page.Represent.{
  Represents, pairs, div_pow, list_insert-Represents, list_remove-Represents, bitmap_toggle-bit,
  bitmap_toggle-Represents,
}

-- The first pages of the two halves of a block.
module _ (page o : ℕ) where
  abbrev half : ℕ
  half = page / 2 ^ o / 2

  first_half : first_page_in_block page (suc o) ≡ 2 * half * 2 ^ o
  unfolding first_page_in_block
  first_half = rw (div_pow page o, two-pow-succ o) (simp (mul-add, two-mul, add-mul))

  second_half : first_page_in_block page (suc o) + 2 ^ o ≡ (2 * half + 1) * 2 ^ o
  second_half = rw first_half (simp (two-mul, add-mul, one-mul))

split_loop-last :
    (d o page : ℕ) (r : Region)
    → split_loop (suc d) o page r ≡ split_block o page (split_loop d (suc o) page r)
unfolding split_loop
split_loop-last zero o page r = ap (λ i. split_block i page r) (omega arith)
split_loop-last (suc d) o page r =
    split_loop-last d o page (split_block (o + suc d) page r)
    ∙ ap (λ i. split_block o page (split_loop d (suc o) page (split_block i page r))) (omega arith)

-- `block_alloc` with `k` orders above `o`.
abbrev finish : ℕ → ℕ → ℕ × Region → Region
finish o page (i, r) = list_remove o (first_page_in_block page o) (split_loop (i - o) o page r)

taken : ℕ → ℕ → ℕ → Region → Region
taken k o page r = finish o page (climb k o page r)

module _ (k o page : ℕ) (r : Region) where
  abbrev climbed : Bool → ℕ × Region
  climbed now = elim now [
    | true ↦ climb k (suc o) page (bitmap_toggle r page o).1
    | false ↦ (o, (bitmap_toggle r page o).1)
  ]

  climb-step :
      (now : Bool) → (bitmap_toggle r page o).0 ≡ now → climb (suc k) o page r ≡ climbed now
  unfolding climb
  climb-step now h = ap climbed h

  taken_break :
      (bitmap_toggle r page o).0 ≡ false
      → taken (suc k) o page r
        ≡ list_remove o (first_page_in_block page o) (bitmap_toggle r page o).1
  unfolding taken split_loop
  taken_break clear =
      ap (finish o page) (climb-step false clear)
      ∙ ap
          (λ d.
            list_remove o (first_page_in_block page o)
              (split_loop d o page (bitmap_toggle r page o).1))
          none_left
    where
      none_left : o - o ≡ 0
      none_left = omega arith

climb-le : (k i page : ℕ) (r : Region) → i ≤ (climb k i page r).0
unfolding climb
climb-le zero i page r = omega arith
climb-le (suc k) i page r = elim (Bool-cases (bitmap_toggle r page i).0) [
  | inl set ↦
      rw (climb-step k i page r true set)
        (omega (arith, climb-le k (suc i) page (bitmap_toggle r page i).1))
  | inr clear ↦ rw (climb-step k i page r false clear) (omega arith)
]

taken_more :
    (k o page : ℕ) (r : Region)
    → (bitmap_toggle r page o).0 ≡ true
    → taken (suc k) o page r
      ≡ list_remove o (first_page_in_block page o) (
          list_insert o (first_page_in_block page (suc o) + 2 ^ o) (
            list_insert o
              (first_page_in_block page (suc o))
              (taken k (suc o) page (bitmap_toggle r page o).1)))
unfolding taken split_block
taken_more k o page r set =
    let r' = (bitmap_toggle r page o).1 in
    let i = (climb k (suc o) page r').0 in
    let x = (climb k (suc o) page r').1 in
    let left : i - o ≡ suc (i - suc o) = omega (arith, climb-le k (suc o) page r') in
    ap (finish o page) (climb-step k o page r true set)
    ∙ ap (λ d. list_remove o (first_page_in_block page o) (split_loop d o page x)) left
    ∙ ap (list_remove o (first_page_in_block page o)) (split_loop-last (i - suc o) o page x)

-- Only the lists and the bitmap change.
record Shape (r₀ r : Region) (s : Buddy) : Type 0 where
  frame : record r { blocks = r₀.blocks; bitmap = r₀.bitmap } ≡ r₀
  shows : Represents r s

orders : (r₀ r : Region) (s : Buddy) → Shape r₀ r s → r.nr_orders ≡ r₀.nr_orders
orders r₀ r s v = ap (λ x. x.nr_orders) v.frame

module _ (r₀ : Region) where
  insert-Shape :
      (o c page : ℕ) (r : Region) (s : Buddy)
      → page ≡ c * 2 ^ o
      → Shape r₀ r s
      → Shape r₀ (list_insert o page r) (record s { free = put o c s.free })
  unfolding list_insert
  insert-Shape o c page r s e v =
      rw e (record { frame = v.frame; shows = list_insert-Represents r s v.shows o c })

  remove-Shape :
      (o c page : ℕ) (r : Region) (s : Buddy)
      → page ≡ c * 2 ^ o
      → Shape r₀ r s
      → Shape r₀ (list_remove o page r) (record s { free = del o c s.free })
  unfolding list_remove
  remove-Shape o c page r s e v =
      rw e (record { frame = v.frame; shows = list_remove-Represents r s v.shows o c })

  module _ (k o page : ℕ) (r : Region) (s : Buddy) (level : o + suc (suc k) ≡ r₀.nr_orders)
      (inside : page / 2 ^ o < 2 ^ suc k) (v : Shape r₀ r s) where
    pair_inside : page / 2 ^ suc o < pairs r o
    pair_inside =
        let pairs_left : r.nr_orders - o - 2 ≡ k = omega (arith, level, orders r₀ r s v) in
        rw (pairs_left, div_pow page o) (omega (arith, inside, two-pow-succ k))

    toggled_bit : (bitmap_toggle r page o).0 ≡ not (s.bit o (page / 2 ^ o / 2))
    toggled_bit =
        rw (sym (div_pow page o))
          (bitmap_toggle-bit r s v.shows page o (omega (arith, level, orders r₀ r s v)) pair_inside)

    toggled :
        Shape r₀ (bitmap_toggle r page o).1 (record s { bit = flip o (page / 2 ^ o / 2) s.bit })
    unfolding bitmap_toggle
    toggled = record {
      frame = v.frame;
      shows = rw (sym (div_pow page o)) (
          bitmap_toggle-Represents r s v.shows page o (omega (arith, level, orders r₀ r s v))
            pair_inside);
    }

  half_inside : (k o page : ℕ) → page / 2 ^ o < 2 ^ suc k → page / 2 ^ suc o < 2 ^ k
  half_inside k o page l = rw (div_pow page o) (omega (arith, l, two-pow-succ k))

  taken-Shape :
      (k o page : ℕ) (r : Region) (s : Buddy)
      → o + suc k ≡ r₀.nr_orders
      → page / 2 ^ o < 2 ^ k
      → Shape r₀ r s
      → Shape r₀ (taken k o page r) (alloc k o (page / 2 ^ o) s)
  unfolding alloc taken climb split_loop first_page_in_block
  taken-Shape zero o page r s e l v =
      let none_left : o - o ≡ 0 = omega arith in
      rw none_left (remove-Shape o (page / 2 ^ o) _ r s refl v)
  taken-Shape (suc k) o page r s e l v =
      let b = page / 2 ^ o in
      let r' = (bitmap_toggle r page o).1 in
      let now = toggled_bit k o page r s e l v in
      let v' = toggled k o page r s e l v in
      elim (Bool-cases (s.bit o (b / 2))) [
        | inl set ↦
            rw (taken_break k o page r (now ∙ ap not set), alloc-bit k o b s false set)
              (remove-Shape o b _ r' _ refl v')
        | inr clear ↦
            let up : Shape r₀ (taken k (suc o) page r')
                (alloc k (suc o) (b / 2) (flipped k o b s)) =
              subst (λ c. Shape r₀ (taken k (suc o) page r') (alloc k (suc o) c (flipped k o b s)))
                (div_pow page o)
                (taken-Shape k (suc o) page r' (flipped k o b s) (omega (arith, e))
                  (half_inside k o page l) v') in
            rw (taken_more k o page r (now ∙ ap not clear), alloc-bit k o b s true clear)
              (remove-Shape o b _ _ _ refl (
                insert-Shape o (2 * (b / 2) + 1) _ _ _ (second_half page o)
                  (insert-Shape o (2 * (b / 2)) _ _ _ (first_half page o) up)))
      ]

  -- The loop of `block_free`.
  module _ (k o page : ℕ) (r : Region) where
    abbrev joining : Bool → Region
    joining now = elim now [
      | true ↦ (bitmap_toggle r page o).1
      | false ↦ join_loop k (suc o) page (
          list_insert (suc o) (first_page_in_block page (suc o)) (
            list_remove o (first_page_in_block page (suc o) + 2 ^ o)
              (list_remove o (first_page_in_block page (suc o)) (bitmap_toggle r page o).1)))
    ]

    join_loop-step :
        (now : Bool) → (bitmap_toggle r page o).0 ≡ now → join_loop (suc k) o page r ≡ joining now
    unfolding join_loop
    join_loop-step now h = ap joining h

  module _ (k o b : ℕ) (s : Buddy) where
    abbrev merging : Bool → Buddy
    merging x = elim x [
      | true ↦ flipped k o b s
      | false ↦ merge k (suc o) (b / 2) (join o (b / 2) (flipped k o b s))
    ]

    merge-step : (x : Bool) → s.bit o (b / 2) ≡ not x → merge (suc k) o b s ≡ merging x
    unfolding merge
    merge-step x h = ap merging (flip_value o (b / 2) s.bit x h)

  join_loop-Shape :
      (k o page : ℕ) (r : Region) (s : Buddy)
      → o + suc k ≡ r₀.nr_orders
      → page / 2 ^ o < 2 ^ k
      → Shape r₀ r s
      → Shape r₀ (join_loop k o page r) (merge k o (page / 2 ^ o) s)
  unfolding merge join_loop first_page_in_block
  join_loop-Shape zero o page r s e l v = v
  join_loop-Shape (suc k) o page r s e l v =
      let b = page / 2 ^ o in
      let r' = (bitmap_toggle r page o).1 in
      let now = toggled_bit k o page r s e l v in
      let v' = toggled k o page r s e l v in
      elim (Bool-cases (s.bit o (b / 2))) [
        | inr clear ↦
            rw (join_loop-step k o page r true (now ∙ ap not clear), merge-step k o b s true clear)
              v'
        | inl set ↦
            let s' = flipped k o b s in
            let x = list_insert (suc o) (first_page_in_block page (suc o)) (
              list_remove o (first_page_in_block page (suc o) + 2 ^ o)
                (list_remove o (first_page_in_block page (suc o)) r')) in
            rw (join_loop-step k o page r false (now ∙ ap not set), merge-step k o b s false set)
              (subst
                (λ c. Shape r₀ (join_loop k (suc o) page x) (merge k (suc o) c (join o (b / 2) s')))
                (div_pow page o)
                (join_loop-Shape k (suc o) page x (join o (b / 2) s') (omega (arith, e))
                  (half_inside k o page l)
                  (insert-Shape (suc o) (b / 2) _ _ _ (ap (λ c. c * 2 ^ suc o) (div_pow page o)) (
                    remove-Shape o (2 * (b / 2) + 1) _ _ _ (second_half page o)
                      (remove-Shape o (2 * (b / 2)) _ _ _ (first_half page o) v')))))
      ]

-- The functions themselves, at a block of the region.
module _ (r : Region) (s : Buddy) (k o page : ℕ) (level : o + suc k ≡ r.nr_orders)
    (inside : page / 2 ^ o < 2 ^ k) (aligned : first_page_in_block page o ≡ page)
    (v : Represents r s) where
  shape : Shape r r s
  shape = record { frame = refl; shows = v }

  orders_left : r.nr_orders - 1 - o ≡ k
  orders_left = omega (arith, level)

  block_alloc-taken : block_alloc r page o ≡ taken k o page r
  unfolding block_alloc taken
  block_alloc-taken =
      ap
        (λ m.
          list_remove o page (split_loop ((climb m o page r).0 - o) o page (climb m o page r).1))
        orders_left
      ∙ ap
          (λ p. list_remove o p (split_loop ((climb k o page r).0 - o) o page (climb k o page r).1))
          (sym aligned)

  pub block_alloc-Represents :
      (record (block_alloc r page o) { blocks = r.blocks; bitmap = r.bitmap } ≡ r)
      × Represents (block_alloc r page o) (alloc k o (page / 2 ^ o) s)
  block_alloc-Represents =
      let t = taken-Shape r k o page r s level inside shape in
      rw block_alloc-taken (t.frame, t.shows)

  pub block_free-Represents :
      (record (block_free r page o) { blocks = r.blocks; bitmap = r.bitmap } ≡ r)
      × Represents (block_free r page o) (release k o (page / 2 ^ o) s)
  unfolding block_free release first_page_in_block
  block_free-Represents =
      let put_in = insert-Shape r o (page / 2 ^ o) page r s (sym aligned) shape in
      let t = join_loop-Shape r k o page (list_insert o page r) _ level inside put_in in
      rw orders_left (t.frame, t.shows)
