-- ===== src/Page/Represent.antt =====
-- The lists and the bitmap of a region stand for free blocks and bits of pairs.
use apex.Base.{
  ℕ, suc, ◌+◌, ◌-◌, ◌*◌, ◌/◌, ◌^◌, ◌≤◌, ◌<◌, ◌≡◌, refl, sym, ap, ◌∙◌, not, ◌&&◌, ◌==◌, ltb, arith,
  count, count-remove, Bool-cases, inl, inr, ==_iff,
}
use native.Mathlib.Nat.{
  two-pow-succ, one-le-pow, pow-le-pow_right, pow-suc, eq_of_mul-eq-mul_right, mul-div_cancel,
  div-div-eq-div-mul,
}
use apex.Page.{
  Region, bitmap_size, order_to_first_bitmap_idx, bitmap_toggle, list_insert, list_remove,
}
use apex.Page.Buddy.{Buddy, put, del, flip}

pow_pos : (n : ℕ) → 0 < 2 ^ n
pow_pos n = one-le-pow n 2 (omega arith)

-- Two blocks of an order have the same first page only if they are the same.
pub same_block : (b c o : ℕ) → (b * 2 ^ o == c * 2 ^ o) ≡ (b == c)
same_block b c o = elim (Bool-cases (b == c)) [
  | inl same ↦ rw ((==_iff b c).0 same) (ground arith)
  | inr other ↦ elim (Bool-cases (b * 2 ^ o == c * 2 ^ o)) [
    | inl e ↦
        absurd (
          let e' = eq_of_mul-eq-mul_right (2 ^ o) (pow_pos o) b c ((==_iff _ _).0 e) in
          ground arith)
    | inr e ↦ rw (other, e) refl
  ]
]

pub div_pow : (page o : ℕ) → page / 2 ^ suc o ≡ page / 2 ^ o / 2
div_pow page o = ap (λ p. page / p) (pow-suc 2 o) ∙ sym (div-div-eq-div-mul page (2 ^ o) 2)

-- The bit of pair `j` of order `o`.
abbrev pub pair_idx : Region → ℕ → ℕ → ℕ
pair_idx r o j = order_to_first_bitmap_idx r o + j

abbrev pub pairs : Region → ℕ → ℕ
pairs r o = 2 ^ (r.nr_orders - o - 2)

-- The bits of an order end before those of a lower one begin.
double_le_pow : (m n : ℕ) → m < n → 2 ^ m + 2 ^ m ≤ 2 ^ n
double_le_pow m n h = rw (sym (two-pow-succ m)) (pow-le-pow_right (omega arith) h)

-- The bits of different pairs are different bits.
pub pair_idx_inj :
    (r : Region) (o o' j j' : ℕ)
    → suc o < r.nr_orders
    → suc o' < r.nr_orders
    → j < pairs r o
    → j' < pairs r o'
    → (pair_idx r o j == pair_idx r o' j') ≡ ((o == o') && (j == j'))
unfolding order_to_first_bitmap_idx
pair_idx_inj r o o' j j' l l' m m' = elim (Bool-cases (o == o')) [
  | inl same ↦ rw ((==_iff o o').0 same) (ground arith)
  | inr other ↦ elim (Bool-cases (ltb o o')) [
    | inl low ↦ ground (
      arith,
      double_le_pow (r.nr_orders - o' - 2) (r.nr_orders - o - 2) (ground arith),
      pow_pos (r.nr_orders - o' - 2),
    )
    | inr high ↦ ground (
      arith,
      double_le_pow (r.nr_orders - o - 2) (r.nr_orders - o' - 2) (ground arith),
      pow_pos (r.nr_orders - o - 2),
    )
  ]
]

-- All bits lie in the bitmap.
pub pair_idx-lt-bitmap_size :
    (r : Region) (o j : ℕ) → suc o < r.nr_orders → j < pairs r o → pair_idx r o j < bitmap_size r
unfolding order_to_first_bitmap_idx bitmap_size
pair_idx-lt-bitmap_size r o j l m = omega (
  arith,
  double_le_pow (r.nr_orders - o - 2) (r.nr_orders - 1) (omega arith),
  pow_pos (r.nr_orders - o - 2),
  m,
)

pub record Represents (r : Region) (s : Buddy) : Type 0 where
  pub lists : (o b : ℕ) → ltb 0 (count (b * 2 ^ o) (r.blocks o)) ≡ s.free o b
  pub placed : (o page : ℕ) → 0 < count page (r.blocks o) → page / 2 ^ o * 2 ^ o ≡ page
  pub bits : (o j : ℕ) → suc o < r.nr_orders → j < pairs r o → r.bitmap (pair_idx r o j) ≡ s.bit o j

module _ (r : Region) (s : Buddy) (v : Represents r s) (o c : ℕ) where
  pub list_insert-Represents :
      Represents (list_insert o (c * 2 ^ o) r) (record s { free = put o c s.free })
  unfolding list_insert count order_to_first_bitmap_idx
  list_insert-Represents = record {
    lists = λ o' b. ground (arith, v.lists o' b, same_block c b o);
    placed = λ o' page h.
        ground (arith, v.placed o' page, ap (λ x. x * 2 ^ o) (mul-div_cancel c (pow_pos o)));
    bits = v.bits;
  }

  pub list_remove-Represents :
      Represents (list_remove o (c * 2 ^ o) r) (record s { free = del o c s.free })
  unfolding list_remove order_to_first_bitmap_idx
  list_remove-Represents = record {
    lists = λ o' b.
        ground (
          arith,
          v.lists o' b,
          same_block b c o,
          count-remove (b * 2 ^ o) (c * 2 ^ o) (r.blocks o),
        );
    placed =
        λ o' page h. v.placed o' page (ground (arith, count-remove page (c * 2 ^ o) (r.blocks o)));
    bits = v.bits;
  }

-- Toggling gives the new bit.
module _ (r : Region) (s : Buddy) (v : Represents r s) (page o : ℕ) (l : suc o < r.nr_orders)
    (inside : page / 2 ^ suc o < pairs r o) where
  abbrev pair : ℕ
  pair = page / 2 ^ suc o

  pub bitmap_toggle-bit : (bitmap_toggle r page o).0 ≡ not (s.bit o pair)
  unfolding bitmap_toggle
  bitmap_toggle-bit = ap not (v.bits o pair l inside)

  pub bitmap_toggle-Represents :
      Represents (bitmap_toggle r page o).1 (record s { bit = flip o pair s.bit })
  unfolding bitmap_toggle order_to_first_bitmap_idx
  bitmap_toggle-Represents = record {
    lists = v.lists;
    placed = v.placed;
    bits = λ o' j l' m.
        ground (
          arith,
          v.bits o' j l' m,
          v.bits o pair l inside,
          pair_idx_inj r o' o j pair l' l m inside,
        );
  }
