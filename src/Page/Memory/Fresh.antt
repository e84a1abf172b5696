-- ===== src/Page/Memory/Fresh.antt =====
-- A region that is one free block is valid.
use apex.Base.{
  ℕ, zero, suc, ◌+◌, ◌-◌, ◌*◌, ◌/◌, ◌^◌, ◌<◌, ◌≡◌, refl, ap, ◌∙◌, Bool, false, ◌&&◌, ltb, [], ◌∷◌,
  ◌==◌, if◌then◌else◌, arith, none, count,
}
use native.Mathlib.Nat.{zero-div, zero-mul, div-lt_iff_lt-mul, one-mul}
use apex.Page.{free, Region, order_to_first_bitmap_idx}
use apex.Page.Buddy.Cover.{above, covered, covered-congr}
use apex.Page.Free.{in_list, is_free, IsBuddy, above-div}
use apex.Page.Represent.{same_block}
use apex.Page.Regions.States.{IsRegion, two_pow_pos}

-- All pages are free, and they are one block.
pub record IsWhole (r : Region) : Type 0 where
  pub some_order : 0 < r.nr_orders
  pub sized : r.nr_pages ≡ 2 ^ (r.nr_orders - 1)
  pub pages : (q : ℕ) → r.pages q ≡ record { state = free; owner = none }
  pub blocks : (o : ℕ) → r.blocks o ≡ (if o == r.nr_orders - 1 then 0 ∷ [] else [])
  pub bitmap : (i : ℕ) → r.bitmap i ≡ false

-- The only free block.
abbrev whole : ℕ → ℕ → ℕ → Bool
whole top o b = (o == top) && (b == 0)

covered-whole : (top k o b : ℕ) → o + k ≡ top → covered (whole top) k o b ≡ (above k b == 0)
unfolding covered above
covered-whole top zero o b e = ground (arith, e)
covered-whole top (suc k) o b e =
    ground (arith, e, covered-whole top k (suc o) (b / 2) (omega (arith, e)))

module _ (r : Region) (v : IsWhole r) where
  abbrev top : ℕ
  top = r.nr_orders - 1

  fresh_list : (o page : ℕ) → ltb 0 (count page (r.blocks o)) ≡ ((o == top) && (page == 0))
  unfolding count
  fresh_list o page = rw (v.blocks o) (ground arith)

  fresh_lists : (o b : ℕ) → in_list r o b ≡ whole top o b
  fresh_lists o b =
      let same = rw (zero-mul (2 ^ o)) at (same_block b 0 o) in
      fresh_list o (b * 2 ^ o) ∙ ground (arith, same)

  fresh-IsBuddy : IsBuddy r
  unfolding covered order_to_first_bitmap_idx
  fresh-IsBuddy = record {
    state = record { free = whole top; bit = λ o j. false };
    shows = record {
      lists = fresh_lists;
      placed = λ o page h.
          (let first : page ≡ 0 = ground (arith, fresh_list o page, h) in
            rw (first, zero-div, zero-mul) refl);
      bits = λ o j l m. v.bitmap _;
    };
    apart = record {
      single = λ o j l. ground arith;
      apart = λ o b k e h. absurd (ground (arith, e, h));
    };
    marks = λ o j l u. ground arith;
  }

  pub fresh-IsRegion : IsRegion r
  fresh-IsRegion = record {
    buddy = fresh-IsBuddy;
    some_order = v.some_order;
    sized = v.sized;
    states = λ q.
        let below = div-lt_iff_lt-mul {k = 2 ^ top} {x = q} {y = 1} (two_pow_pos top) in
        let here : (q / 2 ^ top == 0) ≡ ltb q (2 ^ top) =
          ground (arith, below.0, below.1, one-mul (2 ^ top)) in
        let inside : is_free r q ≡ ltb q (2 ^ top) =
          covered-congr (in_list r) (whole top) top 0 q (λ o b l. fresh_lists o b)
          ∙ covered-whole top top 0 q (omega arith)
          ∙ ap (λ x. x == 0) (above-div top q)
          ∙ here in
        inside ∙ rw (v.pages q, v.sized) (ground arith);
  }
