-- ===== src/Page/Buddy/Apart.antt =====
-- The invariant of the free blocks: they do not overlap, and no two buddies are free.
use apex.Base.{
  ℕ, suc, ◌+◌, ◌-◌, ◌*◌, ◌/◌, ◌≤◌, ◌<◌, ◌≡◌, refl, Bool, true, false, not, ◌&&◌, ◌||◌, ltb, arith,
  Bool-cases, inl, inr,
}
use apex.Page.Buddy.{is_at, put, del, flip}
use apex.Page.Buddy.Cover.{
  above, covered, covered-put, covered-put_above, covered-del_mono, uncovered-half, covered-above,
  free-covered,
}

-- No block is free together with its buddy, or with a block that holds it.
pub record IsApart (top : ℕ) (free : ℕ → ℕ → Bool) : Type 0 where
  pub single : (o j : ℕ) → o < top → (free o (2 * j) && free o (2 * j + 1)) ≡ false
  pub apart :
      (o b k : ℕ) → o + suc k ≡ top → free o b ≡ true → covered free k (suc o) (b / 2) ≡ false

-- From order `low` up, a bit is set if one block of the pair is free.
abbrev pub Marks : ℕ → ℕ → (ℕ → ℕ → Bool) → (ℕ → ℕ → Bool) → Type 0
Marks low top free bit =
    (o j : ℕ) → low ≤ o → o < top → bit o j ≡ (free o (2 * j) || free o (2 * j + 1))

pub del-IsApart :
    (top o b : ℕ) (free : ℕ → ℕ → Bool) → IsApart top free → IsApart top (del o b free)
del-IsApart top o b free i = record {
  single = λ o' j l. ground (arith, i.single o' j l);
  apart = λ o' b' k' e h.
      covered-del_mono free o b k' (suc o') (b' / 2) (i.apart o' b' k' e (ground arith));
}

-- A block may be made free if nothing of it is free, nothing that holds it, and not its buddy.
pub record IsOwned (k o b : ℕ) (free : ℕ → ℕ → Bool) : Type 0 where
  pub uncovered : covered free k o b ≡ false
  pub below : (d o' b' : ℕ) → o' + d ≡ o → above d b' ≡ b → free o' b' ≡ false

module _ (top k o b : ℕ) (free : ℕ → ℕ → Bool) (i : IsApart top free) (level : o + k ≡ top)
    (w : IsOwned k o b free) where
  put-apart_here :
      (o' b' k' : ℕ)
      → o ≤ o'
      → o' + suc k' ≡ top
      → put o b free o' b' ≡ true
      → covered (put o b free) k' (suc o') (b' / 2) ≡ false
  put-apart_here o' b' k' l e h = elim (Bool-cases (is_at o b o' b')) [
    | inl self ↦
        let same : (o' ≡ o) × (b' ≡ b) = ground arith in
        let more : k ≡ suc k' = omega (arith, e, level, same.0) in
        rw (covered-put_above free o b k' (suc o') (b' / 2) (omega arith), same.0, same.1)
          (uncovered-half free k' o b (rw more at w.uncovered))
    | inr other ↦
        ground
          (arith, covered-put_above free o b k' (suc o') (b' / 2) (omega arith), i.apart o' b' k' e)
  ]

  put-apart_below :
      (d o' b' k' : ℕ)
      → suc o' + d ≡ o
      → o' + suc k' ≡ top
      → free o' b' ≡ true
      → covered (put o b free) k' (suc o') (b' / 2) ≡ false
  unfolding above
  put-apart_below d o' b' k' p e h = ground (
    arith,
    covered-put free o b d k' (suc o') (b' / 2) p (omega (arith, p, e, level)),
    i.apart o' b' k' e h,
    w.below (suc d) o' b' (omega (arith, p)),
  )

  pub put-IsApart :
      (o < top → (free o (2 * (b / 2)) || free o (2 * (b / 2) + 1)) ≡ false)
      → IsApart top (put o b free)
  put-IsApart clear = record {
    single = λ o' j l. ground (arith, i.single o' j l, clear);
    apart = λ o' b' k' e h. elim (Bool-cases (ltb o' o)) [
      | inl low ↦ put-apart_below (o - suc o') o' b' k' (ground arith) e (ground arith)
      | inr high ↦ put-apart_here o' b' k' (ground arith) e h
    ];
  }

pub flip_value : (o c : ℕ) (bit : ℕ → ℕ → Bool) (x : Bool) → bit o c ≡ not x → flip o c bit o c ≡ x
flip_value o c bit true h = ground arith
flip_value o c bit false h = ground arith

-- Nothing inside a free block is free.
pub below_free :
    (top k o b : ℕ) (free : ℕ → ℕ → Bool)
    → IsApart top free
    → o + k ≡ top
    → free o b ≡ true
    → (d o' b' : ℕ) → o' + suc d ≡ o
    → above (suc d) b' ≡ b
    → free o' b' ≡ false
unfolding above
below_free top k o b free i level here d o' b' p e =
    let covers : covered free (d + k) (suc o') (b' / 2) ≡ true =
      covered-above free o d k (d + k) (suc o') (b' / 2) (omega (arith, p)) refl
        (rw e (free-covered free k o b here)) in
    ground (arith, i.apart o' b' (d + k) (omega (arith, p, level)))
