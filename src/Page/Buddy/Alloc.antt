-- ===== src/Page/Buddy/Alloc.antt =====
-- Taking a block: the invariant holds, and exactly the block's pages are no longer covered.
use apex.Base.{
  ℕ, zero, suc, ◌+◌, ◌-◌, ◌*◌, ◌/◌, ◌<◌, ◌≡◌, refl, Bool, true, false, not, ◌&&◌, ◌||◌, ◌==◌, arith,
  ap, fun_ext, Bool-cases, inl, inr, ==_iff,
}
use apex.Page.Buddy.{Buddy, put, del, flip, carve, alloc}
use apex.Page.Buddy.Cover.{
  above, above-half, covered, covered-del_above, covered-put, covered-del, covered-above,
  free-covered,
}
use apex.Page.Buddy.Apart.{IsApart, Marks, IsOwned, del-IsApart, put-IsApart, flip_value}

-- What taking block `b` of order `o` does, `k` orders below the top.
pub record Allocated (top k o b : ℕ) (s s' : Buddy) : Type 0 where
  pub kept : IsApart top s'.free
  pub marks : Marks o top s'.free s'.bit
  pub free_below : (o' b' : ℕ) → o' < o → s'.free o' b' ≡ s.free o' b'
  pub bits_below : (o' j : ℕ) → o' < o → s'.bit o' j ≡ s.bit o' j
  pub pages :
      (d f o' b' : ℕ)
      → o' + d ≡ o
      → f ≡ d + k
      → covered s'.free f o' b' ≡ (covered s.free f o' b' && not (above d b' == b))

covered-del_here :
    (top k o b : ℕ) (free : ℕ → ℕ → Bool)
    → IsApart top free
    → o + k ≡ top
    → free o b ≡ true
    → covered (del o b free) k o b ≡ false
unfolding covered
covered-del_here top zero o b free i level here = ground arith
covered-del_here top (suc k) o b free i level here =
    ground (arith, covered-del_above free o b k (suc o) (b / 2), i.apart o b k level here)

-- The block is free itself.
module _ (top k o b : ℕ) (free : ℕ → ℕ → Bool) (i : IsApart top free) (level : o + k ≡ top)
    (here : free o b ≡ true) where
  covered-del_self :
      (d f o' b' : ℕ)
      → o' + d ≡ o
      → f ≡ d + k
      → (above d b' == b) ≡ true
      → covered (del o b free) f o' b' ≡ false
  unfolding covered above
  covered-del_self zero f o' b' p e h =
      let same_order : o' ≡ o = omega (arith, p) in
      let same_fuel : f ≡ k = omega (arith, e) in
      rw (same_order, same_fuel, (==_iff b' b).0 h) (covered-del_here top k o b free i level here)
  covered-del_self (suc d) zero o' b' p e h = absurd (omega arith)
  covered-del_self (suc d) (suc f) o' b' p e h =
      let covers : covered free f (suc o') (b' / 2) ≡ true =
        covered-above free o d k f (suc o') (b' / 2) (omega (arith, p)) (omega (arith, e))
          (rw ((==_iff (above d (b' / 2)) b).0 h) (free-covered free k o b here)) in
      ground (
        arith,
        i.apart o' b' f (omega (arith, p, e, level)),
        covered-del_self d f (suc o') (b' / 2) (omega (arith, p)) (omega (arith, e)) h,
      )

  covered-del_lem :
      (d f o' b' : ℕ)
      → o' + d ≡ o
      → f ≡ d + k
      → covered (del o b free) f o' b' ≡ (covered free f o' b' && not (above d b' == b))
  covered-del_lem d f o' b' p e = elim (Bool-cases (above d b' == b)) [
    | inl inside ↦ rw inside (ground (arith, covered-del_self d f o' b' p e inside))
    | inr outside ↦
        rw outside (ground (arith, covered-del free o b d f o' b' p (omega arith) outside))
  ]

-- The block is not free, but the next above it has been taken: what is left of it is its buddy.
module _ (top k o b : ℕ) (s s₁ : Buddy) (i : IsApart top s.free) (level : o + suc k ≡ top)
    (busy : s.free o b ≡ false) (covers : covered s.free (suc k) o b ≡ true)
    (marked : (j : ℕ) → s.bit o j ≡ ((j == b / 2) || (s.free o (2 * j) || s.free o (2 * j + 1))))
    (r : Allocated top k (suc o) (b / 2) s s₁) where
  above_covers : covered s.free k (suc o) (b / 2) ≡ true
  unfolding covered
  above_covers = ground arith

  unowned : (b' : ℕ) → b' / 2 ≡ b / 2 → s₁.free o b' ≡ false
  unowned b' e =
      let half : covered s.free k (suc o) (b' / 2) ≡ true = rw e above_covers in
      ground (arith, r.free_below o b' (omega arith), i.apart o b' k level)

  abbrev buddy : ℕ
  buddy = 4 * (b / 2) + 1 - b

  carve-eq-put : (carve o b s₁).free ≡ put o buddy s₁.free
  carve-eq-put = fun_ext (λ o'. fun_ext (λ b'. ground (arith, unowned b refl)))

  carve-pages :
      (d f o' b' : ℕ)
      → o' + d ≡ o
      → f ≡ d + suc k
      → covered (carve o b s₁).free f o' b' ≡ (covered s.free f o' b' && not (above d b' == b))
  carve-pages d f o' b' p e =
      let up : o' + suc d ≡ suc o = omega (arith, p) in
      let more : f ≡ suc d + k = omega (arith, e) in
      rw carve-eq-put (
        ground (
          arith,
          above_covers,
          covered-put s₁.free o buddy d f o' b' p (omega (arith, e)),
          r.pages (suc d) f o' b' up more,
          above-half d b',
          covered-above s.free (suc o) (suc d) k f o' b' up more,
        ))

  inside :
      (d k' o' b' : ℕ)
      → o' + d ≡ o
      → o' + k' ≡ top
      → s₁.free o' b' ≡ true
      → above d b' / 2 ≡ b / 2
      → ⊥
  inside d k' o' b' p e h same =
      let cov = free-covered s₁.free k' o' b' h in
      ground (
        arith,
        r.pages (suc d) k' o' b' (omega (arith, p)) (omega (arith, p, e, level)),
        above-half d b',
      )

  buddy-IsOwned : IsOwned (suc k) o buddy s₁.free
  unfolding above
  buddy-IsOwned = record {
    uncovered = ground (arith, r.pages (suc zero) (suc k) o buddy (omega arith) (omega arith));
    below = λ d o' b' p e. elim (Bool-cases (s₁.free o' b')) [
      | inl h ↦
          absurd (inside d (top - o') o' b' p (omega (arith, p, level)) h (rw e (omega arith)))
      | inr n ↦ n
    ];
  }

  carve-IsApart : IsApart top (carve o b s₁).free
  carve-IsApart = rw carve-eq-put (
      put-IsApart top (suc k) o buddy s₁.free r.kept level buddy-IsOwned (λ l. ground (
        arith,
        unowned (2 * (buddy / 2)) (omega arith),
        unowned (2 * (buddy / 2) + 1) (omega arith),
      )))

  carve-Allocated : Allocated top (suc k) o b s (carve o b s₁)
  carve-Allocated = record {
    kept = carve-IsApart;
    marks = λ o' j l m. elim (Bool-cases (o' == o)) [
      | inl same ↦ ground (
        arith,
        marked j,
        r.bits_below o j (omega arith),
        r.free_below o (2 * j) (omega arith),
        r.free_below o (2 * j + 1) (omega arith),
        unowned (2 * (b / 2)) (omega arith),
        unowned (2 * (b / 2) + 1) (omega arith),
      )
      | inr other ↦ ground (arith, r.marks o' j)
    ];
    free_below = λ o' b' l. ground (arith, r.free_below o' b' (omega arith));
    bits_below = λ o' j l. r.bits_below o' j (omega arith);
    pages = carve-pages;
  }

-- The code's choice, by the bit of the pair.
module _ (k o b : ℕ) (s : Buddy) where
  abbrev pub flipped : Buddy
  flipped = record s { bit = flip o (b / 2) s.bit }

  abbrev pub by_bit : Bool → Buddy
  by_bit x = elim x [
    | false ↦ record flipped { free = del o b s.free }
    | true ↦ carve o b (alloc k (suc o) (b / 2) flipped)
  ]

  pub alloc-bit : (x : Bool) → s.bit o (b / 2) ≡ not x → alloc (suc k) o b s ≡ by_bit x
  unfolding alloc
  alloc-bit x h = ap by_bit (flip_value o (b / 2) s.bit x h)

-- If no two free blocks overlap, the bits above are right, and the block lies in a free one, then
-- taking the block keeps all of this and takes exactly the pages of the block.
pub alloc-Allocated :
    (top k o b : ℕ) (s : Buddy)
    → IsApart top s.free
    → Marks o top s.free s.bit
    → o + k ≡ top
    → covered s.free k o b ≡ true
    → Allocated top k o b s (alloc k o b s)
unfolding alloc covered
alloc-Allocated top zero o b s i m level here = record {
  kept = del-IsApart top o b s.free i;
  marks = λ o' j l u. absurd (omega (arith, level));
  free_below = λ o' b' l. ground arith;
  bits_below = λ o' j l. refl;
  pages = covered-del_lem top zero o b s.free i level here;
}
alloc-Allocated top (suc k) o b s i m level covers = elim (Bool-cases (s.free o b)) [
  | inl here ↦ rw (alloc-bit k o b s false (ground (arith, m o (b / 2)))) (record {
    kept = del-IsApart top o b s.free i;
    marks = λ o' j l u. ground (arith, m o' j l u, i.single o' j u);
    free_below = λ o' b' l. ground arith;
    bits_below = λ o' j l. ground arith;
    pages = covered-del_lem top (suc k) o b s.free i level here;
  })
  | inr busy ↦
      let up : covered s.free k (suc o) (b / 2) ≡ true = ground arith in
      let clear : s.bit o (b / 2) ≡ false = ground (
        arith,
        m o (b / 2) (omega arith) (omega (arith, level)),
        i.apart o (2 * (b / 2)) k level,
        i.apart o (2 * (b / 2) + 1) k level,
      ) in
      let s' = flipped k o b s in
      let r =
        alloc-Allocated top k (suc o) (b / 2) s' i (λ o' j l u. ground (arith, m o' j))
          (omega (arith, level)) up in
      let a =
        carve-Allocated top k o b s' (alloc k (suc o) (b / 2) s') i level busy covers
          (λ j. ground (arith, m o j (omega arith) (omega (arith, level)))) r in
      rw (alloc-bit k o b s true clear) (record {
        kept = a.kept;
        marks = a.marks;
        free_below = a.free_below;
        bits_below = λ o' j l. ground (arith, a.bits_below o' j l);
        pages = a.pages;
      })
]
