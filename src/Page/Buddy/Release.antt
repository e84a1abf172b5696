-- ===== src/Page/Buddy/Release.antt =====
-- Giving a block back: the invariant holds, and exactly the block's pages are covered as well.
use apex.Base.{
  ℕ, zero, suc, ◌+◌, ◌-◌, ◌*◌, ◌/◌, ◌<◌, ◌≡◌, refl, Bool, true, false, not, ◌||◌, ◌==◌, arith, ap,
  ◌∙◌, fun_ext, Bool-cases, inl, inr, ==_iff,
}
use apex.Page.Buddy.{Buddy, put, del, flip, join, merge, release}
use apex.Page.Buddy.Cover.{
  above, above-half, covered, covered-put, covered-del, covered-del_above, covered-above,
  free-covered, uncovered-half,
}
use apex.Page.Buddy.Apart.{
  IsApart, Marks, IsOwned, del-IsApart, put-IsApart, flip_value, below_free,
}

-- What giving back block `b` of order `o` does, `k` orders below the top.
pub record Released (top k o b : ℕ) (s s' : Buddy) : Type 0 where
  pub kept : IsApart top s'.free
  pub marks : Marks o top s'.free s'.bit
  pub free_below : (o' b' : ℕ) → o' < o → s'.free o' b' ≡ s.free o' b'
  pub bits_below : (o' j : ℕ) → o' < o → s'.bit o' j ≡ s.bit o' j
  pub pages :
      (d f o' b' : ℕ)
      → o' + d ≡ o
      → f ≡ d + k
      → covered s'.free f o' b' ≡ (covered s.free f o' b' || (above d b' == b))

-- The code's choice, by the bit of the pair.
module _ (k o b : ℕ) (s : Buddy) where
  abbrev buddy : ℕ
  buddy = 4 * (b / 2) + 1 - b

  abbrev without : Buddy
  without = record { free = del o buddy s.free; bit = flip o (b / 2) s.bit }

  abbrev by_bit : Bool → Buddy
  by_bit x = elim x [
    | true ↦ record { free = put o b s.free; bit = flip o (b / 2) s.bit }
    | false ↦ release k (suc o) (b / 2) without
  ]

  abbrev put_in : Buddy
  put_in = record { free = put o b s.free; bit = flip o (b / 2) s.bit }

  joined :
      s.free o b ≡ false
      → join o (b / 2) put_in ≡ record without { free = put (suc o) (b / 2) without.free }
  joined busy = ap (λ f. record without { free = f }) (fun_ext (λ o'. fun_ext (λ b'. ground arith)))

  abbrev merged : Bool → Buddy
  merged x = elim x [ true ↦ put_in | false ↦ merge k (suc o) (b / 2) (join o (b / 2) put_in) ]

  merged-eq : (x : Bool) → s.free o b ≡ false → merged x ≡ by_bit x
  unfolding release
  merged-eq true busy = refl
  merged-eq false busy = ap (merge k (suc o) (b / 2)) (joined busy)

  release-bit :
      (x : Bool) → s.free o b ≡ false → s.bit o (b / 2) ≡ not x → release (suc k) o b s ≡ by_bit x
  unfolding release merge
  release-bit x busy h = ap merged (flip_value o (b / 2) s.bit x h) ∙ merged-eq x busy

-- The buddy is free: it is taken out, and the block above is given back.
module _ (top k o b : ℕ) (s : Buddy) (i : IsApart top s.free) (level : o + suc k ≡ top)
    (w : IsOwned (suc k) o b s.free) (there : s.free o (4 * (b / 2) + 1 - b) ≡ true) where
  without-below :
      (d o' b' : ℕ) → o' + d ≡ suc o → above d b' ≡ b / 2 → (without k o b s).free o' b' ≡ false
  unfolding above
  without-below zero o' b' p e =
      ground
        (arith, p, free-covered s.free k (suc o) (b / 2), uncovered-half s.free k o b w.uncovered)
  without-below (suc zero) o' b' p e = ground (arith, p, w.below zero o' b' (omega (arith, p)))
  without-below (suc (suc d)) o' b' p e = ground (
    arith,
    above-half (suc d) b',
    w.below (suc d) o' b' (omega (arith, p)),
    below_free top (suc k) o (buddy k o b s) s.free i level there d o' b' (omega (arith, p)),
  )

  without-IsOwned : IsOwned k (suc o) (b / 2) (without k o b s).free
  without-IsOwned = record {
    uncovered = ground (
      arith,
      covered-del_above s.free o (buddy k o b s) k (suc o) (b / 2) (omega arith),
      uncovered-half s.free k o b w.uncovered,
    );
    below = without-below;
  }

  merged-Released :
      (s' : Buddy)
      → s.free o b ≡ false
      → s.bit o (b / 2) ≡ true
      → ((j : ℕ) → s.bit o j ≡ (s.free o (2 * j) || s.free o (2 * j + 1)))
      → Released top k (suc o) (b / 2) (without k o b s) s'
      → Released top (suc k) o b s s'
  merged-Released s' busy set marked r = record {
    kept = r.kept;
    marks = λ o' j l u. elim (Bool-cases (o' == o)) [
      | inl same ↦ ground (
        arith,
        marked j,
        i.single o j,
        r.bits_below o j (omega arith),
        r.free_below o (2 * j) (omega arith),
        r.free_below o (2 * j + 1) (omega arith),
      )
      | inr other ↦ ground (arith, r.marks o' j)
    ];
    free_below = λ o' b' l. ground (arith, r.free_below o' b' (omega arith));
    bits_below = λ o' j l. ground (arith, r.bits_below o' j (omega arith));
    pages = λ d f o' b' p e.
        let up = r.pages (suc d) f o' b' (omega (arith, p)) (omega (arith, e)) in
        elim (Bool-cases (above d b' == buddy k o b s)) [
          | inl inside ↦
              let covers : covered s.free f o' b' ≡ true =
                covered-above s.free o d (suc k) f o' b' p e (
                  rw ((==_iff (above d b') (buddy k o b s)).0 inside)
                    (free-covered s.free (suc k) o (buddy k o b s) there)) in
              ground (arith, up, above-half d b')
          | inr outside ↦ ground (
            arith,
            up,
            above-half d b',
            covered-del s.free o (buddy k o b s) d f o' b' p (omega (arith, e)) outside,
          )
        ];
  }

-- If no two free blocks overlap, the bits above are right, and nothing of the block is free, then
-- giving the block back keeps all of this and frees exactly the pages of the block.
pub release-Released :
    (top k o b : ℕ) (s : Buddy)
    → IsApart top s.free
    → Marks o top s.free s.bit
    → o + k ≡ top
    → IsOwned k o b s.free
    → Released top k o b s (release k o b s)
unfolding release merge above
release-Released top zero o b s i m level w = record {
  kept = put-IsApart top zero o b s.free i level w (λ l. absurd (omega (arith, level)));
  marks = λ o' j l u. absurd (omega (arith, level));
  free_below = λ o' b' l. ground arith;
  bits_below = λ o' j l. refl;
  pages = λ d f o' b' p e. covered-put s.free o b d f o' b' p (omega (arith, e));
}
release-Released top (suc k) o b s i m level w =
    let busy : s.free o b ≡ false = w.below zero o b (omega arith) refl in
    let marked = λ (j : ℕ). m o j (omega arith) (omega (arith, level)) in
    elim (Bool-cases (s.bit o (b / 2))) [
      | inl set ↦
          let there : s.free o (4 * (b / 2) + 1 - b) ≡ true = ground (arith, marked (b / 2)) in
          rw (release-bit k o b s false busy set) (
            merged-Released top k o b s i level w there _ busy set marked (
              release-Released top k (suc o) (b / 2) (without k o b s)
                (del-IsApart top o (buddy k o b s) s.free i) (λ o' j l u. ground (arith, m o' j))
                (omega (arith, level)) (without-IsOwned top k o b s i level w there)))
      | inr clear ↦ rw (release-bit k o b s true busy clear) (record {
        kept = put-IsApart top (suc k) o b s.free i level w (λ l. ground (arith, marked (b / 2)));
        marks = λ o' j l u. ground (arith, m o' j l u);
        free_below = λ o' b' l. ground arith;
        bits_below = λ o' j l. ground arith;
        pages = λ d f o' b' p e. covered-put s.free o b d f o' b' p (omega (arith, e));
      })
    ]
