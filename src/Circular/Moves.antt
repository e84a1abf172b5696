-- ===== src/Circular/Moves.antt =====
-- move_left: the items that it copies, and those that it leaves alone. Places are counted from the
-- destination, and the source starts `gap` places behind it.
use apex.Base.{
  ℕ, zero, suc, ◌+◌, ◌-◌, ◌%◌, ◌≤◌, ◌<◌, ◌≡◌, refl, sym, ap, subst, ◌∙◌, true, false, min, max, ltb,
  leb, ◌==◌, ◌&&◌, arith, Bool-cases, inl, inr,
}
use native.Mathlib.Nat.{mod-lt}
use apex.Circular.{CircularBuffer, size_mod, add, memmove, left_loop}
use apex.Circular.Wrap.{place_shift, place_before, place, add-place}

module _ {ℓ} {A : Type ℓ} where
  -- `count` places from `d` are written, the first `valid` of them with what stood `gap` places on.
  pub record Moved (c d gap count valid : ℕ) (b b' : ℕ → A) : Type ℓ where
    pub copied : (x : ℕ) → x < valid → b' (place c d x) ≡ b (place c d (gap + x))
    pub kept : (x : ℕ) → count ≤ x → x < c → b' (place c d x) ≡ b (place c d x)

  pub memmove-inside : (d s lin x : ℕ) (b : ℕ → A) → x < lin → memmove d s lin b (d + x) ≡ b (s + x)
  memmove-inside d s lin x b l =
      let low : leb d (d + x) ≡ true = ground arith in
      let high : ltb (d + x) (d + lin) ≡ true = ground arith in rw (low, high) (ap b (omega arith))

  pub memmove-outside :
      (d s lin q : ℕ) (b : ℕ → A) → (leb d q && ltb q (d + lin)) ≡ false → memmove d s lin b q ≡ b q
  memmove-outside d s lin q b h = rw h refl

  -- One `memmove` of items that stand in one piece, and the rest.
  chunk-Moved :
      (c d gap lin count valid : ℕ) (b b' : ℕ → A)
      → d < c
      → 0 < gap
      → gap < c
      → valid + gap ≤ c
      → valid ≤ count
      → lin ≤ count
      → count ≤ c
      → d + lin ≤ c
      → place c d gap + lin ≤ c
      → Moved c (place c d lin) gap (count - lin) (valid - lin) (memmove d (place c d gap) lin b) b'
      → Moved c d gap count valid b b'
  chunk-Moved c d gap lin count valid b b' p q r fits l l' all in_d in_s rest =
      let b1 = memmove d (place c d gap) lin b in
      let d' = place c d lin in
      let small : lin < c = ground (arith, in_d, in_s, p, q, r) in
      record {
        copied = λ x u. elim (Bool-cases (ltb x lin)) [
          | inl now ↦
              let back : place c d' (x + c - lin) ≡ place c d x =
                place_before c d lin (x + c - lin) x p (omega (arith, l', all)) (ground arith)
                  (ground (arith, now, l', all)) in
              let there : place c d (gap + x) ≡ place c d gap + x = ground (arith, now, u, fits) in
              let here : place c d x ≡ d + x = ground (arith, now) in
              ap b' (sym back)
              ∙ rest.kept (x + c - lin) (ground (arith, now, l', all)) (ground (arith, now, all))
              ∙ ap b1 (back ∙ here)
              ∙ memmove-inside d (place c d gap) lin x b (ground arith)
              ∙ ap b (sym there)
          | inr later ↦
              let forth : place c d' (x - lin) ≡ place c d x =
                place_shift c d lin (x - lin) x p small (omega (arith, u, fits))
                  (omega (arith, u, fits)) (ground (arith, later)) in
              let forth_s : place c d' (gap + (x - lin)) ≡ place c d (gap + x) =
                place_shift c d lin (gap + (x - lin)) (gap + x) p small (omega (arith, u, fits))
                  (omega (arith, u, fits)) (ground (arith, later)) in
              ap b' (sym forth)
              ∙ rest.copied (x - lin) (ground (arith, later, u))
              ∙ ap b1 forth_s
              ∙ memmove-outside d (place c d gap) lin (place c d (gap + x)) b
                  (ground (arith, later, u, fits, p))
        ];
        kept = λ x u w.
            let forth : place c d' (x - lin) ≡ place c d x =
              place_shift c d lin (x - lin) x p small (omega (arith, w)) w (omega (arith, u, l')) in
            ap b' (sym forth)
            ∙ rest.kept (x - lin) (omega (arith, u)) (omega (arith, w))
            ∙ ap b1 forth
            ∙ memmove-outside d (place c d gap) lin (place c d x) b (ground (arith, u, w, l', p));
      }

  nothing-Moved : (c d gap : ℕ) (b : ℕ → A) → Moved c d gap 0 0 b b
  nothing-Moved c d gap b = record {
    copied = λ x u. absurd (omega (arith, u));
    kept = λ x u w. refl;
  }

  -- The loop of move_left ends and copies everything, with fuel for every item.
  pub left_loop-Moved :
      (fuel dst src gap count valid : ℕ) (cb : CircularBuffer A)
      → let c = cb.capacity in
        0 < c
        → size_mod % c ≡ 0
        → c < size_mod
        → src % c ≡ place c (dst % c) gap
        → 0 < gap
        → gap < c
        → valid + gap ≤ c
        → valid ≤ count
        → count ≤ c
        → count ≤ fuel
        → let cb' = left_loop fuel dst src count cb in
          Moved c (dst % c) gap count valid cb.b cb'.b × (record cb' { b = cb.b } ≡ cb)
  unfolding left_loop
  left_loop-Moved zero dst src gap count valid cb pos fits below at q r f l all enough =
      let empty : count ≡ 0 = omega (arith, enough) in
      let empty' : valid ≡ 0 = omega (arith, empty, l) in
      (rw (empty, empty') (nothing-Moved cb.capacity (dst % cb.capacity) gap cb.b), refl)
  left_loop-Moved (suc fuel) dst src gap count valid cb pos fits below at q r f l all enough =
      let c = cb.capacity in
      let d = dst % c in
      let low : d < c = mod-lt dst pos in
      let low_s : src % c < c = mod-lt src pos in
      let lin = min (c - max d (src % c)) count in
      let lin_d : d + lin ≤ c = omega (arith, low) in
      let lin_s : src % c + lin ≤ c = omega (arith, low_s) in
      elim (Bool-cases (count == 0)) [
        | inl none_left ↦
            let empty : count ≡ 0 = ground (arith, none_left) in
            let empty' : valid ≡ 0 = omega (arith, empty, l) in
            rw none_left (rw (empty, empty') (nothing-Moved c d gap cb.b), refl)
        | inr more ↦
            let some : 0 < count = ground (arith, more) in
            let moves : 0 < lin = omega (arith, low, low_s, some) in
            let b1 = memmove d (src % c) lin cb.b in
            let at' : add src lin % c ≡ place c (add dst lin % c) gap =
              add-place c pos fits below src lin (omega arith)
              ∙ ap (λ s. place c s lin) at
              ∙ (let e : place c (place c d gap) lin ≡ place c (place c d lin) gap =
                    ground (arith, low, r, lin_d) in
                  e)
              ∙ ap (λ e. place c e gap) (sym (add-place c pos fits below dst lin (omega arith))) in
            let (rest, frame) =
              left_loop-Moved fuel (add dst lin) (add src lin) gap (count - lin) (valid - lin)
                (record cb { b = b1 }) pos fits below at' q r (omega (arith, f)) (omega (arith, l))
                (omega (arith, all)) (omega (arith, moves, enough)) in
            let b' =
              (left_loop fuel (add dst lin) (add src lin) (count - lin) (record cb { b = b1 })).b in
            rw more (
              chunk-Moved c d gap lin count valid cb.b b' low q r f l (omega arith) all lin_d
                  (rw (sym at) lin_s)
                  (subst
                    (λ s.
                      Moved c (place c d lin) gap (count - lin) (valid - lin) (memmove d s lin cb.b)
                        b')
                    at
                    (subst (λ e. Moved c e gap (count - lin) (valid - lin) b1 b')
                      (add-place c pos fits below dst lin (omega arith)) rest)),
              ap (λ (x : CircularBuffer A). record x { b = cb.b }) frame,
            )
      ]
