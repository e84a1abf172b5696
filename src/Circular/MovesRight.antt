-- ===== src/Circular/MovesRight.antt =====
-- move_right: the items that it copies, and those that it leaves alone. Places are counted from the
-- source, and the destination starts `gap` places behind it.
use apex.Base.{
  ℕ, zero, suc, ◌+◌, ◌-◌, ◌%◌, ◌≤◌, ◌<◌, ◌≡◌, refl, ap, subst, ◌∙◌, min, ltb, ◌==◌, arith,
  Bool-cases, inl, inr,
}
use apex.Circular.{CircularBuffer, size_mod, sub, or_max, memmove, right_loop}
use apex.Circular.Wrap.{place, sub-place}
use apex.Circular.Moves.{memmove-inside, memmove-outside}

-- The last `lin` of `j` places from `s` on stand in one piece, if they do not reach back over the
-- start of the array.
step_back :
    (c s j lin x : ℕ)
    → s < c
    → j ≤ c
    → 0 < lin
    → lin ≤ j
    → lin ≤ or_max x
    → x ≡ place c s j
    → (place c x (c - lin) ≡ place c s (j - lin)) × (place c s (j - lin) + lin ≤ c)
step_back c s j lin x p q some l m e = (ground (arith, e), ground (arith, e))

module _ {ℓ} {A : Type ℓ} where
  -- `count` places are written, `gap` places on from `s`, with what stood from `s` on.
  pub record MovedRight (c s gap count : ℕ) (b b' : ℕ → A) : Type ℓ where
    pub copied : (x : ℕ) → x < count → b' (place c s (gap + x)) ≡ b (place c s x)
    pub kept_low : (x : ℕ) → x < gap → b' (place c s x) ≡ b (place c s x)
    pub kept_high : (x : ℕ) → gap + count ≤ x → x < c → b' (place c s x) ≡ b (place c s x)

  chunk-MovedRight :
      (c s gap lin count : ℕ) (b b' : ℕ → A)
      → s < c
      → 0 < gap
      → 0 < lin
      → lin ≤ count
      → gap + count ≤ c
      → place c s (gap + (count - lin)) + lin ≤ c
      → place c s (count - lin) + lin ≤ c
      → MovedRight c s gap
          (count - lin)
          (memmove (place c s (gap + (count - lin))) (place c s (count - lin)) lin b)
          b'
      → MovedRight c s gap count b b'
  chunk-MovedRight c s gap lin count b b' p q some l all in_d in_s rest =
      let rest_count = count - lin in
      let d = place c s (gap + rest_count) in
      let b1 = memmove d (place c s rest_count) lin b in
      record {
        copied = λ x u. elim (Bool-cases (ltb x rest_count)) [
          | inl later ↦
              rest.copied x (ground (arith, later))
              ∙ memmove-outside d (place c s rest_count) lin (place c s x) b
                  (ground (arith, later, in_d, all, q, p))
          | inr now ↦
              let here : place c s (gap + x) ≡ d + (x - rest_count) =
                ground (arith, now, in_d, all, p, u) in
              let there : place c s rest_count + (x - rest_count) ≡ place c s x =
                ground (arith, now, in_s, all, p, u) in
              rest.kept_high (gap + x) (ground (arith, now)) (omega (arith, u, all))
              ∙ ap b1 here
              ∙ memmove-inside d (place c s rest_count) lin (x - rest_count) b
                  (ground (arith, now, u, l))
              ∙ ap b there
        ];
        kept_low = λ x u.
            rest.kept_low x u
            ∙ memmove-outside d (place c s rest_count) lin (place c s x) b
                (ground (arith, u, in_d, all, q, p));
        kept_high = λ x u w.
            rest.kept_high x (omega (arith, u)) w
            ∙ memmove-outside d (place c s rest_count) lin (place c s x) b
                (ground (arith, u, w, in_d, all, q, p, l));
      }

  nothing-MovedRight : (c s gap : ℕ) (b : ℕ → A) → MovedRight c s gap 0 b b
  nothing-MovedRight c s gap b = record {
    copied = λ x u. absurd (omega (arith, u));
    kept_low = λ x u. refl;
    kept_high = λ x u w. refl;
  }

  -- The loop of move_right ends and copies everything, with fuel for every item.
  pub right_loop-MovedRight :
      (fuel s dst src gap count : ℕ) (cb : CircularBuffer A)
      → let c = cb.capacity in
        0 < c
        → size_mod % c ≡ 0
        → c < size_mod
        → s < c
        → dst % c ≡ place c s (gap + count)
        → src % c ≡ place c s count
        → 0 < gap
        → gap + count ≤ c
        → count ≤ fuel
        → let cb' = right_loop fuel dst src count cb in
          MovedRight c s gap count cb.b cb'.b × (record cb' { b = cb.b } ≡ cb)
  unfolding right_loop
  right_loop-MovedRight zero s dst src gap count cb pos fits below low at_d at_s q all enough =
      let empty : count ≡ 0 = omega (arith, enough) in
      (rw empty (nothing-MovedRight cb.capacity s gap cb.b), refl)
  right_loop-MovedRight (suc fuel) s dst src gap count cb pos fits below low at_d at_s q all
        enough =
      let c = cb.capacity in
      let lin = min (min (or_max (dst % c)) (or_max (src % c))) count in
      elim (Bool-cases (count == 0)) [
        | inl none_left ↦
            let empty : count ≡ 0 = ground (arith, none_left) in
            rw none_left (rw empty (nothing-MovedRight c s gap cb.b), refl)
        | inr more ↦
            let some : 0 < count = ground (arith, more) in
            let moves : 0 < lin = ground (arith, some) in
            let rest_count = count - lin in
            let back_d =
              subst (λ j. (place c (dst % c) (c - lin) ≡ place c s j) × (place c s j + lin ≤ c))
                (let e : gap + count - lin ≡ gap + rest_count = omega arith in e)
                (step_back c s (gap + count) lin (dst % c) low all moves (omega arith) (omega arith)
                  at_d) in
            let back_s =
              step_back c s count lin (src % c) low (omega (arith, all)) moves (omega arith)
                (omega arith) at_s in
            let d' : sub dst lin % c ≡ place c s (gap + rest_count) =
              sub-place c pos fits below dst lin (omega (arith, all)) ∙ back_d.0 in
            let s' : sub src lin % c ≡ place c s rest_count =
              sub-place c pos fits below src lin (omega (arith, all)) ∙ back_s.0 in
            let b1 = memmove (sub dst lin % c) (sub src lin % c) lin cb.b in
            let (rest, frame) =
              right_loop-MovedRight fuel s (sub dst lin) (sub src lin) gap rest_count
                (record cb { b = b1 }) pos fits below low d' s' q (omega (arith, all))
                (omega (arith, moves, enough)) in
            let b' =
              (right_loop fuel (sub dst lin) (sub src lin) rest_count (record cb { b = b1 })).b in
            rw more (
              chunk-MovedRight c s gap lin count cb.b b' low q moves (omega arith) all back_d.1
                  back_s.1
                  (subst
                    (λ x.
                      MovedRight c s gap rest_count (memmove x (place c s rest_count) lin cb.b) b')
                    d'
                    (subst
                      (λ x. MovedRight c s gap rest_count (memmove (sub dst lin % c) x lin cb.b) b')
                      s' rest)),
              ap (λ (x : CircularBuffer A). record x { b = cb.b }) frame,
            )
      ]
