-- ===== src/Circular/Pieces.antt =====
-- data: the items of a circular buffer as at most two pieces of its array.
use apex.Base.{
  ℕ, ◌+◌, ◌-◌, ◌%◌, ◌≤◌, ◌<◌, ◌≡◌, refl, sym, ap, ◌∙◌, true, false, List, [], ◌∷◌, ◌++◌, leb, ◌==◌,
  arith, Bool-cases, inl, inr, min, some, append-nil,
}
use mathlib.Core.Path.{ap₂}
use native.Mathlib.Nat.{mod-lt}
use apex.Circular.{CircularBuffer, add, sub, size, get, offset, linear, data_loop, data_of}
use apex.Circular.Wrap.{place, add-place}
use apex.Circular.Contents.{items, items-congr, items-append, contents, IsBuffer, get-place}

module _ {ℓ} {A : Type ℓ} where
  -- What the pieces hold.
  abbrev pub read : (ℕ → A) → List (ℕ × ℕ) → List A
  read b [] = []
  read b ((start, n) ∷ ps) = items (λ i. b (start + i)) n ++ read b ps

  module _ (cb : CircularBuffer A) (v : IsBuffer cb) where
    abbrev start : ℕ
    start = cb.begin % cb.capacity

    start-lt : start < cb.capacity
    start-lt = mod-lt cb.begin v.pos

    offset_begin : offset cb cb.begin ≡ 0
    offset_begin = omega (arith, v.begin_in)

    first_linear : linear cb cb.begin cb.end ≡ min (size cb) (cb.capacity - start)
    unfolding linear
    first_linear = ap (λ k. min k (cb.capacity - start)) (omega (arith, v.begin_in, v.end_in))

    -- The second piece starts at the start of the array.
    second_linear :
        (k : ℕ)
        → k < size cb
        → add cb.begin k % cb.capacity ≡ 0
        → linear cb (add cb.begin k) cb.end ≡ size cb - k
    unfolding linear
    second_linear k l at =
        let far : sub (offset cb cb.end) (offset cb (add cb.begin k)) ≡ size cb - k =
          omega (arith, v.begin_in, v.end_in, v.below, v.room, l) in
        ap (λ p. min (sub (offset cb cb.end) (offset cb (add cb.begin k))) (cb.capacity - p)) at
        ∙ omega (arith, far, v.room)

    first_read :
        (n : ℕ) → start + n ≤ cb.capacity → items (λ i. cb.b (start + i)) n ≡ items (get cb) n
    first_read n l =
        items-congr (λ i. cb.b (start + i)) (get cb) n
          (λ i u.
            ap cb.b (let e : start + i ≡ place cb.capacity start i = ground (arith, l, u) in e)
            ∙ sym (get-place cb i v (omega (arith, l, u))))

    -- On a valid buffer, data gives at most the two pieces that its result has room for, and they
    -- hold the items, in order.
    pub data_of-contents :
        (ps : List (ℕ × ℕ)) × (data_of cb ≡ some ps) × (read cb.b ps ≡ contents cb)
    unfolding data_of data_loop
    data_of-contents = elim (Bool-cases (cb.begin == cb.end)) [
      | inl empty ↦ (
        [],
        rw empty refl,
        (let none_left : size cb ≡ 0 = ground (arith, empty, v.begin_in, v.end_in) in
            rw none_left refl),
      )
      | inr some_items ↦ elim (Bool-cases (leb (size cb) (cb.capacity - start))) [
        | inl whole ↦
            let lin : linear cb cb.begin cb.end ≡ size cb = first_linear ∙ ground (arith, whole) in
            let ends : (add cb.begin (size cb) == cb.end) ≡ true =
              ground (arith, v.begin_in, v.end_in) in
            (
              (start, size cb) ∷ [],
              rw (some_items, lin, ends, lin) refl,
              append-nil (items (λ i. cb.b (start + i)) (size cb))
                  ∙ first_read (size cb) (ground (arith, whole, start-lt)),
            )
        | inr broken ↦
            let k = cb.capacity - start in
            let n = size cb - k in
            let it = add cb.begin k in
            let lin : linear cb cb.begin cb.end ≡ k = first_linear ∙ ground (arith, broken) in
            let more : (it == cb.end) ≡ false =
              ground (arith, broken, v.begin_in, v.end_in, v.below, v.room) in
            let at : it % cb.capacity ≡ 0 =
              add-place cb.capacity v.pos v.fits v.below cb.begin k (omega arith)
              ∙ ground (arith, start-lt) in
            let lin' : linear cb it cb.end ≡ n = second_linear k (ground (arith, broken)) at in
            let ends : (add it n == cb.end) ≡ true =
              ground (arith, broken, v.begin_in, v.end_in, v.below, v.room) in
            (
              (start, k) ∷ (0, n) ∷ [],
              rw (some_items, lin, more, lin', ends, lin, lin', at) refl,
              ap₂ ◌++◌ (first_read k (omega (arith, start-lt))) (
                    append-nil (items (λ i. cb.b (0 + i)) n)
                    ∙ items-congr (λ i. cb.b (0 + i)) (λ i. get cb (k + i)) n
                        (λ i u.
                          (ap cb.b (
                              let e : 0 + i ≡ place cb.capacity start (k + i) =
                                ground (arith, start-lt) in
                              e)
                            ∙ sym (get-place cb (k + i) v (omega (arith, u, v.room))))))
                  ∙ sym (items-append (get cb) k n (size cb) (ground (arith, broken))),
            )
      ]
    ]
