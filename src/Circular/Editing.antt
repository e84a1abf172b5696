-- ===== src/Circular/Editing.antt =====
-- Inserting and erasing as operations on the list of the items.
use apex.Base.{
  ℕ, ◌+◌, ◌-◌, ◌%◌, ◌≤◌, ◌<◌, ◌≡◌, refl, sym, ap, subst, ◌∙◌, List, [], ◌∷◌, ◌++◌, arith, length,
  take, drop,
}
use mathlib.Core.Path.{ap₂}
use apex.Circular.{
  CircularBuffer, add, sub, size, get, offset, expand, insert, copy_loop, insert_range, fill_loop,
  insert_fill, erase_range,
}
use apex.Circular.Wrap.{place}
use apex.Circular.Contents.{
  items-congr, items-append, take-items, drop-items, contents, IsBuffer, from_before, from_on,
  get-place, from_before, from_on,
}
use apex.Circular.Copies.{
  nth_or, nth_or-beyond, items_nth, Copied, copy_loop-Copied, replicate, length-replicate,
  fill_loop-Copied,
}
use apex.Circular.Expand.{Expanded, expand-Expanded}
use apex.Circular.Collapse.{Collapsed, collapse-Collapsed}

module _ {ℓ} {A : Type ℓ} where
  -- What a collapse leaves.
  pub Collapsed-contents :
      (cb cb' : CircularBuffer A) (i len it : ℕ)
      → i + len ≤ size cb
      → Collapsed cb i len it cb'
      → contents cb' ≡ take i (contents cb) ++ drop (i + len) (contents cb)
  Collapsed-contents cb cb' i len it inside h =
      let rest = size cb - (i + len) in
      items-append (get cb') i rest (size cb') (omega (arith, h.sized, inside))
      ∙ ap₂ ◌++◌
          (items-congr (get cb') (get cb) i h.low
            ∙ sym (take-items (get cb) i (size cb) (omega (arith, inside))))
          (items-congr (λ j. get cb' (i + j)) (λ j. get cb (i + len + j)) rest
              (λ j l. h.high (i + j) (omega arith) (omega (arith, l)) ∙ ap (get cb) (omega arith))
            ∙ sym (drop-items (get cb) (i + len) (size cb) rest (omega (arith, inside))))

  -- On a valid buffer, erase of a range inside it takes out the items from the first iterator up to
  -- the second, keeps the buffer valid, and returns the iterator of the item behind them.
  pub erase_range-contents :
      (cb : CircularBuffer A) (i j : ℕ)
      → IsBuffer cb
      → i ≤ j
      → j ≤ size cb
      → let (it, cb') = erase_range (add cb.begin i) (add cb.begin j) cb in
        IsBuffer cb'
        × (it ≡ add cb'.begin i)
        × (contents cb' ≡ take i (contents cb) ++ drop j (contents cb))
  unfolding erase_range
  erase_range-contents cb i j v l u =
      let n : sub (offset cb (add cb.begin j)) (offset cb (add cb.begin i)) ≡ j - i =
        omega (arith, v.begin_in, v.below, v.room, l, u) in
      let h = collapse-Collapsed cb v i (j - i) (omega (arith, l, u)) in
      rw n (
        h.valid,
        h.at,
        Collapsed-contents cb _ i (j - i) _ (omega (arith, l, u)) h
            ∙ ap (λ k. take i (contents cb) ++ drop k (contents cb)) (omega (arith, l)),
      )

  -- The list is copied to the room that was made before item `i`.
  module _ (cb cb' : CircularBuffer A) (i it : ℕ) (xs : List A) (b : ℕ → A) (inside : i ≤ size cb)
      (h : Expanded cb i (length xs) it cb')
      (f : Copied cb'.capacity (it % cb'.capacity) xs cb'.b b) where
    abbrev new : CircularBuffer A
    new = record cb' { b = b }

    new-IsBuffer : IsBuffer new
    new-IsBuffer = record {
      pos = h.valid.pos;
      fits = h.valid.fits;
      below = h.valid.below;
      begin_in = h.valid.begin_in;
      end_in = h.valid.end_in;
      room = h.valid.room;
    }

    i-le : i + length xs ≤ cb'.capacity
    i-le = omega (arith, inside, h.sized, h.valid.room)

    -- An item of the new buffer, by the place where the list is copied to.
    get-before : (x : ℕ) → x < i → get new x ≡ get cb' x
    get-before x l =
        let c = cb'.capacity in
        let y = c + x - i in
        let e =
          from_before cb' h.valid i (omega (arith, i-le)) x y (omega (arith, l, i-le))
            (omega (arith, l, i-le)) (omega (arith, i-le)) l in
        get-place new x new-IsBuffer (omega (arith, l, i-le))
        ∙ ap b e
        ∙ subst (λ p. b (place c (p % c) y) ≡ nth_or xs y (cb'.b (place c (p % c) y))) h.at
            (f.at y (omega (arith, l, i-le)))
        ∙ nth_or-beyond xs y (cb'.b (place c (add cb'.begin i % c) y)) (omega (arith, i-le))
        ∙ ap cb'.b (sym e)
        ∙ sym (get-place cb' x h.valid (omega (arith, l, i-le)))

    get-on : (x : ℕ) → i + x < cb'.capacity → get new (i + x) ≡ nth_or xs x (get cb' (i + x))
    get-on x l =
        let c = cb'.capacity in
        let e = from_on cb' h.valid i (omega (arith, i-le)) (i + x) x l (omega (arith, l)) refl in
        get-place new (i + x) new-IsBuffer (omega (arith, l))
        ∙ ap b e
        ∙ subst (λ p. b (place c (p % c) x) ≡ nth_or xs x (cb'.b (place c (p % c) x))) h.at
            (f.at x (omega (arith, l)))
        ∙ ap (nth_or xs x)
            (ap cb'.b (sym e) ∙ sym (get-place cb' (i + x) h.valid (omega (arith, l))))

    new-contents : contents new ≡ take i (contents cb) ++ (xs ++ drop i (contents cb))
    new-contents =
        let n = length xs in
        let rest = size cb - i in
        items-append (get new) i (n + rest) (size cb') (omega (arith, h.sized, inside))
        ∙ ap₂ ◌++◌
            (items-congr (get new) (get cb) i (λ x l. get-before x l ∙ h.low x l)
              ∙ sym (take-items (get cb) i (size cb) inside))
            (items-append (λ j. get new (i + j)) n rest (n + rest) refl
              ∙ ap₂ ◌++◌
                  (items-congr (λ j. get new (i + j)) (λ j. nth_or xs j (get cb' (i + j))) n
                      (λ j l. get-on j (omega (arith, l, i-le)))
                    ∙ items_nth xs (λ j. get cb' (i + j)))
                  (items-congr (λ j. get new (i + (n + j))) (λ j. get cb (i + j)) rest
                      (λ j l.
                        get-on (n + j) (omega (arith, l, h.sized, inside, h.valid.room))
                        ∙ nth_or-beyond xs (n + j) (get cb' (i + (n + j))) (omega arith)
                        ∙ ap (get cb') (omega arith)
                        ∙ h.high (i + j) (omega arith) (omega (arith, l)))
                    ∙ sym (drop-items (get cb) i (size cb) rest (omega (arith, inside)))))

  -- What inserting promises.
  pub record Inserted (cb : CircularBuffer A) (i : ℕ) (xs : List A) (it : ℕ)
      (cb' : CircularBuffer A) : Type ℓ where
    pub valid : IsBuffer cb'
    pub at : it ≡ add cb'.begin i
    pub holds : contents cb' ≡ take i (contents cb) ++ (xs ++ drop i (contents cb))

  pub Inserted-frame :
      (cb cb' cb'' : CircularBuffer A) (i it : ℕ) (xs : List A)
      → i ≤ size cb
      → Expanded cb i (length xs) it cb'
      → Copied cb'.capacity (it % cb'.capacity) xs cb'.b cb''.b
      → (record cb'' { b = cb'.b } ≡ cb')
      → Inserted cb i xs it cb''
  Inserted-frame cb cb' cb'' i it xs inside h f frame =
      subst (Inserted cb i xs it)
        (sym (ap (λ (x : CircularBuffer A). record x { b = cb''.b }) frame))
        (record {
          valid = new-IsBuffer cb cb' i it xs cb''.b inside h f;
          at = h.at;
          holds = new-contents cb cb' i it xs cb''.b inside h f;
        })

  -- On a valid buffer with room, insert of a range puts the list before the item of the iterator,
  -- and returns the iterator of its first item; the others stay, in order.
  pub insert_range-Inserted :
      (cb : CircularBuffer A) (i : ℕ) (xs : List A)
      → IsBuffer cb
      → i ≤ size cb
      → size cb + length xs ≤ cb.capacity
      → let (it, cb') = insert_range (add cb.begin i) xs cb in Inserted cb i xs it cb'
  unfolding insert_range
  insert_range-Inserted cb i xs v inside room =
      let h = expand-Expanded cb v i (length xs) inside room in
      let r = expand (add cb.begin i) (length xs) cb in
      let (f, frame) =
        copy_loop-Copied (length xs) r.0 xs r.1 h.valid.pos h.valid.fits h.valid.below
          (omega (arith, h.sized, h.valid.room)) (omega arith) in
      Inserted-frame cb r.1 (copy_loop (length xs) r.0 xs r.1) i r.0 xs inside h f frame

  -- insert of `n` equal items.
  pub insert_fill-Inserted :
      (cb : CircularBuffer A) (i n : ℕ) (x : A)
      → IsBuffer cb
      → i ≤ size cb
      → size cb + n ≤ cb.capacity
      → let (it, cb') = insert_fill (add cb.begin i) n x cb in Inserted cb i (replicate n x) it cb'
  unfolding insert_fill
  insert_fill-Inserted cb i n x v inside room =
      let e = length-replicate n x in
      let h = expand-Expanded cb v i n inside room in
      let r = expand (add cb.begin i) n cb in
      let (f, frame) =
        fill_loop-Copied n r.0 x r.1 h.valid.pos h.valid.fits h.valid.below
          (omega (arith, h.sized, h.valid.room)) in
      Inserted-frame cb r.1 (fill_loop n r.0 x r.1) i r.0 (replicate n x) inside
        (subst (λ k. Expanded cb i k r.0 r.1) (sym e) h) f frame

  -- insert of one item, and erase of one.
  pub insert-Inserted :
      (cb : CircularBuffer A) (i : ℕ) (x : A)
      → IsBuffer cb
      → i ≤ size cb
      → size cb < cb.capacity
      → let (it, cb') = insert (add cb.begin i) x cb in Inserted cb i (x ∷ []) it cb'
  unfolding insert insert_fill
  insert-Inserted cb i x v inside room =
      insert_fill-Inserted cb i 1 x v inside (omega (arith, room))
