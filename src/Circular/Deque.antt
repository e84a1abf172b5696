-- ===== src/Circular/Deque.antt =====
-- The operations at the ends of a circular buffer: a double-ended queue.
use apex.Base.{
  ℕ, ◌+◌, ◌-◌, ◌%◌, ◌≤◌, ◌<◌, ◌≡◌, refl, sym, ap, subst, ◌∙◌, [], ◌∷◌, ◌++◌, ◌==◌, arith, take,
  drop, length,
}
use mathlib.Core.Path.{ap₂}
use apex.Circular.{
  CircularBuffer, add, sub, size, get, empty, front, back, push_front, push_back, pop_front,
  pop_back, fill_loop,
}
use apex.Circular.Contents.{
  items, length-items, items-congr, items-append, take-items, drop-items, contents, IsBuffer,
}
use apex.Circular.Copies.{fill_loop-Copied}
use apex.Circular.Expand
use apex.Circular.Collapse
use apex.Circular.Editing.{Inserted, Inserted-frame}

module _ {ℓ} {A : Type ℓ} where
  one_more :
      (cb cb' : CircularBuffer A) (i it : ℕ) (x : A)
      → i ≤ size cb
      → Expand.Expanded cb i 1 it cb'
      → Inserted cb i (x ∷ []) it (fill_loop 1 it x cb')
  one_more cb cb' i it x inside h =
      let (f, frame) =
        fill_loop-Copied 1 it x cb' h.valid.pos h.valid.fits h.valid.below (h.valid.pos) in
      Inserted-frame cb cb' (fill_loop 1 it x cb') i it (x ∷ []) inside h f frame

  take_all : (cb : CircularBuffer A) → take (size cb) (contents cb) ≡ contents cb
  take_all cb = take-items (get cb) (size cb) (size cb) (omega arith)

  drop_all : (cb : CircularBuffer A) → drop (size cb) (contents cb) ≡ []
  drop_all cb = drop-items (get cb) (size cb) (size cb) 0 (omega arith)

  push_back-contents :
      (cb : CircularBuffer A) (x : A)
      → IsBuffer cb
      → size cb < cb.capacity
      → IsBuffer (push_back x cb) × (contents (push_back x cb) ≡ contents cb ++ x ∷ [])
  unfolding push_back fill_loop
  push_back-contents cb x v room =
      let at : add cb.begin (size cb) ≡ cb.end = omega (arith, v.begin_in, v.end_in) in
      let back_at : sub (add cb.end 1) 1 ≡ cb.end = omega (arith, v.end_in) in
      let h = Expand.at_end cb v (size cb) 1 (omega arith) (omega (arith, room)) refl in
      let g = subst (λ p. Expand.Expanded cb (size cb) 1 p (record cb { end = add p 1 })) at h in
      let r = one_more cb _ (size cb) cb.end x (omega arith) g in
      rw back_at (r.valid, r.holds ∙ rw (take_all cb, drop_all cb) refl)

  push_front-contents :
      (cb : CircularBuffer A) (x : A)
      → IsBuffer cb
      → size cb < cb.capacity
      → IsBuffer (push_front x cb) × (contents (push_front x cb) ≡ x ∷ contents cb)
  unfolding push_front fill_loop
  push_front-contents cb x v room =
      let h = Expand.at_begin cb v 0 1 (omega arith) (omega (arith, room)) refl in
      let r = one_more cb _ 0 (sub cb.begin 1) x (omega arith) h in (r.valid, r.holds)

  first_item : (cb : CircularBuffer A) → IsBuffer cb → get cb 0 ≡ front cb
  unfolding get front
  first_item cb v = ap (λ j. cb.b (j % cb.capacity)) (omega (arith, v.begin_in))

  last_item :
      (cb : CircularBuffer A) → IsBuffer cb → 0 < size cb → get cb (size cb - 1 + 0) ≡ back cb
  unfolding get back
  last_item cb v some = ap (λ j. cb.b (j % cb.capacity)) (omega (arith, v.begin_in, v.end_in, some))

  pop_front-contents :
      (cb : CircularBuffer A)
      → IsBuffer cb
      → 0 < size cb
      → IsBuffer (pop_front cb) × (contents cb ≡ front cb ∷ contents (pop_front cb))
  unfolding pop_front
  pop_front-contents cb v some =
      let h = Collapse.at_begin cb v 0 1 (omega (arith, some)) refl in
      let n = size cb - 1 in
      (
        h.valid,
        items-append (get cb) 1 n (size cb) (omega (arith, some))
            ∙ ap₂ ◌∷◌ (first_item cb v) (
                items-congr (λ j. get cb (1 + j)) (get (pop_front cb)) n
                  (λ j l.
                    ap (get cb) (omega arith) ∙ sym (h.high j (omega arith) (omega (arith, l))))
                ∙ ap (items (get (pop_front cb))) (omega (arith, h.sized))),
      )

  pop_back-contents :
      (cb : CircularBuffer A)
      → IsBuffer cb
      → 0 < size cb
      → IsBuffer (pop_back cb) × (contents cb ≡ contents (pop_back cb) ++ back cb ∷ [])
  unfolding pop_back
  pop_back-contents cb v some =
      let h = Collapse.at_end cb v (size cb - 1) 1 (omega (arith, some)) (omega (arith, some)) in
      let n = size cb - 1 in
      (
        h.valid,
        items-append (get cb) n 1 (size cb) (omega (arith, some))
            ∙ ap₂ ◌++◌
                (items-congr (get cb) (get (pop_back cb)) n (λ j l. sym (h.low j l))
                  ∙ ap (items (get (pop_back cb))) (omega (arith, h.sized)))
                (ap (λ (y : A). y ∷ []) (last_item cb v some)),
      )

  -- Both pushes keep a valid buffer that is not full valid and add the item at their end of the
  -- list.
  pub push-contents :
      (cb : CircularBuffer A) (x : A)
      → IsBuffer cb
      → size cb < cb.capacity
      → IsBuffer (push_back x cb)
        × (contents (push_back x cb) ≡ contents cb ++ x ∷ [])
        × IsBuffer (push_front x cb)
        × (contents (push_front x cb) ≡ x ∷ contents cb)
  push-contents cb x v room =
      let (valid, held) = push_back-contents cb x v room in
      let (valid', held') = push_front-contents cb x v room in (valid, held, valid', held')

  -- Both pops keep a valid buffer that is not empty valid and take out the item that front or back
  -- gives.
  pub pop-contents :
      (cb : CircularBuffer A)
      → IsBuffer cb
      → 0 < size cb
      → IsBuffer (pop_front cb)
        × (contents cb ≡ front cb ∷ contents (pop_front cb))
        × IsBuffer (pop_back cb)
        × (contents cb ≡ contents (pop_back cb) ++ back cb ∷ [])
  pop-contents cb v some =
      let (valid, held) = pop_front-contents cb v some in
      let (valid', held') = pop_back-contents cb v some in (valid, held, valid', held')

  -- `empty` says whether there are no items, and `clear` leaves none.
  pub empty-contents :
      (cb : CircularBuffer A) → IsBuffer cb → empty cb ≡ (length (contents cb) == 0)
  unfolding empty
  empty-contents cb v = rw (length-items (get cb) (size cb)) (ground (arith, v.begin_in, v.end_in))
