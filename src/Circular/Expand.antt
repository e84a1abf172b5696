-- ===== src/Circular/Expand.antt =====
-- expand: room for new items is made, and the items that are there stay, in order.
use apex.Base.{
  ℕ, ◌+◌, ◌-◌, ◌%◌, ◌≤◌, ◌<◌, ◌≡◌, refl, sym, ap, subst, ◌∙◌, leb, ◌==◌, arith, Bool-cases, inl,
  inr,
}
use native.Mathlib.Nat.{mod-lt, mod-eq_of_lt}
use apex.Circular.{CircularBuffer, add, sub, size, get, wrap, move_left, move_right, expand}
use apex.Circular.Wrap.{place_shift, place, add-place}
use apex.Circular.Moves.{Moved, left_loop-Moved}
use apex.Circular.MovesRight.{MovedRight, right_loop-MovedRight}
use apex.Circular.Contents.{IsBuffer, get-place, from_before, from_on}

module _ {ℓ} {A : Type ℓ} where
  -- Room for `len` items before item `i`.
  pub record Expanded (cb : CircularBuffer A) (i len : ℕ) (it : ℕ) (cb' : CircularBuffer A)
      : Type ℓ where
    pub valid : IsBuffer cb'
    pub same : cb'.capacity ≡ cb.capacity
    pub at : it ≡ add cb'.begin i
    pub sized : size cb' ≡ size cb + len
    pub low : (x : ℕ) → x < i → get cb' x ≡ get cb x
    pub high : (x : ℕ) → i ≤ x → x < size cb → get cb' (x + len) ≡ get cb x

  module _ (cb : CircularBuffer A) (v : IsBuffer cb) (i len : ℕ) (inside : i ≤ size cb)
      (room : size cb + len ≤ cb.capacity) where
    pub at_end :
        i ≡ size cb
        → Expanded cb i len (add cb.begin i) (record cb { end = add (add cb.begin i) len })
    unfolding get
    at_end e = record {
      valid = record {
        pos = v.pos;
        fits = v.fits;
        below = v.below;
        begin_in = v.begin_in;
        end_in = omega arith;
        room = omega (arith, v.begin_in, v.below, e, room, inside);
      };
      same = refl;
      at = refl;
      sized = omega (arith, v.begin_in, v.below, e, room, inside);
      low = λ x l. refl;
      high = λ x l u. absurd (omega (arith, e, l, u));
    }

    pub at_begin :
        i ≡ 0 → Expanded cb i len (sub cb.begin len) (record cb { begin = sub cb.begin len })
    unfolding get
    at_begin e = record {
      valid = record {
        pos = v.pos;
        fits = v.fits;
        below = v.below;
        begin_in = omega arith;
        end_in = v.end_in;
        room = omega (arith, v.begin_in, v.end_in, v.below, room);
      };
      same = refl;
      at = omega (arith, v.begin_in, v.below, room, e);
      sized = omega (arith, v.begin_in, v.end_in, v.below, room);
      low = λ x l. absurd (omega (arith, e, l));
      high =
          λ x l u. ap (λ j. cb.b (j % cb.capacity)) (omega (arith, v.begin_in, v.below, room, u));
    }

    -- The items before the place move to the left, or those from it on to the right.
    module _ (some : 0 < len) (first : 0 < i) (before_end : i < size cb) where
      abbrev c : ℕ
      c = cb.capacity

      abbrev d : ℕ
      d = sub cb.begin len % c

      begin-place : cb.begin % c ≡ place c d len
      begin-place =
          ap (λ p. p % c)
            (let e : cb.begin ≡ add (sub cb.begin len) len =
                omega (arith, v.begin_in, v.below, room) in
              e)
          ∙ add-place c v.pos v.fits v.below (sub cb.begin len) len (omega (arith, room))

      abbrev to_left : (ℕ → A) → CircularBuffer A
      to_left b' = record cb { b = b'; begin = sub cb.begin len }

      to_left-IsBuffer : (b' : ℕ → A) → IsBuffer (to_left b')
      to_left-IsBuffer b' = record {
        pos = v.pos;
        fits = v.fits;
        below = v.below;
        begin_in = omega arith;
        end_in = v.end_in;
        room = omega (arith, v.begin_in, v.end_in, v.below, room);
      }

      -- Item `x` of the old buffer, by the new start.
      get-left : (x : ℕ) → len + x < c → get cb x ≡ cb.b (place c d (len + x))
      get-left x l =
          get-place cb x v (omega (arith, l))
          ∙ ap (λ e. cb.b (place c e x)) begin-place
          ∙ ap cb.b (
              place_shift c d len x (len + x) (mod-lt (sub cb.begin len) v.pos) (omega (arith, l))
                (omega (arith, l)) l (omega arith))

      left-Expanded :
          (b' : ℕ → A)
          → Moved c d len (i + len - 1) i cb.b b'
          → Expanded cb i len (sub (add cb.begin i) len) (to_left b')
      left-Expanded b' moved = record {
        valid = to_left-IsBuffer b';
        same = refl;
        at = omega (arith, v.begin_in, v.below, room, inside);
        sized = omega (arith, v.begin_in, v.end_in, v.below, room);
        low = λ x l.
            get-place (to_left b') x (to_left-IsBuffer b') (omega (arith, l, room, inside))
            ∙ moved.copied x l
            ∙ sym (get-left x (omega (arith, l, room, inside)));
        high = λ x l u.
            get-place (to_left b') (x + len) (to_left-IsBuffer b') (omega (arith, u, room))
            ∙ moved.kept (x + len) (omega (arith, l)) (omega (arith, u, room))
            ∙ ap cb.b (let e : place c d (x + len) ≡ place c d (len + x) = ground arith in e)
            ∙ sym (get-left x (omega (arith, u, room)));
      }

      abbrev left : CircularBuffer A
      left = move_left (sub cb.begin len) cb.begin (i + len - 1) cb

      at_left :
          Expanded cb i len (sub (add cb.begin i) len) (record left { begin = sub cb.begin len })
      unfolding move_left
      at_left =
          let (moved, frame) =
            left_loop-Moved (i + len - 1) (sub cb.begin len) cb.begin len (i + len - 1) i cb v.pos
              v.fits v.below begin-place some (omega (arith, room, inside, first, before_end))
              (omega (arith, room, inside)) (omega (arith, some)) (omega (arith, room, before_end))
              (omega arith) in
          subst
            (λ (x : CircularBuffer A).
              Expanded cb i len (sub (add cb.begin i) len) (record x { begin = sub cb.begin len }))
            (sym (ap (λ (x : CircularBuffer A). record x { b = left.b }) frame))
            (left-Expanded left.b moved)

      abbrev s : ℕ
      s = add cb.begin i % c

      inner : i < c
      inner = omega (arith, before_end, inside, room)

      abbrev to_right : (ℕ → A) → CircularBuffer A
      to_right b' = record cb { b = b'; end = add cb.end len }

      to_right-IsBuffer : (b' : ℕ → A) → IsBuffer (to_right b')
      to_right-IsBuffer b' = record {
        pos = v.pos;
        fits = v.fits;
        below = v.below;
        begin_in = v.begin_in;
        end_in = omega arith;
        room = omega (arith, v.begin_in, v.end_in, v.below, room);
      }

      right-Expanded :
          (b' : ℕ → A)
          → MovedRight c s len (size cb - i) cb.b b'
          → Expanded cb i len (add cb.begin i) (to_right b')
      right-Expanded b' moved = record {
        valid = to_right-IsBuffer b';
        same = refl;
        at = refl;
        sized = omega (arith, v.begin_in, v.end_in, v.below, room);
        low = λ x l.
            let y = c + x - i in
            let e =
              from_before cb v i (omega (arith, inner)) x y (omega (arith, l, room, inside))
                (omega (arith, l, room, inside)) (omega (arith, room, inside)) l in
            get-place (to_right b') x (to_right-IsBuffer b') (omega (arith, l, room, inside))
            ∙ ap b' e
            ∙ moved.kept_high y (omega (arith, room)) (omega (arith, l, room, inside))
            ∙ ap cb.b (sym e)
            ∙ sym (get-place cb x v (omega (arith, l, room, inside)));
        high = λ x l u.
            get-place (to_right b') (x + len) (to_right-IsBuffer b') (omega (arith, u, room))
            ∙ ap b' (
                from_on cb v i (omega (arith, inner)) (x + len) (len + (x - i))
                  (omega (arith, u, room)) (omega (arith, u, room)) (omega (arith, l)))
            ∙ moved.copied (x - i) (omega (arith, u, l))
            ∙ ap cb.b (
                sym (
                  from_on cb v i (omega (arith, inner)) x (x - i) (omega (arith, u, room))
                    (omega (arith, u, room)) (omega (arith, l))))
            ∙ sym (get-place cb x v (omega (arith, u, room)));
      }

      abbrev right : CircularBuffer A
      right = move_right (add (add cb.begin i) len) (add cb.begin i) (size cb - i) cb

      at_right : Expanded cb i len (add cb.begin i) (record right { end = add cb.end len })
      unfolding move_right
      at_right =
          let count = size cb - i in
          let low : s < c = mod-lt (add cb.begin i) v.pos in
          let to : add (add (add cb.begin i) len) count % c ≡ place c s (len + count) =
            ap (λ p. p % c)
              (let e : add (add (add cb.begin i) len) count ≡ add (add cb.begin i) (len + count) =
                  omega arith in
                e)
            ∙ add-place c v.pos v.fits v.below (add cb.begin i) (len + count)
                (omega (arith, room, inside)) in
          let (moved, frame) =
            right_loop-MovedRight count s (add (add (add cb.begin i) len) count)
              (add (add cb.begin i) count) len count cb v.pos v.fits v.below low to
              (add-place c v.pos v.fits v.below (add cb.begin i) count (omega (arith, room))) some
              (omega (arith, room, inside)) (omega arith) in
          subst
            (λ (x : CircularBuffer A).
              Expanded cb i len (add cb.begin i) (record x { end = add cb.end len }))
            (sym (ap (λ (x : CircularBuffer A). record x { b = right.b }) frame))
            (right-Expanded right.b moved)

      -- What `expand` counts to decide.
      lmoves_eq : sub (wrap cb (sub (add (add cb.begin i) len) cb.begin)) 1 ≡ i + len - 1
      lmoves_eq =
          let far : sub (add (add cb.begin i) len) cb.begin ≡ i + len =
            omega (arith, v.begin_in, v.below, room, inside) in
          ap (λ x. sub (x % c) 1) far
          ∙ ap (λ x. sub x 1) (mod-eq_of_lt (omega (arith, before_end, room)))
          ∙ omega (arith, first, before_end, room, v.below)

      rmoves_eq : wrap cb (sub cb.end (add cb.begin i)) ≡ size cb - i
      rmoves_eq =
          let far : sub cb.end (add cb.begin i) ≡ size cb - i =
            omega (arith, v.begin_in, v.end_in, v.below, room, inside) in
          ap (λ x. x % c) far ∙ mod-eq_of_lt (omega (arith, first, room, inside))

    -- `expand` makes room for `len` items before item `i`, wherever that is.
    pub expand-Expanded :
        Expanded cb i len (expand (add cb.begin i) len cb).0 (expand (add cb.begin i) len cb).1
    unfolding expand
    expand-Expanded = elim (Bool-cases (len == 0)) [
      | inl none_asked ↦ rw none_asked (
          let e : len ≡ 0 = ground (arith, none_asked) in
          record {
            valid = v;
            same = refl;
            at = refl;
            sized = omega (arith, e);
            low = λ x l. refl;
            high = λ x l u. ap (get cb) (omega (arith, e));
          })
      | inr asked ↦ elim (Bool-cases (add cb.begin i == cb.end)) [
        | inl last ↦
            rw (asked, last)
              (at_end (ground (arith, last, v.begin_in, v.end_in, v.below, room, inside)))
        | inr not_last ↦ elim (Bool-cases (add cb.begin i == cb.begin)) [
          | inl start ↦
              rw (asked, not_last, start)
                (at_begin (ground (arith, start, v.begin_in, v.below, room, inside)))
          | inr middle ↦
              let some : 0 < len = ground (arith, asked) in
              let first : 0 < i = ground (arith, middle, v.begin_in) in
              let before_end : i < size cb =
                ground (arith, not_last, v.begin_in, v.end_in, v.below, room, inside) in
              elim (Bool-cases (leb (i + len - 1) (size cb - i))) [
                | inl less ↦
                    rw
                      (
                        asked,
                        not_last,
                        middle,
                        lmoves_eq some first before_end,
                        rmoves_eq some first before_end,
                        less,
                      )
                      (at_left some first before_end)
                | inr more ↦
                    rw
                      (
                        asked,
                        not_last,
                        middle,
                        lmoves_eq some first before_end,
                        rmoves_eq some first before_end,
                        more,
                      )
                      (at_right some first before_end)
              ]
        ]
      ]
    ]
