-- ===== src/Circular/Collapse.antt =====
-- collapse: items are taken out, and the others stay, in order.
use apex.Base.{
  ℕ, ◌+◌, ◌-◌, ◌%◌, ◌≤◌, ◌<◌, ◌≡◌, refl, sym, ap, subst, ◌∙◌, leb, ◌==◌, arith, Bool-cases, inl,
  inr,
}
use native.Mathlib.Nat.{mod-lt, mod-eq_of_lt}
use apex.Circular.{CircularBuffer, add, sub, size, get, wrap, move_left, move_right, collapse}
use apex.Circular.Wrap.{place, place_shift, add-place}
use apex.Circular.Moves.{Moved, left_loop-Moved}
use apex.Circular.MovesRight.{MovedRight, right_loop-MovedRight}
use apex.Circular.Contents.{IsBuffer, get-place, from_before, from_on}

module _ {ℓ} {A : Type ℓ} where
  -- `len` items from item `i` on are gone.
  pub record Collapsed (cb : CircularBuffer A) (i len : ℕ) (it : ℕ) (cb' : CircularBuffer A)
      : Type ℓ where
    pub valid : IsBuffer cb'
    pub same : cb'.capacity ≡ cb.capacity
    pub at : it ≡ add cb'.begin i
    pub sized : size cb' + len ≡ size cb
    pub low : (x : ℕ) → x < i → get cb' x ≡ get cb x
    pub high : (x : ℕ) → i ≤ x → x + len < size cb → get cb' x ≡ get cb (x + len)

  module _ (cb : CircularBuffer A) (v : IsBuffer cb) (i len : ℕ) (inside : i + len ≤ size cb) where
    pub at_begin :
        i ≡ 0 → Collapsed cb i len (add cb.begin len) (record cb { begin = add cb.begin len })
    unfolding get
    at_begin e = record {
      valid = record {
        pos = v.pos;
        fits = v.fits;
        below = v.below;
        begin_in = omega arith;
        end_in = v.end_in;
        room = omega (arith, v.begin_in, v.end_in, v.below, v.room, inside);
      };
      same = refl;
      at = omega (arith, e);
      sized = omega (arith, v.begin_in, v.end_in, v.below, v.room, inside);
      low = λ x l. absurd (omega (arith, e, l));
      high = λ x l u. ap (λ j. cb.b (j % cb.capacity)) (omega arith);
    }

    pub at_end :
        i + len ≡ size cb → Collapsed cb i len (sub cb.end len) (record cb { end = sub cb.end len })
    unfolding get
    at_end e = record {
      valid = record {
        pos = v.pos;
        fits = v.fits;
        below = v.below;
        begin_in = v.begin_in;
        end_in = omega arith;
        room = omega (arith, v.begin_in, v.end_in, v.below, v.room, inside);
      };
      same = refl;
      at = omega (arith, v.begin_in, v.end_in, v.below, v.room, e);
      sized = omega (arith, v.begin_in, v.end_in, v.below, v.room, inside);
      low = λ x l. refl;
      high = λ x l u. absurd (omega (arith, e, l, u));
    }

    -- The items behind the gap move to the left, or those before it to the right.
    module _ (some : 0 < len) (first : 0 < i) (before_end : i + len < size cb) where
      abbrev c : ℕ
      c = cb.capacity

      inner : i < c
      inner = omega (arith, before_end, v.room)

      abbrev s : ℕ
      s = add cb.begin i % c

      abbrev to_left : (ℕ → A) → CircularBuffer A
      to_left b' = record cb { b = b'; end = sub cb.end len }

      to_left-IsBuffer : (b' : ℕ → A) → IsBuffer (to_left b')
      to_left-IsBuffer b' = record {
        pos = v.pos;
        fits = v.fits;
        below = v.below;
        begin_in = v.begin_in;
        end_in = omega arith;
        room = omega (arith, v.begin_in, v.end_in, v.below, v.room, inside);
      }

      left-Collapsed :
          (b' : ℕ → A)
          → Moved c s len (size cb - i - len) (size cb - i - len) cb.b b'
          → Collapsed cb i len (add cb.begin i) (to_left b')
      left-Collapsed b' moved = record {
        valid = to_left-IsBuffer b';
        same = refl;
        at = refl;
        sized = omega (arith, v.begin_in, v.end_in, v.below, v.room, inside);
        low = λ x l.
            let y = c + x - i in
            let e =
              from_before cb v i (omega (arith, inner)) x y (omega (arith, l, inner))
                (omega (arith, l, inner)) (omega (arith, inner)) l in
            get-place (to_left b') x (to_left-IsBuffer b') (omega (arith, l, inner))
            ∙ ap b' e
            ∙ moved.kept y (omega (arith, v.room, some, inner)) (omega (arith, l, inner))
            ∙ ap cb.b (sym e)
            ∙ sym (get-place cb x v (omega (arith, l, inner)));
        high = λ x l u.
            get-place (to_left b') x (to_left-IsBuffer b') (omega (arith, u, v.room))
            ∙ ap b' (
                from_on cb v i (omega (arith, inner)) x (x - i) (omega (arith, u, v.room))
                  (omega (arith, u, v.room)) (omega (arith, l)))
            ∙ moved.copied (x - i) (omega (arith, u, l))
            ∙ ap cb.b (
                sym (
                  from_on cb v i (omega (arith, inner)) (x + len) (len + (x - i))
                    (omega (arith, u, v.room)) (omega (arith, u, v.room)) (omega (arith, l))))
            ∙ sym (get-place cb (x + len) v (omega (arith, u, v.room)));
      }

      abbrev left : CircularBuffer A
      left = move_left (add cb.begin i) (add (add cb.begin i) len) (size cb - i - len) cb

      at_left : Collapsed cb i len (add cb.begin i) (record left { end = sub cb.end len })
      unfolding move_left
      at_left =
          let count = size cb - i - len in
          let (moved, frame) =
            left_loop-Moved count (add cb.begin i) (add (add cb.begin i) len) len count count cb
              v.pos v.fits v.below
              (add-place c v.pos v.fits v.below (add cb.begin i) len
                (omega (arith, inside, v.room)))
              some (omega (arith, first, inside, v.room)) (omega (arith, inside, v.room))
              (omega arith) (omega (arith, v.room)) (omega arith) in
          subst
            (λ (x : CircularBuffer A).
              Collapsed cb i len (add cb.begin i) (record x { end = sub cb.end len }))
            (sym (ap (λ (x : CircularBuffer A). record x { b = left.b }) frame))
            (left-Collapsed left.b moved)

      abbrev to_right : (ℕ → A) → CircularBuffer A
      to_right b' = record cb { b = b'; begin = add cb.begin len }

      to_right-IsBuffer : (b' : ℕ → A) → IsBuffer (to_right b')
      to_right-IsBuffer b' = record {
        pos = v.pos;
        fits = v.fits;
        below = v.below;
        begin_in = omega arith;
        end_in = v.end_in;
        room = omega (arith, v.begin_in, v.end_in, v.below, v.room, inside);
      }

      -- An item of the new buffer, by the old start.
      get-right :
          (b' : ℕ → A) (x : ℕ)
          → len + x < c
          → get (to_right b') x ≡ b' (place c (cb.begin % c) (len + x))
      get-right b' x l =
          get-place (to_right b') x (to_right-IsBuffer b') (omega (arith, l))
          ∙ ap (λ e. b' (place c e x))
              (add-place c v.pos v.fits v.below cb.begin len (omega (arith, l)))
          ∙ ap b' (
              place_shift c (cb.begin % c) len x (len + x) (mod-lt cb.begin v.pos)
                (omega (arith, l)) (omega (arith, l)) l (omega arith))

      right-Collapsed :
          (b' : ℕ → A)
          → MovedRight c (cb.begin % c) len i cb.b b'
          → Collapsed cb i len (add (add cb.begin i) len) (to_right b')
      right-Collapsed b' moved = record {
        valid = to_right-IsBuffer b';
        same = refl;
        at = omega arith;
        sized = omega (arith, v.begin_in, v.end_in, v.below, v.room, inside);
        low = λ x l.
            get-right b' x (omega (arith, l, inside, v.room, before_end))
            ∙ moved.copied x l
            ∙ sym (get-place cb x v (omega (arith, l, inner)));
        high = λ x l u.
            get-right b' x (omega (arith, u, v.room))
            ∙ moved.kept_high (len + x) (omega (arith, l)) (omega (arith, u, v.room))
            ∙ ap cb.b (
                let e : place c (cb.begin % c) (len + x) ≡ place c (cb.begin % c) (x + len) =
                  ground arith in
                e)
            ∙ sym (get-place cb (x + len) v (omega (arith, u, v.room)));
      }

      abbrev right : CircularBuffer A
      right = move_right (add cb.begin len) cb.begin i cb

      at_right :
          Collapsed cb i len (add (add cb.begin i) len) (record right { begin = add cb.begin len })
      unfolding move_right
      at_right =
          let low : cb.begin % c < c = mod-lt cb.begin v.pos in
          let to : add (add cb.begin len) i % c ≡ place c (cb.begin % c) (len + i) =
            ap (λ p. p % c)
              (let e : add (add cb.begin len) i ≡ add cb.begin (len + i) = omega arith in e)
            ∙ add-place c v.pos v.fits v.below cb.begin (len + i) (omega (arith, inside, v.room)) in
          let (moved, frame) =
            right_loop-MovedRight i (cb.begin % c) (add (add cb.begin len) i) (add cb.begin i) len i
              cb v.pos v.fits v.below low to
              (add-place c v.pos v.fits v.below cb.begin i (omega (arith, inner))) some
              (omega (arith, inside, v.room)) (omega arith) in
          subst
            (λ (x : CircularBuffer A).
              Collapsed cb i len (add (add cb.begin i) len) (record x { begin = add cb.begin len }))
            (sym (ap (λ (x : CircularBuffer A). record x { b = right.b }) frame))
            (right-Collapsed right.b moved)

      lmoves_eq : wrap cb (sub cb.end (add (add cb.begin i) len)) ≡ size cb - i - len
      lmoves_eq =
          let far : sub cb.end (add (add cb.begin i) len) ≡ size cb - i - len =
            omega (arith, v.begin_in, v.end_in, v.below, v.room, inside) in
          ap (λ x. x % c) far ∙ mod-eq_of_lt (omega (arith, first, v.room))

      rmoves_eq : wrap cb (sub (add cb.begin i) cb.begin) ≡ i
      rmoves_eq =
          let far : sub (add cb.begin i) cb.begin ≡ i = omega (arith, v.begin_in, v.below, inner) in
          ap (λ x. x % c) far ∙ mod-eq_of_lt inner

    -- `collapse` takes out `len` items from item `i` on, wherever that is.
    pub collapse-Collapsed :
        Collapsed cb i len (collapse (add cb.begin i) len cb).0 (collapse (add cb.begin i) len cb).1
    unfolding collapse
    collapse-Collapsed = elim (Bool-cases (len == 0)) [
      | inl none_asked ↦ rw none_asked (
          let e : len ≡ 0 = ground (arith, none_asked) in
          record {
            valid = v;
            same = refl;
            at = refl;
            sized = omega (arith, e);
            low = λ x l. refl;
            high = λ x l u. ap (get cb) (omega (arith, e));
          })
      | inr asked ↦ elim (Bool-cases (add cb.begin i == cb.begin)) [
        | inl start ↦
            rw (asked, start)
              (at_begin (ground (arith, start, v.begin_in, v.below, v.room, inside)))
        | inr middle ↦ elim (Bool-cases (add (add cb.begin i) len == cb.end)) [
          | inl last ↦
              rw (asked, middle, last)
                (at_end (ground (arith, last, v.begin_in, v.end_in, v.below, v.room, inside)))
          | inr not_last ↦
              let some : 0 < len = ground (arith, asked) in
              let first : 0 < i = ground (arith, middle, v.begin_in) in
              let before_end : i + len < size cb =
                ground (arith, not_last, v.begin_in, v.end_in, v.below, v.room, inside) in
              elim (Bool-cases (leb (size cb - i - len) i)) [
                | inl less ↦
                    rw
                      (
                        asked,
                        middle,
                        not_last,
                        lmoves_eq some first before_end,
                        rmoves_eq some first before_end,
                        less,
                      )
                      (at_left some first before_end)
                | inr more ↦
                    rw
                      (
                        asked,
                        middle,
                        not_last,
                        lmoves_eq some first before_end,
                        rmoves_eq some first before_end,
                        more,
                      )
                      (at_right some first before_end)
              ]
        ]
      ]
    ]
