-- ===== src/Circular/Copies.antt =====
-- Copying a list into a circular buffer.
use apex.Base.{
  ℕ, zero, suc, ◌+◌, ◌-◌, ◌%◌, ◌≤◌, ◌<◌, ◌≡◌, refl, sym, ap, subst, ◌∙◌, List, [], ◌∷◌, min, ltb,
  ◌==◌, arith, Bool-cases, inl, inr, length, take, drop, length-take, length-drop, update,
}
use native.Mathlib.Nat.{mod-lt}
use apex.Circular.{CircularBuffer, size_mod, add, memcpy, set_ref, copy_loop, fill_loop}
use apex.Circular.Wrap.{place, place_shift, place_before, add-place}
use apex.Circular.Contents.{items}

module _ {ℓ} {A : Type ℓ} where
  -- Element `i` of a list, or `d` behind its end.
  abbrev pub nth_or : List A → ℕ → A → A
  nth_or [] i d = d
  nth_or (x ∷ xs) zero d = x
  nth_or (x ∷ xs) (suc i) d = nth_or xs i d

  pub nth_or-beyond : (xs : List A) (i : ℕ) (d : A) → length xs ≤ i → nth_or xs i d ≡ d
  nth_or-beyond [] i d l = refl
  nth_or-beyond (x ∷ xs) zero d l = absurd (omega (arith, l))
  nth_or-beyond (x ∷ xs) (suc i) d l = nth_or-beyond xs i d (omega (arith, l))

  nth_or-take : (xs : List A) (n i : ℕ) (d : A) → i < n → nth_or (take n xs) i d ≡ nth_or xs i d
  nth_or-take xs zero i d l = absurd (omega (arith, l))
  nth_or-take [] (suc n) i d l = refl
  nth_or-take (x ∷ xs) (suc n) zero d l = refl
  nth_or-take (x ∷ xs) (suc n) (suc i) d l = nth_or-take xs n i d (omega (arith, l))

  nth_or-drop :
      (xs : List A) (n i k : ℕ) (d : A) → n + i ≡ k → nth_or (drop n xs) i d ≡ nth_or xs k d
  nth_or-drop xs zero i k d e = ap (λ j. nth_or xs j d) (omega (arith, e))
  nth_or-drop [] (suc n) i k d e = refl
  nth_or-drop (x ∷ xs) (suc n) i zero d e = absurd (omega (arith, e))
  nth_or-drop (x ∷ xs) (suc n) i (suc k) d e = nth_or-drop xs n i k d (omega (arith, e))

  pub items_nth : (xs : List A) (g : ℕ → A) → items (λ i. nth_or xs i (g i)) (length xs) ≡ xs
  items_nth [] g = refl
  items_nth (x ∷ xs) g = ap (◌∷◌ x) (items_nth xs (λ i. g (suc i)))

  memcpy-below : (dst : ℕ) (xs : List A) (b : ℕ → A) (p : ℕ) → p < dst → memcpy dst xs b p ≡ b p
  unfolding memcpy
  memcpy-below dst [] b p l = refl
  memcpy-below dst (x ∷ xs) b p l =
      memcpy-below (dst + 1) xs (update b dst x) p (omega (arith, l)) ∙ ground (arith, l)

  memcpy-at :
      (dst : ℕ) (xs : List A) (b : ℕ → A) (x p : ℕ)
      → dst + x ≡ p
      → memcpy dst xs b p ≡ nth_or xs x (b p)
  unfolding memcpy
  memcpy-at dst [] b x p e = refl
  memcpy-at dst (y ∷ xs) b zero p e =
      memcpy-below (dst + 1) xs (update b dst y) p (omega (arith, e)) ∙ ground (arith, e)
  memcpy-at dst (y ∷ xs) b (suc x) p e =
      memcpy-at (dst + 1) xs (update b dst y) x p (omega (arith, e))
      ∙ ap (nth_or xs x) (let c : update b dst y p ≡ b p = ground (arith, e) in c)

  -- The places from `d` on hold the list.
  pub record Copied (c d : ℕ) (xs : List A) (b b' : ℕ → A) : Type ℓ where
    pub at : (x : ℕ) → x < c → b' (place c d x) ≡ nth_or xs x (b (place c d x))

  -- A piece that does not reach over the end of the array, and the rest.
  chunk-Copied :
      (c d lin : ℕ) (xs : List A) (b b' : ℕ → A)
      → d < c
      → 0 < lin
      → lin ≤ length xs
      → length xs ≤ c
      → d + lin ≤ c
      → Copied c (place c d lin) (drop lin xs) (memcpy d (take lin xs) b) b'
      → Copied c d xs b b'
  chunk-Copied c d lin xs b b' p some l all fits rest =
      let b1 = memcpy d (take lin xs) b in
      let d' = place c d lin in
      record {
        at = λ x u. elim (Bool-cases (ltb x lin)) [
          | inl now ↦
              let back : place c d' (x + c - lin) ≡ place c d x =
                place_before c d lin (x + c - lin) x p (omega (arith, l, all)) (ground (arith, now))
                  (ground (arith, now, l, all)) in
              let here : d + x ≡ place c d x = ground (arith, now, fits) in
              ap b' (sym back)
              ∙ rest.at (x + c - lin) (ground (arith, now, u))
              ∙ nth_or-beyond (drop lin xs) (x + c - lin) (b1 (place c d' (x + c - lin)))
                  (omega (arith, length-drop lin xs, all, l))
              ∙ ap b1 back
              ∙ memcpy-at d (take lin xs) b x (place c d x) here
              ∙ nth_or-take xs lin x (b (place c d x)) (ground (arith, now))
          | inr later ↦
              let forth : place c d' (x - lin) ≡ place c d x =
                place_shift c d lin (x - lin) x p (ground (arith, later, u)) (omega (arith, u)) u
                  (ground (arith, later)) in
              let outside : b1 (place c d x) ≡ b (place c d x) = elim (Bool-cases (ltb (d + x) c)) [
                | inl low ↦
                    memcpy-at d (take lin xs) b x (place c d x) (ground (arith, low))
                    ∙ nth_or-beyond (take lin xs) x (b (place c d x))
                        (ground (arith, later, length-take lin xs))
                | inr high ↦
                    memcpy-below d (take lin xs) b (place c d x) (ground (arith, high, u, p))
              ] in
              ap b' (sym forth)
              ∙ rest.at (x - lin) (omega (arith, u))
              ∙ nth_or-drop xs lin (x - lin) x (b1 (place c d' (x - lin))) (ground (arith, later))
              ∙ ap (nth_or xs x) (ap b1 forth ∙ outside)
        ];
      }

  nothing-Copied : (c d : ℕ) (b : ℕ → A) → Copied c d [] b b
  nothing-Copied c d b = record { at = λ x u. refl }

  length-zero : (xs : List A) → length xs ≡ 0 → xs ≡ []
  length-zero [] e = refl
  length-zero (x ∷ xs) e = absurd (omega (arith, e))

  -- The loop of insert ends and copies the whole list, with fuel for every item.
  pub copy_loop-Copied :
      (fuel p : ℕ) (xs : List A) (cb : CircularBuffer A)
      → 0 < cb.capacity
      → size_mod % cb.capacity ≡ 0
      → cb.capacity < size_mod
      → length xs ≤ cb.capacity
      → length xs ≤ fuel
      → let cb' = copy_loop fuel p xs cb in
        Copied cb.capacity (p % cb.capacity) xs cb.b cb'.b × (record cb' { b = cb.b } ≡ cb)
  unfolding copy_loop
  copy_loop-Copied zero p xs cb pos fits below all enough =
      rw (length-zero xs (omega (arith, enough)))
        (nothing-Copied cb.capacity (p % cb.capacity) cb.b, refl)
  copy_loop-Copied (suc fuel) p xs cb pos fits below all enough =
      let c = cb.capacity in
      let d = p % c in
      let low : d < c = mod-lt p pos in
      let lin = min (c - d) (length xs) in
      elim (Bool-cases (length xs == 0)) [
        | inl none_left ↦
            rw none_left
              (rw (length-zero xs (ground (arith, none_left))) (nothing-Copied c d cb.b), refl)
        | inr more ↦
            let some : 0 < lin = ground (arith, more, low) in
            let b1 = memcpy d (take lin xs) cb.b in
            let (rest, frame) =
              copy_loop-Copied fuel (add p lin) (drop lin xs) (record cb { b = b1 }) pos fits below
                (omega (arith, length-drop lin xs, all))
                (omega (arith, length-drop lin xs, some, enough)) in
            let b' = (copy_loop fuel (add p lin) (drop lin xs) (record cb { b = b1 })).b in
            rw more (
              chunk-Copied c d lin xs cb.b b' low some (omega arith) all (omega (arith, low)) (
                  subst (λ e. Copied c e (drop lin xs) b1 b')
                    (add-place c pos fits below p lin (omega arith)) rest),
              ap (λ (x : CircularBuffer A). record x { b = cb.b }) frame,
            )
      ]

  abbrev pub replicate : ℕ → A → List A
  replicate zero v = []
  replicate (suc n) v = v ∷ replicate n v

  pub length-replicate : (n : ℕ) (v : A) → length (replicate n v) ≡ n
  length-replicate zero v = refl
  length-replicate (suc n) v = ap suc (length-replicate n v)

  -- The loop that fills copies as many equal items.
  pub fill_loop-Copied :
      (n p : ℕ) (v : A) (cb : CircularBuffer A)
      → 0 < cb.capacity
      → size_mod % cb.capacity ≡ 0
      → cb.capacity < size_mod
      → n ≤ cb.capacity
      → let cb' = fill_loop n p v cb in
        Copied cb.capacity (p % cb.capacity) (replicate n v) cb.b cb'.b
        × (record cb' { b = cb.b } ≡ cb)
  unfolding fill_loop memcpy
  fill_loop-Copied zero p v cb pos fits below all =
      (nothing-Copied cb.capacity (p % cb.capacity) cb.b, refl)
  fill_loop-Copied (suc n) p v cb pos fits below all =
      let c = cb.capacity in
      let cb1 = set_ref p v cb in
      let (rest, frame) = fill_loop-Copied n (add p 1) v cb1 pos fits below (omega (arith, all)) in
      let b' = (fill_loop n (add p 1) v cb1).b in
      (
        chunk-Copied c (p % c) 1 (v ∷ replicate n v) cb.b b' (mod-lt p pos) (omega arith)
            (omega arith) (omega (arith, length-replicate n v, all)) (omega (arith, mod-lt p pos))
            (subst (λ e. Copied c e (replicate n v) cb1.b b')
              (add-place c pos fits below p 1 (omega (arith, all))) rest),
        ap (λ (x : CircularBuffer A). record x { b = cb.b }) frame,
      )
