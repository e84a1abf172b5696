-- ===== src/Signal/Members.antt =====
-- Signal sets as sets: emptiness, the first signal, and adding and taking out one.
use apex.Base.{
  ℕ, zero, suc, ◌+◌, ◌-◌, ◌≤◌, ◌<◌, ◌≡◌, refl, subst, true, false, some, ltb, ◌==◌, arith,
  Bool-cases, inl, inr, ==_iff, update,
}
use apex.Signal.Sets.{
  Sigset, set_bits, ksigaddset, ksigdelset, second_word, nonzero, countr_zero, ksigfirst,
  ksigisemptyset,
}

nonzero-false : (n : ℕ) (w : Sigset) → nonzero n w ≡ false → (i : ℕ) → i < n → w i ≡ false
unfolding nonzero
nonzero-false zero w h i l = absurd (omega (arith, l))
nonzero-false (suc n) w h i l = elim (Bool-cases (nonzero n w)) [
  | inl low ↦ absurd (let h' = rw low at h in cc)
  | inr low ↦ elim (Bool-cases (i == n)) [
    | inl here ↦ rw ((==_iff i n).0 here) (rw low at h)
    | inr below ↦ nonzero-false n w low i (ground (arith, l, below))
  ]
]

nonzero-true : (n : ℕ) (w : Sigset) → nonzero n w ≡ true → (i : ℕ) × (i < n) × (w i ≡ true)
unfolding nonzero
nonzero-true zero w h = absurd (cc)
nonzero-true (suc n) w h = elim (Bool-cases (nonzero n w)) [
  | inl low ↦ let (i, l, set) = nonzero-true n w low in (i, omega (arith, l), set)
  | inr low ↦ (n, omega arith, rw low at h)
]

-- The search from bit `i` stops at the first bit that is set.
countr_zero-First :
    (n i k : ℕ) (w : Sigset)
    → i ≤ k
    → k < i + n
    → w k ≡ true
    → (countr_zero n i w ≤ k)
      × (w (countr_zero n i w) ≡ true)
      × ((j : ℕ) → i ≤ j → j < countr_zero n i w → w j ≡ false)
unfolding countr_zero
countr_zero-First zero i k w from to set = absurd (omega (arith, from, to))
countr_zero-First (suc n) i k w from to set = elim (Bool-cases (w i)) [
  | inl here ↦ rw here (from, here, λ j l u. absurd (omega (arith, l, u)))
  | inr not_here ↦ elim (Bool-cases (k == i)) [
    | inl same ↦ absurd (let e : w i ≡ true = rw ((==_iff k i).0 same) at set in cc)
    | inr other ↦
        let (below, found, least) =
          countr_zero-First n (i + 1) k w (ground (arith, from, other)) (omega (arith, to)) set in
        rw not_here (
          below,
          found,
          λ j l u. elim (Bool-cases (j == i)) [
            | inl same ↦ rw ((==_iff j i).0 same) not_here
            | inr later ↦ least j (ground (arith, l, later)) u
          ],
        )
  ]
]

word-first :
    (m : ℕ) (w : Sigset)
    → nonzero m w ≡ true
    → (c : ℕ) × (countr_zero m 0 w ≡ c) × (c < m) × (w c ≡ true) × ((j : ℕ) → j < c → w j ≡ false)
word-first m w h =
    let (k, l, set) = nonzero-true m w h in
    let (below, found, least) = countr_zero-First m 0 k w (omega arith) (omega (arith, l)) set in
    (countr_zero m 0 w, refl, omega (arith, below, l), found, λ j u. least j (omega arith) u)

-- The bits of the two words.
split_bits :
    (s : Sigset) (k : ℕ)
    → ((n : ℕ) → n < 32 → s n ≡ false)
    → ((n : ℕ) → n < k → second_word s n ≡ false)
    → (n : ℕ) → n < 32 + k
    → s n ≡ false
split_bits s k low high n l = elim (Bool-cases (ltb n 32)) [
  | inl small ↦ low n (ground (arith, small))
  | inr large ↦
      subst (λ j. s j ≡ false) (ground (arith, large)) (high (n - 32) (ground (arith, l, large)))
]

-- The first member of a set that is not empty.
pub record IsFirst (s : Sigset) (n : ℕ) : Type 0 where
  pub inside : n < set_bits
  pub member : s n ≡ true
  pub least : (j : ℕ) → j < n → s j ≡ false

pub ksigisemptyset-true :
    (s : Sigset) → ksigisemptyset s ≡ true → (n : ℕ) → n < set_bits → s n ≡ false
unfolding ksigisemptyset
ksigisemptyset-true s h n l = elim (Bool-cases (nonzero 32 s)) [
  | inl a ↦ absurd (let h' = rw a at h in cc)
  | inr a ↦ elim (Bool-cases (nonzero 32 (second_word s))) [
    | inl b ↦ absurd (let h' = rw (a, b) at h in cc)
    | inr b ↦ split_bits s 32 (nonzero-false 32 s a) (nonzero-false 32 (second_word s) b) n l
  ]
]

pub ksigfirst-IsFirst :
    (s : Sigset) → ksigisemptyset s ≡ false → (n : ℕ) × (ksigfirst s ≡ suc n) × IsFirst s n
unfolding ksigisemptyset ksigfirst
ksigfirst-IsFirst s h = elim (Bool-cases (nonzero 32 s)) [
  | inl a ↦
      let (c, e, l, found, least) = word-first 32 s a in
      (
        c,
        rw a (omega (arith, e)),
        record { inside = omega (arith, l); member = found; least = least },
      )
  | inr a ↦ elim (Bool-cases (nonzero 32 (second_word s))) [
    | inl b ↦
        let (c, e, l, found, least) = word-first 32 (second_word s) b in
        (
          32 + c,
          rw (a, b) (omega (arith, e)),
          record {
            inside = omega (arith, l);
            member = found;
            least = split_bits s c (nonzero-false 32 s a) least;
          },
        )
    | inr b ↦ absurd (let h' = rw (a, b) at h in cc)
  ]
]

pub ksigisemptyset-none :
    (s : Sigset) → ((n : ℕ) → n < set_bits → s n ≡ false) → ksigisemptyset s ≡ true
ksigisemptyset-none s h = elim (Bool-cases (ksigisemptyset s)) [
  | inl e ↦ e
  | inr e ↦
      let (n, first, f) = ksigfirst-IsFirst s e in
      absurd (let no = h n f.inside in let yes = f.member in cc)
]

pub ksigaddset-inside :
    (s : Sigset) (n : ℕ) → n < set_bits → ksigaddset s (suc n) ≡ some (update s n true)
unfolding ksigaddset
ksigaddset-inside s n l = ground (arith, l)

pub ksigdelset-inside :
    (s : Sigset) (n : ℕ) → n < set_bits → ksigdelset s (suc n) ≡ some (update s n false)
unfolding ksigdelset
ksigdelset-inside s n l = ground (arith, l)
