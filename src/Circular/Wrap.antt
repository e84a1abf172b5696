-- ===== src/Circular/Wrap.antt =====
-- The counters of a circular buffer, taken round the capacity.
use apex.Base.{
  ℕ, ◌+◌, ◌-◌, ◌%◌, ◌≤◌, ◌<◌, ◌≡◌, sym, ap, ◌∙◌, ltb, if◌then◌else◌, arith, Bool-cases, inl, inr,
}
use native.Mathlib.Nat.{
  mod-lt, mod-eq_of_lt, mod-add-mod, add-mod_right, mod-mod_of_dvd, add-mod-mod,
  dvd_iff_mod-eq-zero,
}
use apex.Circular.{size_mod, add, sub}

-- Place `i` of an array of `c` places, counted from place `p` and round the end.
abbrev pub place : ℕ → ℕ → ℕ → ℕ
place c p i = if ltb (p + i) c then p + i else p + i - c

-- Places that are counted from a later one.
pub place_shift :
    (c d a x y : ℕ)
    → d < c
    → a < c
    → x < c
    → y < c
    → a + x ≡ y
    → place c (place c d a) x ≡ place c d y
place_shift c d a x y p q r s e = ground arith

pub place_before :
    (c d a x y : ℕ) → d < c → a ≤ c → y < a → y + c ≡ a + x → place c (place c d a) x ≡ place c d y
place_before c d a x y p q r e = ground arith

module _ (c : ℕ) (pos : 0 < c) where
  pub place-lt : (p i : ℕ) → p < c → i ≤ c → place c p i < c
  place-lt p i h l = ground arith

  -- The place of a sum.
  pub mod-place : (p i : ℕ) → i ≤ c → (p + i) % c ≡ place c (p % c) i
  mod-place p i l = elim (Bool-cases (ltb (p % c + i) c)) [
    | inl low ↦ rw low (sym (mod-add-mod p c i) ∙ mod-eq_of_lt (ground arith))
    | inr high ↦ rw high (
        sym (mod-add-mod p c i)
        ∙ ap (λ x. x % c) (let e : p % c + i ≡ (p % c + i - c) + c = ground arith in e)
        ∙ add-mod_right (p % c + i - c) c
        ∙ mod-eq_of_lt (omega (arith, mod-lt p pos, l)))
  ]

  module _ (fits : size_mod % c ≡ 0) (below : c < size_mod) where
    -- The counters wrap at a multiple of the capacity.
    pub mod_size_mod : (a : ℕ) → a % size_mod % c ≡ a % c
    mod_size_mod a = mod-mod_of_dvd c a ((dvd_iff_mod-eq-zero c).1 fits)

    add_size_mod : (a : ℕ) → (a + size_mod) % c ≡ a % c
    add_size_mod a =
        sym (add-mod-mod a size_mod c)
        ∙ rw fits (ap (λ x. x % c) (let e : a + 0 ≡ a = omega arith in e))

    pub add-place : (p i : ℕ) → i ≤ c → add p i % c ≡ place c (p % c) i
    add-place p i l = mod_size_mod (p + i) ∙ mod-place p i l

    pub sub-place : (p i : ℕ) → i ≤ c → sub p i % c ≡ place c (p % c) (c - i)
    sub-place p i l =
        mod_size_mod (p + size_mod - i)
        ∙ sym (add-mod_right (p + size_mod - i) c)
        ∙ ap (λ x. x % c)
            (let e : p + size_mod - i + c ≡ p + (c - i) + size_mod = omega (arith, l, below) in e)
        ∙ add_size_mod (p + (c - i))
        ∙ mod-place p (c - i) (omega arith)
