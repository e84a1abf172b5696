-- ===== src/Base/Lists.antt =====
-- Lists of native numbers as the kernel's queues: membership by count, removal, last element.
use Prim.Native.Nat.{zero, min, ◌-◌, ℕ, suc, ◌+◌, ◌<◌, ◌≤◌}
use mathlib.Core.Path.{ap, ◌≡◌, refl}
use mathlib.Core.List.{List, [], ◌∷◌, ◌++◌}
use native.Mathlib.Omega.{arith}
use apex.Base.Tests.{◌==◌, if◌then◌else◌}

abbrev pub length {ℓ} : {A : Type ℓ} → List A → ℕ
length [] = 0
length (x ∷ xs) = suc (length xs)

pub length-append {ℓ} : {A : Type ℓ} (xs ys : List A) → length (xs ++ ys) ≡ length xs + length ys
length-append [] ys = omega arith
length-append (x ∷ xs) ys = omega (arith, length-append xs ys)

-- How often a thread or buffer stands in a queue.
unfoldable pub count : ℕ → List ℕ → ℕ
count a [] = 0
count a (x ∷ xs) = (if x == a then 1 else 0) + count a xs

-- Unlink every occurrence.
unfoldable pub remove : ℕ → List ℕ → List ℕ
remove a [] = []
remove a (x ∷ xs) = let rest = remove a xs in if x == a then rest else x ∷ rest

-- The last element of `x ∷ xs`.
unfoldable pub last : ℕ → List ℕ → ℕ
last x [] = x
last x (y ∷ ys) = last y ys

pub count-append : (a : ℕ) (xs ys : List ℕ) → count a (xs ++ ys) ≡ count a xs + count a ys
unfolding count
count-append a [] ys = omega arith
count-append a (x ∷ xs) ys = omega (arith, count-append a xs ys)

pub count-remove :
    (b a : ℕ) (xs : List ℕ) → count b (remove a xs) ≡ (if b == a then 0 else count b xs)
unfolding count remove
count-remove b a [] = ground arith
count-remove b a (x ∷ xs) = ground (arith, count-remove b a xs)

pub length-remove : (a : ℕ) (xs : List ℕ) → length (remove a xs) + count a xs ≡ length xs
unfolding count remove
length-remove a [] = refl
length-remove a (x ∷ xs) = ground (arith, length-remove a xs)

pub count-last : (x : ℕ) (xs : List ℕ) → 0 < count (last x xs) (x ∷ xs)
unfolding count last
count-last x [] = ground arith
count-last x (y ∷ ys) = ground (arith, count-last y ys)

pub remove_of_not_mem : (a : ℕ) (xs : List ℕ) → count a xs ≡ 0 → remove a xs ≡ xs
unfolding count remove
remove_of_not_mem a [] h = refl
remove_of_not_mem a (x ∷ xs) h = ground (arith, remove_of_not_mem a xs)

-- An element that stands once in a list is taken out by dropping the head that it is.
pub remove_head : (a : ℕ) (xs : List ℕ) → count a (a ∷ xs) ≤ 1 → remove a (a ∷ xs) ≡ xs
unfolding count remove
remove_head a xs h = ground (arith, remove_of_not_mem a xs)

module _ {ℓ} {A : Type ℓ} where
  abbrev pub take : ℕ → List A → List A
  take zero xs = []
  take (suc n) [] = []
  take (suc n) (x ∷ xs) = x ∷ take n xs

  abbrev pub drop : ℕ → List A → List A
  drop zero xs = xs
  drop (suc n) [] = []
  drop (suc n) (x ∷ xs) = drop n xs

  pub length-take : (n : ℕ) (xs : List A) → length (take n xs) ≡ min n (length xs)
  length-take zero xs = omega arith
  length-take (suc n) [] = omega arith
  length-take (suc n) (x ∷ xs) = omega (arith, length-take n xs)

  pub length-drop : (n : ℕ) (xs : List A) → length (drop n xs) ≡ length xs - n
  length-drop zero xs = omega arith
  length-drop (suc n) [] = omega arith
  length-drop (suc n) (x ∷ xs) = omega (arith, length-drop n xs)

  pub take-nil : (n : ℕ) → ◌≡◌ {A = List A} (take n []) []
  take-nil zero = refl
  take-nil (suc n) = refl

  pub drop-nil : (n : ℕ) → ◌≡◌ {A = List A} (drop n []) []
  drop-nil zero = refl
  drop-nil (suc n) = refl

  -- A prefix is taken in two parts.
  pub take-append-take :
      (m n k : ℕ) (xs : List A) → m + n ≡ k → take m xs ++ take n (drop m xs) ≡ take k xs
  take-append-take zero n k xs h = ap (λ j. take j xs) (omega arith)
  take-append-take (suc m) n zero xs h = absurd (omega arith)
  take-append-take (suc m) n (suc k) [] h = take-nil n
  take-append-take (suc m) n (suc k) (x ∷ xs) h =
      ap (◌∷◌ x) (take-append-take m n k xs (omega arith))

  pub drop-drop : (m n k : ℕ) (xs : List A) → m + n ≡ k → drop n (drop m xs) ≡ drop k xs
  drop-drop zero n k xs h = ap (λ j. drop j xs) (omega arith)
  drop-drop (suc m) n zero xs h = absurd (omega arith)
  drop-drop (suc m) n (suc k) [] h = drop-nil n
  drop-drop (suc m) n (suc k) (x ∷ xs) h = drop-drop m n k xs (omega arith)
