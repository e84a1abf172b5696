-- ===== src/Page/Buddy/Cover.antt =====
-- Which blocks lie in a free block.
use apex.Base.{ℕ, zero, suc, ◌+◌, ◌/◌, ◌≤◌, ◌<◌, ◌≡◌, refl, Bool, true, false, ◌||◌, ◌==◌, arith}
use apex.Page.Buddy.{put, del}

-- The block that holds `b`, `d` orders above.
unfoldable pub above : ℕ → ℕ → ℕ
above zero b = b
above (suc d) b = above d (b / 2)

pub above-half : (d b : ℕ) → above (suc d) b ≡ above d b / 2
unfolding above
above-half zero b = refl
above-half (suc d) b = above-half d (b / 2)

-- Is the block, or one of the `k` orders above that holds it, free?
unfoldable pub covered : (ℕ → ℕ → Bool) → ℕ → ℕ → ℕ → Bool
covered free zero o b = free o b
covered free (suc k) o b = free o b || covered free k (suc o) (b / 2)

-- Only the orders from the block's own on matter.
pub covered-congr :
    (free free' : ℕ → ℕ → Bool) (k o b : ℕ)
    → ((o' b' : ℕ) → o ≤ o' → free o' b' ≡ free' o' b')
    → covered free k o b ≡ covered free' k o b
unfolding covered
covered-congr free free' zero o b h = h o b (omega arith)
covered-congr free free' (suc k) o b h = ground (
  arith,
  h o b (omega arith),
  covered-congr free free' k (suc o) (b / 2) (λ o' b' l. h o' b' (omega arith)),
)

module _ (free : ℕ → ℕ → Bool) (i c : ℕ) where
  pub covered-put_above : (k o b : ℕ) → i < o → covered (put i c free) k o b ≡ covered free k o b
  covered-put_above k o b l = covered-congr (put i c free) free k o b (λ o' b' m. ground arith)

  pub covered-del_above : (k o b : ℕ) → i < o → covered (del i c free) k o b ≡ covered free k o b
  covered-del_above k o b l = covered-congr (del i c free) free k o b (λ o' b' m. ground arith)

-- A block `d` orders below a block that is made free.
pub covered-put :
    (free : ℕ → ℕ → Bool) (i c d k o b : ℕ)
    → o + d ≡ i
    → d ≤ k
    → covered (put i c free) k o b ≡ (covered free k o b || (above d b == c))
unfolding covered above
covered-put free i c zero zero o b e l = ground arith
covered-put free i c zero (suc k) o b e l =
    ground (arith, covered-put_above free i c k (suc o) (b / 2) (omega arith))
covered-put free i c (suc d) zero o b e l = absurd (omega arith)
covered-put free i c (suc d) (suc k) o b e l =
    ground (arith, covered-put free i c d k (suc o) (b / 2) (omega arith) (omega arith))

-- A block that does not lie in the one that is taken.
pub covered-del :
    (free : ℕ → ℕ → Bool) (i c d k o b : ℕ)
    → o + d ≡ i
    → d ≤ k
    → (above d b == c) ≡ false
    → covered (del i c free) k o b ≡ covered free k o b
unfolding covered above
covered-del free i c zero zero o b e l ne = ground arith
covered-del free i c zero (suc k) o b e l ne =
    ground (arith, covered-del_above free i c k (suc o) (b / 2) (omega arith))
covered-del free i c (suc d) zero o b e l ne = absurd (omega arith)
covered-del free i c (suc d) (suc k) o b e l ne =
    ground (arith, covered-del free i c d k (suc o) (b / 2) (omega arith) (omega arith) ne)

pub covered-del_mono :
    (free : ℕ → ℕ → Bool) (i c k o b : ℕ)
    → covered free k o b ≡ false
    → covered (del i c free) k o b ≡ false
unfolding covered
covered-del_mono free i c zero o b h = ground arith
covered-del_mono free i c (suc k) o b h =
    ground (arith, covered-del_mono free i c k (suc o) (b / 2))

-- What holds a block covers it.
pub covered-above :
    (free : ℕ → ℕ → Bool) (i d k f o b : ℕ)
    → o + d ≡ i
    → f ≡ d + k
    → covered free k i (above d b) ≡ true
    → covered free f o b ≡ true
unfolding covered above
covered-above free i zero k f o b p e h = rw (same_order, same_fuel) h
  where
    same_order : o ≡ i
    same_order = omega (arith, p)

    same_fuel : f ≡ k
    same_fuel = omega (arith, e)
covered-above free i (suc d) k zero o b p e h = absurd (omega arith)
covered-above free i (suc d) k (suc f) o b p e h =
    ground (arith, covered-above free i d k f (suc o) (b / 2) (omega arith) (omega arith) h)

pub free-covered : (free : ℕ → ℕ → Bool) (k o b : ℕ) → free o b ≡ true → covered free k o b ≡ true
unfolding covered
free-covered free zero o b h = h
free-covered free (suc k) o b h = ground arith

pub uncovered-half :
    (free : ℕ → ℕ → Bool) (k o b : ℕ)
    → covered free (suc k) o b ≡ false
    → covered free k (suc o) (b / 2) ≡ false
unfolding covered
uncovered-half free k o b h = ground arith
