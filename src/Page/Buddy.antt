-- ===== src/Page/Buddy.antt =====
-- The buddy allocator without its lists and its bitmap: which blocks are free, and one bit for each
-- pair of buddies. Block `b` of order `o` is half of block `b / 2` of order `suc o`.
pub mod Cover
pub mod Alloc
pub mod Apart
pub mod Release
use apex.Base.{ℕ, zero, suc, ◌+◌, ◌*◌, ◌/◌, Bool, true, false, not, ◌&&◌, ◌||◌, ◌==◌, if◌then◌else◌}

pub record Buddy : Type 0 where
  pub free : ℕ → ℕ → Bool
  pub bit : ℕ → ℕ → Bool

abbrev pub is_at : ℕ → ℕ → ℕ → ℕ → Bool
is_at i c o b = (o == i) && (b == c)

abbrev pub put : ℕ → ℕ → (ℕ → ℕ → Bool) → ℕ → ℕ → Bool
put i c free o b = is_at i c o b || free o b

abbrev pub del : ℕ → ℕ → (ℕ → ℕ → Bool) → ℕ → ℕ → Bool
del i c free o b = not (is_at i c o b) && free o b

abbrev pub flip : ℕ → ℕ → (ℕ → ℕ → Bool) → ℕ → ℕ → Bool
flip i c bit o j = if is_at i c o j then not (bit o j) else bit o j

-- One split of the block above, then the half that is wanted is taken.
abbrev pub carve : ℕ → ℕ → Buddy → Buddy
carve o b s = record s { free = del o b (put o (2 * (b / 2) + 1) (put o (2 * (b / 2)) s.free)) }

-- `k` orders lie above `o`.
unfoldable pub alloc : ℕ → ℕ → ℕ → Buddy → Buddy
alloc zero o b s = record s { free = del o b s.free }
alloc (suc k) o b s =
    let s' = record s { bit = flip o (b / 2) s.bit } in
    elim (s'.bit o (b / 2)) [
      | false ↦ record s' { free = del o b s'.free }
      | true ↦ carve o b (alloc k (suc o) (b / 2) s')
    ]

-- Both halves leave their list, and the whole is inserted.
abbrev pub join : ℕ → ℕ → Buddy → Buddy
join o c s = record s { free = put (suc o) c (del o (2 * c + 1) (del o (2 * c) s.free)) }

-- The block is in the list of its order already.
unfoldable pub merge : ℕ → ℕ → ℕ → Buddy → Buddy
merge zero o b s = s
merge (suc k) o b s =
    let s' = record s { bit = flip o (b / 2) s.bit } in
    elim (s'.bit o (b / 2)) [ true ↦ s' | false ↦ merge k (suc o) (b / 2) (join o (b / 2) s') ]

unfoldable pub release : ℕ → ℕ → ℕ → Buddy → Buddy
unfolding merge
release k o b s = merge k o b (record s { free = put o b s.free })
