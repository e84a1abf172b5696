-- ===== src/Circular.antt =====
-- The circular buffer of sys/lib/circular_buffer.h, for values that are trivially copyable: they
-- are moved by memmove, and their destructors do nothing. A `size_type` is a `size_t` of 32 bits.
-- The capacity is a power of two, so `i & (capacity_ - 1)` is a remainder. An iterator is its
-- counter.
pub mod Wrap
pub mod Moves
pub mod MovesRight
pub mod Contents
pub mod Expand
pub mod Copies
pub mod Deque
pub mod Pieces
mod Tests
pub mod Editing
pub mod Collapse
use apex.Base.{
  Option, none, some, ℕ, zero, suc, ◌+◌, ◌-◌, ◌%◌, Bool, List, [], ◌∷◌, min, max, ltb, leb, ◌==◌,
  ◌&&◌, if◌then◌else◌, update, length, take, drop,
}

abbrev pub size_mod : ℕ
size_mod = 4_294_967_296

-- `+` and `-` of a `size_type`.
abbrev pub add : ℕ → ℕ → ℕ
add x y = (x + y) % size_mod

abbrev pub sub : ℕ → ℕ → ℕ
sub x y = (x + size_mod - y) % size_mod

-- `x ?: -1`.
abbrev pub or_max : ℕ → ℕ
or_max x = if x == 0 then size_mod - 1 else x

pub record CircularBuffer {ℓ} (A : Type ℓ) : Type ℓ where
  pub capacity : ℕ
  pub b : ℕ → A
  pub begin : ℕ
  pub end : ℕ

module _ {ℓ} {A : Type ℓ} where
  -- `memmove` of `n` items inside an array, and `memcpy` of a list into it.
  abbrev pub memmove : ℕ → ℕ → ℕ → (ℕ → A) → ℕ → A
  memmove dst src n b p = if leb dst p && ltb p (dst + n) then b (src + (p - dst)) else b p

  unfoldable pub memcpy : ℕ → List A → (ℕ → A) → ℕ → A
  memcpy dst [] b = b
  memcpy dst (x ∷ xs) b = memcpy (dst + 1) xs (update b dst x)

  abbrev pub wrap : CircularBuffer A → ℕ → ℕ
  wrap cb i = i % cb.capacity

  abbrev pub offset : CircularBuffer A → ℕ → ℕ
  offset cb i = sub i cb.begin

  abbrev pub ref : CircularBuffer A → ℕ → A
  ref cb i = cb.b (wrap cb i)

  -- A new object at `&ref(i)`.
  abbrev pub set_ref : ℕ → A → CircularBuffer A → CircularBuffer A
  set_ref i v cb = record cb { b = update cb.b (wrap cb i) v }

  abbrev pub size : CircularBuffer A → ℕ
  size cb = sub cb.end cb.begin

  unfoldable pub empty : CircularBuffer A → Bool
  empty cb = cb.end == cb.begin

  unfoldable pub front : CircularBuffer A → A
  front cb = ref cb cb.begin

  unfoldable pub back : CircularBuffer A → A
  back cb = ref cb (sub cb.end 1)

  -- `operator[]`.
  unfoldable pub get : CircularBuffer A → ℕ → A
  get cb i = ref cb (add cb.begin i)

  unfoldable pub push_front : A → CircularBuffer A → CircularBuffer A
  push_front v cb = set_ref (sub cb.begin 1) v (record cb { begin = sub cb.begin 1 })

  unfoldable pub push_back : A → CircularBuffer A → CircularBuffer A
  push_back v cb = set_ref (sub (add cb.end 1) 1) v (record cb { end = add cb.end 1 })

  unfoldable pub pop_front : CircularBuffer A → CircularBuffer A
  pop_front cb = record cb { begin = add cb.begin 1 }

  unfoldable pub pop_back : CircularBuffer A → CircularBuffer A
  pop_back cb = record cb { end = sub cb.end 1 }

  unfoldable pub clear : CircularBuffer A → CircularBuffer A
  clear cb = record cb { begin = 0; end = 0 }

  -- The loop of `move_left`, whose rounds move one item at least.
  unfoldable pub left_loop : ℕ → ℕ → ℕ → ℕ → CircularBuffer A → CircularBuffer A
  left_loop zero dst src count cb = cb
  left_loop (suc fuel) dst src count cb =
      let lin = min (cb.capacity - max (wrap cb dst) (wrap cb src)) count in
      let rest =
        left_loop fuel (add dst lin) (add src lin) (count - lin)
          (record cb { b = memmove (wrap cb dst) (wrap cb src) lin cb.b }) in
      if count == 0 then cb else rest

  unfoldable pub move_left : ℕ → ℕ → ℕ → CircularBuffer A → CircularBuffer A
  unfolding left_loop
  move_left dst src count cb = left_loop count dst src count cb

  -- The loop of `move_right`, from the ends of the two ranges.
  unfoldable pub right_loop : ℕ → ℕ → ℕ → ℕ → CircularBuffer A → CircularBuffer A
  right_loop zero dst src count cb = cb
  right_loop (suc fuel) dst src count cb =
      let lin = min (min (or_max (wrap cb dst)) (or_max (wrap cb src))) count in
      let rest =
        right_loop fuel (sub dst lin) (sub src lin) (count - lin)
          (record cb { b = memmove (wrap cb (sub dst lin)) (wrap cb (sub src lin)) lin cb.b }) in
      if count == 0 then cb else rest

  unfoldable pub move_right : ℕ → ℕ → ℕ → CircularBuffer A → CircularBuffer A
  unfolding right_loop
  move_right dst src count cb = right_loop count (add dst count) (add src count) count cb

  -- The iterator of the room that is made, and the buffer.
  unfoldable pub expand : ℕ → ℕ → CircularBuffer A → ℕ × CircularBuffer A
  unfolding move_left move_right
  expand begin len cb =
      let end = add begin len in
      let lmoves = sub (wrap cb (sub end cb.begin)) 1 in
      let rmoves = wrap cb (sub cb.end begin) in
      if len == 0
      then (begin, cb)
      else if begin == cb.end
      then (begin, record cb { end = end })
      else if begin == cb.begin
      then (sub cb.begin len, record cb { begin = sub cb.begin len })
      else if leb lmoves rmoves
      then (
        sub begin len,
        record (move_left (sub cb.begin len) cb.begin lmoves cb) { begin = sub cb.begin len },
      )
      else (begin, record (move_right end begin rmoves cb) { end = add cb.end len })

  unfoldable pub collapse : ℕ → ℕ → CircularBuffer A → ℕ × CircularBuffer A
  unfolding move_left move_right
  collapse begin len cb =
      let end = add begin len in
      let lmoves = wrap cb (sub cb.end end) in
      let rmoves = wrap cb (sub begin cb.begin) in
      if len == 0
      then (begin, cb)
      else if begin == cb.begin
      then (add cb.begin len, record cb { begin = add cb.begin len })
      else if end == cb.end
      then (sub cb.end len, record cb { end = sub cb.end len })
      else if leb lmoves rmoves
      then (begin, record (move_left begin end lmoves cb) { end = sub cb.end len })
      else (
        add begin len,
        record (move_right (add cb.begin len) cb.begin rmoves cb) { begin = add cb.begin len },
      )

  unfoldable pub insert : ℕ → A → CircularBuffer A → ℕ × CircularBuffer A
  unfolding expand
  insert pos v cb = let (it, cb') = expand pos 1 cb in (it, set_ref it v cb')

  -- The loop of `insert` of a range that is copied by `memcpy`.
  unfoldable pub copy_loop : ℕ → ℕ → List A → CircularBuffer A → CircularBuffer A
  unfolding memcpy
  copy_loop zero p xs cb = cb
  copy_loop (suc fuel) p xs cb =
      let lin = min (cb.capacity - wrap cb p) (length xs) in
      let rest =
        copy_loop fuel (add p lin) (drop lin xs)
          (record cb { b = memcpy (wrap cb p) (take lin xs) cb.b }) in
      if length xs == 0 then cb else rest

  unfoldable pub insert_range : ℕ → List A → CircularBuffer A → ℕ × CircularBuffer A
  unfolding expand copy_loop
  insert_range pos xs cb =
      let (it, cb') = expand pos (length xs) cb in (it, copy_loop (length xs) it xs cb')

  -- The loop of `insert` of `n` equal items, from item `i`.
  unfoldable pub fill_loop : ℕ → ℕ → A → CircularBuffer A → CircularBuffer A
  fill_loop zero p v cb = cb
  fill_loop (suc n) p v cb = fill_loop n (add p 1) v (set_ref p v cb)

  unfoldable pub insert_fill : ℕ → ℕ → A → CircularBuffer A → ℕ × CircularBuffer A
  unfolding expand fill_loop
  insert_fill pos n v cb = let (it, cb') = expand pos n cb in (it, fill_loop n it v cb')

  unfoldable pub erase : ℕ → CircularBuffer A → ℕ × CircularBuffer A
  unfolding collapse
  erase pos cb = collapse pos 1 cb

  unfoldable pub erase_range : ℕ → ℕ → CircularBuffer A → ℕ × CircularBuffer A
  unfolding collapse
  erase_range begin end cb = collapse begin (sub (offset cb end) (offset cb begin)) cb

  unfoldable pub linear : CircularBuffer A → ℕ → ℕ → ℕ
  linear cb pos end = min (sub (offset cb end) (offset cb pos)) (cb.capacity - wrap cb pos)

  -- The loop of `data`: the start and the length of each piece that is in one part of the array.
  -- `none`: the result's array, which has `room` places left, is full.
  unfoldable pub data_loop : ℕ → ℕ → ℕ → CircularBuffer A → Option (List (ℕ × ℕ))
  data_loop zero it end cb = if it == end then some [] else none
  data_loop (suc room) it end cb =
      let lin = linear cb it end in
      let rest = data_loop room (add it lin) end cb in
      if it == end
      then some []
      else (elim rest [ none ↦ none | some ps ↦ some ((wrap cb it, lin) ∷ ps) ])

  unfoldable pub data_of : CircularBuffer A → Option (List (ℕ × ℕ))
  unfolding data_loop
  data_of cb = data_loop 2 cb.begin cb.end cb
