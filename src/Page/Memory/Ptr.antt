-- ===== src/Page/Memory/Ptr.antt =====
-- page_alloc, and page_ptr: pages that are freed with their pointer.
use apex.Base.{ℕ, ◌+◌, ◌-◌, ◌*◌, ◌%◌, ◌^◌, Bool, not, Option, none, some, ◌==◌, if◌then◌else◌}
use apex.Page.Regions.{PagePtr, floor_log2}
use apex.Page.Memory.{Memory, page_free}
use apex.Page.Memory.Alloc.{page_alloc_order}

-- `page_ptr{}`, whose address is not initialised.
abbrev pub empty : PagePtr
empty = record { phys = 0; length = 0; owner = none }

-- `operator bool`.
abbrev pub is_held : PagePtr → Bool
is_held p = not (p.length == 0)

-- The pages, and what is left of the pointer. The result is `none` where the assertion fails.
unfoldable pub release : PagePtr → Option (ℕ × PagePtr)
release p = if is_held p then some (p.phys, record p { length = 0 }) else none

unfoldable pub get : PagePtr → Option ℕ
get p = if is_held p then some p.phys else none

-- The new pointer, and the one it is made from.
unfoldable pub move_from : PagePtr → PagePtr × PagePtr
move_from o = (o, record o { length = 0 })

-- `p = std::move(o)` of two pointers: `p` and `o` afterwards.
unfoldable pub assign : PagePtr → PagePtr → PagePtr × PagePtr
assign p o = (record { phys = o.phys; length = o.length; owner = o.owner }, record o { length = 0 })

-- PAGE_ALIGN of a number of 32 bits. PAGE_SIZE is a power of two.
unfoldable pub page_align : ℕ → ℕ → ℕ
page_align page_size len = let top = (len + (page_size - 1)) % 2 ^ 32 in top - top % page_size

-- `n` is not 0.
unfoldable pub ceil_log2 : ℕ → ℕ
unfolding floor_log2
ceil_log2 n = let width = floor_log2 n n + 1 in if 2 ^ floor_log2 n n == n then width - 1 else width

module _ (page_size : ℕ) where
  -- The pages are freed, and what page_free returns is dropped.
  unfoldable pub destroy : PagePtr → Memory → Option Memory
  unfolding page_free
  destroy p m =
      if is_held p
      then (elim (page_free page_size m p.phys p.length p.owner) [
        | none ↦ none
        | some (status, m') ↦ some m'
      ])
      else some m

  unfoldable pub reset : PagePtr → Memory → Option (PagePtr × Memory)
  unfolding page_free
  reset p m =
      if is_held p
      then (elim (page_free page_size m p.phys p.length p.owner) [
        | none ↦ none
        | some (status, m') ↦ some (record p { length = 0 }, m')
      ])
      else some (p, m)

  -- The bytes of a block of order `o` that are not asked for.
  abbrev pub excess : ℕ → ℕ → ℕ
  excess o len = (page_size * 2 ^ o % 2 ^ 32 + (2 ^ 32 - len)) % 2 ^ 32

  -- What page_alloc does with the block that it gets.
  unfoldable pub trim : ℕ → ℕ → Option ℕ → PagePtr → Memory → Option (PagePtr × Memory)
  unfolding page_free get release
  trim o len owner p m = elim (get p) [
    | none ↦ none
    | some phys ↦ elim (page_free page_size m phys (excess o len) owner) [
      | none ↦ none
      | some (status, m') ↦ elim (release p) [
        | none ↦ none
        | some (phys', p') ↦
            some
              (record { phys = (phys' + excess o len) % 2 ^ 32; length = len; owner = owner }, m')
      ]
    ]
  ]

  -- The result is `none` where an assertion fails.
  unfoldable pub page_alloc : Memory → ℕ → ℕ → Option ℕ → Option (PagePtr × Memory)
  unfolding page_align ceil_log2 page_alloc_order trim
  page_alloc m len attr owner =
      let len' = page_align page_size len in
      let order = ceil_log2 len' - floor_log2 page_size page_size in
      if len == 0
      then some (empty, m)
      else if len' == 0
      then none
      else elim (page_alloc_order page_size m order attr owner) [
        | none ↦ some (empty, m)
        | some (p, m') ↦ trim order len' owner p m'
      ]
