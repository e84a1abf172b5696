-- ===== src/Links.antt =====
-- The links of sys/lib/queue.cpp, sys/include/queue.h and sys/include/list.h, in a store: a link is
-- a number, the address of its `struct queue` or `struct list`, and the store has the two pointers
-- of each. A thread is named by the address of its link.
pub mod Segments
pub mod Neighbours
pub mod Queues
pub mod Scheduler
pub mod Walk
pub mod Insertion
mod Tests
use apex.Base.{ℕ, zero, suc, Bool, Option, none, some, ltb, leb, ◌==◌, if◌then◌else◌, update}

pub record Links : Type 0 where
  pub next : ℕ → ℕ
  pub prev : ℕ → ℕ

-- `p->next = v` and `p->prev = v`.
abbrev pub set_next : ℕ → ℕ → Links → Links
set_next p v h = record h { next = update h.next p v }

abbrev pub set_prev : ℕ → ℕ → Links → Links
set_prev p v h = record h { prev = update h.prev p v }

unfoldable pub queue_init : ℕ → Links → Links
queue_init head h = set_next head head (set_prev head head h)

unfoldable pub queue_empty : ℕ → Links → Bool
queue_empty head h = h.next head == head

unfoldable pub enqueue : ℕ → ℕ → Links → Links
enqueue head item h =
    let h₁ = set_next item head h in
    let h₂ = set_prev item (h₁.prev head) h₁ in
    let h₃ = set_next (h₂.prev item) item h₂ in set_prev head item h₃

unfoldable pub dequeue : ℕ → Links → Option ℕ × Links
dequeue head h =
    let item = h.next head in
    let h₁ = set_prev (h.next item) head h in
    let h₂ = set_next head (h₁.next item) h₁ in
    if h.next head == head then (none, h) else (some item, h₂)

unfoldable pub queue_insert : ℕ → ℕ → Links → Links
queue_insert prev item h =
    let h₁ = set_prev item prev h in
    let h₂ = set_next item (h₁.next prev) h₁ in
    let h₃ = set_prev (h₂.next prev) item h₂ in set_next prev item h₃

unfoldable pub queue_remove : ℕ → Links → Links
queue_remove item h =
    let h₁ = set_next (h.prev item) (h.next item) h in set_prev (h₁.next item) (h₁.prev item) h₁

unfoldable pub list_insert : ℕ → ℕ → Links → Links
list_insert prev node h =
    let h₁ = set_next node (h.next prev) h in
    let h₂ = set_prev node prev h₁ in
    let h₃ = set_prev (h₂.next prev) node h₂ in set_next prev node h₃

unfoldable pub list_remove : ℕ → Links → Links
list_remove node h =
    let h₁ = set_next (h.prev node) (h.next node) h in set_prev (h₁.next node) (h₁.prev node) h₁

-- The loop of runq_enqueue and runq_insert, which walk to the first thread that `stops`, or to the
-- head. `none`: the fuel is spent.
unfoldable pub walk : ℕ → (ℕ → Bool) → ℕ → ℕ → Links → Option ℕ
walk zero stops head q h = none
walk (suc fuel) stops head q h =
    let rest = walk fuel stops head (h.next q) h in
    if q == head then some q else if stops q then some q else rest

-- What runq_enqueue and runq_insert do to the links.
unfoldable pub link_before : ℕ → (ℕ → Bool) → ℕ → ℕ → Links → Option Links
unfolding walk queue_insert
link_before fuel stops head t h = elim (walk fuel stops head (h.next head) h) [
  | none ↦ none
  | some q ↦ some (queue_insert (h.prev q) t h)
]

unfoldable pub enqueue_link : ℕ → (ℕ → ℕ) → ℕ → ℕ → Links → Option Links
unfolding link_before
enqueue_link fuel prio head t h = link_before fuel (λ x. ltb (prio t) (prio x)) head t h

unfoldable pub insert_link : ℕ → (ℕ → ℕ) → ℕ → ℕ → Links → Option Links
unfolding link_before
insert_link fuel prio head t h = link_before fuel (λ x. leb (prio t) (prio x)) head t h
