-- ===== src/Links/Neighbours.antt =====
-- What each operation writes: the neighbours of the link that it puts in or takes out.
use apex.Base.{ℕ, ◌≢◌, arith}
use apex.Links.{Links, enqueue, dequeue, queue_insert, queue_remove}
use apex.Links.Segments.{Between, Joined}

pub queue_insert-Between :
    (p item : ℕ) (h : Links)
    → p ≢ item
    → h.next p ≢ item
    → Between p (h.next p) item h (queue_insert p item h)
unfolding queue_insert
queue_insert-Between p item h apart apart' = record {
  next_p = ground arith;
  next_item = ground (arith, apart);
  prev_item = ground (arith, apart, apart');
  prev_q = ground (arith, apart, apart');
  other_next = λ x e e'. ground (arith, e, e');
  other_prev = λ x e e'. ground (arith, apart, e, e');
}

pub enqueue-Between :
    (head item : ℕ) (h : Links)
    → head ≢ item
    → h.prev head ≢ item
    → Between (h.prev head) head item h (enqueue head item h)
unfolding enqueue
enqueue-Between head item h apart apart' = record {
  next_p = ground (arith, apart, apart');
  next_item = ground (arith, apart, apart');
  prev_item = ground (arith, apart, apart');
  prev_q = ground (arith, apart, apart');
  other_next = λ x e e'. ground (arith, apart, e, e');
  other_prev = λ x e e'. ground (arith, apart, e, e');
}

pub queue_remove-Joined :
    (item : ℕ) (h : Links)
    → h.prev item ≢ item
    → Joined (h.prev item) (h.next item) h (queue_remove item h)
unfolding queue_remove
queue_remove-Joined item h apart = record {
  next_p = ground arith;
  prev_q = ground (arith, apart);
  other_next = λ x e. ground (arith, e);
  other_prev = λ x e. ground (arith, apart, e);
}

pub dequeue-Joined :
    (head : ℕ) (h : Links)
    → h.next head ≢ head
    → Joined head (h.next (h.next head)) h (dequeue head h).1
unfolding dequeue
dequeue-Joined head h some_there = record {
  next_p = ground (arith, some_there);
  prev_q = ground (arith, some_there);
  other_next = λ x e. ground (arith, some_there, e);
  other_prev = λ x e. ground (arith, some_there, e);
}
