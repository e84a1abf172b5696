-- ===== src/Signal/Flush.antt =====
-- sig_flush hands a task's pending signals to threads that do not block them.
use apex.Base.{ℕ, ◌≡◌, refl, true, List, [], ◌∷◌, arith, Bool-cases, inl, inr, count}
use apex.Signal.Sets.{ksigandnset, ksigisemptyset}
use apex.Signal.Members.{ksigisemptyset-true}
use apex.Signal.State.{Signals}
use apex.Signal.Sending.{flush_one, flush_loop, sig_flush}
use apex.Signal.Offers.{Flushed, flush_one-Flushed, nothing-Flushed, in_first, cons-Flushed}

-- The loop may stop as soon as no signal is pending on the task.
stop-Flushed :
    (t th : ℕ) (ths : List ℕ) (k k' : Signals)
    → ksigisemptyset (k'.tasks t).sig_pending ≡ true
    → Flushed t (th ∷ []) k k'
    → Flushed t (th ∷ ths) k k'
stop-Flushed t th ths k k' e f = record {
  same_blocked = f.same_blocked;
  same_threads = f.same_threads;
  same_actions = f.same_actions;
  shrinks = f.shrinks;
  kept = f.kept;
  once = f.once;
  left = λ n l h x here.
      absurd (let without = ksigisemptyset-true (k'.tasks t).sig_pending e n l in cc);
  moved = λ n h. elim (f.moved n h) [
    | inl still ↦ inl still
    | inr (x, here, b, p) ↦ inr (x, in_first x th ths here, b, p)
  ];
  given = λ x n h. elim (f.given x n h) [
    | inl p ↦ inl p
    | inr (here, b, was, gone) ↦ inr (in_first x th ths here, b, was, gone)
  ];
}

loop-Flushed : (t : ℕ) (ths : List ℕ) (k : Signals) → Flushed t ths k (flush_loop t ths k)
unfolding flush_loop count
loop-Flushed t [] k = record {
  same_blocked = λ x. refl;
  same_threads = refl;
  same_actions = refl;
  shrinks = λ n h. h;
  left = λ n l h x here. absurd (omega (arith, here));
  moved = λ n h. inl h;
  kept = λ x n h. h;
  given = λ x n h. inl h;
  once = λ x y n h without. absurd (cc);
}
loop-Flushed t (th ∷ ths) k =
    elim (Bool-cases (ksigisemptyset (ksigandnset (k.tasks t).sig_pending (k.blocked th)))) [
      | inl none_there ↦ rw none_there (
          cons-Flushed t th ths k k (flush_loop t ths k) (nothing-Flushed t th k none_there)
            (loop-Flushed t ths k))
      | inr some_there ↦
          let k' = flush_one t th k in
          elim (Bool-cases (ksigisemptyset (k'.tasks t).sig_pending)) [
            | inl done ↦
                rw (some_there, done) (stop-Flushed t th ths k k' done (flush_one-Flushed t th k))
            | inr more ↦
                rw (some_there, more)
                  (cons-Flushed t th ths k k' (flush_loop t ths k') (flush_one-Flushed t th k)
                    (loop-Flushed t ths k'))
          ]
    ]

-- sig_flush hands each pending signal of the task to one thread that does not block it, and leaves
-- it pending on the task only if all threads block it.
pub sig_flush-Flushed : (t : ℕ) (k : Signals) → Flushed t (k.tasks t).threads k (sig_flush t k)
unfolding sig_flush
sig_flush-Flushed t k = elim (Bool-cases (ksigisemptyset (k.tasks t).sig_pending)) [
  | inl none_there ↦ rw none_there (record {
    same_blocked = λ x. refl;
    same_threads = refl;
    same_actions = refl;
    shrinks = λ n h. h;
    left = λ n l h x here.
        absurd (let without = ksigisemptyset-true (k.tasks t).sig_pending none_there n l in cc);
    moved = λ n h. inl h;
    kept = λ x n h. h;
    given = λ x n h. inl h;
    once = λ x y n h without. absurd (cc);
  })
  | inr some_there ↦ rw some_there (loop-Flushed t (k.tasks t).threads k)
]
