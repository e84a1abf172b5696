-- ===== src/Signal/Discard.antt =====
-- sc_rt_sigaction takes an ignored signal out of the sets of a task and of its threads.
use apex.Base.{
  ℕ, suc, ◌<◌, ◌≡◌, refl, sym, ◌∙◌, ap, true, false, some, List, [], ◌∷◌, ltb, ◌==◌, arith,
  Bool-cases, inl, inr, ==_iff, update, count,
}
use apex.Signal.Sets.{Sigset, set_bits}
use apex.Signal.State.{Task, Signals, set_task_pending, set_sigs}
use apex.Signal.Calls.{discard_loop, discard_pending}

-- The loop takes the signal out of the sets of the threads `ths`, and changes no other bit.
record Discarded (n : ℕ) (ths : List ℕ) (k k' : Signals) : Type 0 where
  same_tasks : k'.tasks ≡ k.tasks
  gone : (th : ℕ) → 0 < count th ths → k'.pending th n ≡ false
  shrinks : (th m : ℕ) → k'.pending th m ≡ true → k.pending th m ≡ true

bit_stays :
    (pending : ℕ → Sigset) (x n th m : ℕ)
    → update pending x (update (pending x) n false) th m ≡ true
    → pending th m ≡ true
bit_stays pending x n th m h = elim (Bool-cases (th == x)) [
  | inl same ↦ rw ((==_iff th x).0 same) (ground (arith, h, (==_iff th x).0 same))
  | inr other ↦ ground (arith, h, other)
]

bit_gone :
    (pending : ℕ → Sigset) (x n : ℕ) → update pending x (update (pending x) n false) x n ≡ false
bit_gone pending x n = ground arith

cons-Discarded :
    (n x : ℕ) (ths : List ℕ) (k k' : Signals)
    → Discarded n ths (set_sigs x (update (k.pending x) n false) (k.blocked x) k) k'
    → Discarded n (x ∷ ths) k k'
unfolding set_sigs count
cons-Discarded n x ths k k' d = record {
  same_tasks = d.same_tasks;
  gone = λ th here. elim (Bool-cases (k'.pending th n)) [
    | inl still ↦ elim (Bool-cases (x == th)) [
      | inl same ↦ absurd (
          let e = (==_iff x th).0 same in
          let was = d.shrinks x n (rw e still) in let gone = bit_gone k.pending x n in cc)
      | inr other ↦ d.gone th (ground (arith, here, other))
    ]
    | inr gone ↦ gone
  ];
  shrinks = λ th m h. bit_stays k.pending x n th m (d.shrinks th m h);
}

discard_loop-Discarded :
    (n : ℕ) (ths : List ℕ) (k : Signals)
    → n < set_bits
    → (k' : Signals) × (discard_loop (suc n) ths k ≡ some k') × Discarded n ths k k'
unfolding discard_loop count
discard_loop-Discarded n [] k l = (
  k,
  refl,
  record {
    same_tasks = refl;
    gone = λ th here. absurd (omega (arith, here));
    shrinks = λ th m h. h;
  },
)
discard_loop-Discarded n (x ∷ ths) k l =
    let p = update (k.pending x) n false in
    let k₁ = set_sigs x p (k.blocked x) k in
    let (k', e, d) = discard_loop-Discarded n ths k₁ l in
    let inside : ltb n set_bits ≡ true = ground (arith, l) in
    (k', rw (discard_loop, inside) e, cons-Discarded n x ths k k' d)

-- The signal is taken out of all sets of the task.
pub record Drained (t n : ℕ) (k k' : Signals) : Type 0 where
  pub same_threads : (k'.tasks t).threads ≡ (k.tasks t).threads
  pub same_actions : (k'.tasks t).sig_action ≡ (k.tasks t).sig_action
  pub task_gone : (k'.tasks t).sig_pending n ≡ false
  pub task_shrinks : (m : ℕ) → (k'.tasks t).sig_pending m ≡ true → (k.tasks t).sig_pending m ≡ true
  pub threads_gone : (th : ℕ) → 0 < count th (k.tasks t).threads → k'.pending th n ≡ false
  pub thread_shrinks : (th m : ℕ) → k'.pending th m ≡ true → k.pending th m ≡ true

set_task_pending-Drained :
    (t n : ℕ) (k k' : Signals)
    → Discarded n (k.tasks t).threads k k'
    → Drained t n k (set_task_pending t (update (k'.tasks t).sig_pending n false) k')
set_task_pending-Drained t n k k' d =
    let tasks : k'.tasks t ≡ k.tasks t = ap (λ (f : ℕ → Task). f t) d.same_tasks in
    record {
      same_threads = ground arith ∙ ap (λ (x : Task). x.threads) tasks;
      same_actions = ground arith ∙ ap (λ (x : Task). x.sig_action) tasks;
      task_gone = ground arith;
      task_shrinks = λ m h. sym (ap (λ (x : Task). x.sig_pending m) tasks) ∙ ground (arith, h);
      threads_gone = d.gone;
      thread_shrinks = d.shrinks;
    }

after_loop :
    (t n : ℕ) (k k' : Signals)
    → n < set_bits
    → discard_loop (suc n) (k.tasks t).threads k ≡ some k'
    → discard_pending t (suc n) k
      ≡ some (set_task_pending t (update (k'.tasks t).sig_pending n false) k')
unfolding discard_pending
after_loop t n k k' l e =
    let inside : ltb n set_bits ≡ true = ground (arith, l) in rw (discard_pending, e, inside) refl

pub discard_pending-Drained :
    (t n : ℕ) (k : Signals)
    → n < set_bits
    → (k' : Signals) × (discard_pending t (suc n) k ≡ some k') × Drained t n k k'
discard_pending-Drained t n k l =
    let (k', e, d) = discard_loop-Discarded n (k.tasks t).threads k l in
    (
      set_task_pending t (update (k'.tasks t).sig_pending n false) k',
      after_loop t n k k' l e,
      set_task_pending-Drained t n k k' d,
    )
