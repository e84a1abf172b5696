-- ===== src/Signal/Clean.antt =====
-- No signal is pending that its task ignores, after sc_rt_sigaction.
use apex.Base.{
  ℕ, suc, ◌<◌, ◌≡◌, refl, sym, ◌∙◌, ap, subst, true, false, some, ◌==◌, arith, Bool-cases, ◌⊎◌, inl,
  inr, ==_iff, update, update_self, count,
}
use apex.Signal.Sets.{set_bits}
use apex.Signal.State.{Sigaction, Task, Signals, set_task, sig_ignore, sig_handler}
use apex.Signal.Calls.{discard_pending, set_action}
use apex.Signal.Discard.{Drained, discard_pending-Drained}

-- Nothing that task `t` ignores is pending on it or on its threads.
pub record IsClean (t : ℕ) (k : Signals) : Type 0 where
  pub on_task :
      (n : ℕ)
      → n < set_bits
      → (k.tasks t).sig_pending n ≡ true
      → sig_ignore (sig_handler k t (suc n)) (suc n) ≡ false
  pub on_threads :
      (th n : ℕ)
      → 0 < count th (k.tasks t).threads
      → n < set_bits
      → k.pending th n ≡ true
      → sig_ignore (sig_handler k t (suc n)) (suc n) ≡ false

-- What the new action of signal `n + 1` may change: no pending bit appears, the other signals keep
-- their handlers, and the signal is not ignored or nowhere pending.
record Adjusted (t n : ℕ) (k k' : Signals) : Type 0 where
  same_threads : (k'.tasks t).threads ≡ (k.tasks t).threads
  handlers : (m : ℕ) → (m == n) ≡ false → sig_handler k' t (suc m) ≡ sig_handler k t (suc m)
  task_shrinks : (m : ℕ) → (k'.tasks t).sig_pending m ≡ true → (k.tasks t).sig_pending m ≡ true
  thread_shrinks : (th m : ℕ) → k'.pending th m ≡ true → k.pending th m ≡ true
  settled :
      (sig_ignore (sig_handler k' t (suc n)) (suc n) ≡ false)
      ⊎ (((k'.tasks t).sig_pending n ≡ false)
          × ((th : ℕ) → 0 < count th (k.tasks t).threads → k'.pending th n ≡ false))

module _ (t n : ℕ) (k k' : Signals) (c : IsClean t k) (a : Adjusted t n k k') where
  other_signal :
      (m : ℕ)
      → (m == n) ≡ false
      → sig_ignore (sig_handler k t (suc m)) (suc m) ≡ false
      → sig_ignore (sig_handler k' t (suc m)) (suc m) ≡ false
  other_signal m other h = ap (λ x. sig_ignore x (suc m)) (a.handlers m other) ∙ h

  Adjusted-IsClean : IsClean t k'
  Adjusted-IsClean = record {
    on_task = λ m l h. elim (Bool-cases (m == n)) [
      | inl same ↦
          let e = (==_iff m n).0 same in
          elim a.settled [
            | inl fine ↦ rw e fine
            | inr (gone, rest) ↦
                absurd (let h' : (k'.tasks t).sig_pending n ≡ true = rw e at h in cc)
          ]
      | inr other ↦ other_signal m other (c.on_task m l (a.task_shrinks m h))
    ];
    on_threads = λ th m here l h.
        let here' = subst (λ ths. 0 < count th ths) a.same_threads here in
        elim (Bool-cases (m == n)) [
          | inl same ↦
              let e = (==_iff m n).0 same in
              elim a.settled [
                | inl fine ↦ rw e fine
                | inr (gone, rest) ↦ absurd (
                    let h' : k'.pending th n ≡ true = rw e at h in
                    let no_more = rest th here' in cc)
              ]
          | inr other ↦ other_signal m other (c.on_threads th m here' l (a.thread_shrinks th m h))
        ];
  }

with_action : ℕ → ℕ → Sigaction → Signals → Signals
with_action t sig act k =
    set_task t (record (k.tasks t) { sig_action = update (k.tasks t).sig_action sig act }) k

kept_handler :
    (t n m : ℕ) (act : Sigaction) (k : Signals)
    → (m == n) ≡ false
    → sig_handler (with_action t (suc n) act k) t (suc m) ≡ sig_handler k t (suc m)
unfolding with_action
kept_handler t n m act k other =
    ap (λ (task : Task). (task.sig_action (suc m)).handler)
      (update_self k.tasks t
        (record (k.tasks t) { sig_action = update (k.tasks t).sig_action (suc n) act }))
    ∙ (let apart : (suc m == suc n) ≡ false = ground (arith, other) in rw apart refl)

-- The signal is not ignored: only its action changes.
action-Adjusted :
    (t n : ℕ) (act : Sigaction) (k : Signals)
    → sig_ignore (sig_handler (with_action t (suc n) act k) t (suc n)) (suc n) ≡ false
    → Adjusted t n k (with_action t (suc n) act k)
unfolding with_action
action-Adjusted t n act k wanted = record {
  same_threads = ground arith;
  handlers = λ m other. kept_handler t n m act k other;
  task_shrinks = λ m h. ground (arith, h);
  thread_shrinks = λ th m h. h;
  settled = inl wanted;
}

Drained-Adjusted :
    (t n : ℕ) (act : Sigaction) (k k' : Signals)
    → Drained t n (with_action t (suc n) act k) k'
    → Adjusted t n k k'
unfolding with_action
Drained-Adjusted t n act k k' d =
    let k₁ = with_action t (suc n) act k in
    let same : (k₁.tasks t).threads ≡ (k.tasks t).threads = ground arith in
    record {
      same_threads = d.same_threads ∙ same;
      handlers = λ m other.
          ap (λ (f : ℕ → Sigaction). (f (suc m)).handler) d.same_actions
          ∙ kept_handler t n m act k other;
      task_shrinks = λ m h. let h' = d.task_shrinks m h in ground (arith, h');
      thread_shrinks = d.thread_shrinks;
      settled = inr (
        d.task_gone,
        λ th here. d.threads_gone th (subst (λ ths. 0 < count th ths) (sym same) here),
      );
    }

ignored-set_action :
    (t n : ℕ) (act : Sigaction) (k : Signals)
    → sig_ignore (sig_handler (with_action t (suc n) act k) t (suc n)) (suc n) ≡ true
    → set_action t (suc n) act k ≡ discard_pending t (suc n) (with_action t (suc n) act k)
unfolding set_action with_action
ignored-set_action t n act k ignored = rw (set_action, ignored) refl

wanted-set_action :
    (t n : ℕ) (act : Sigaction) (k : Signals)
    → sig_ignore (sig_handler (with_action t (suc n) act k) t (suc n)) (suc n) ≡ false
    → set_action t (suc n) act k ≡ some (with_action t (suc n) act k)
unfolding set_action with_action
wanted-set_action t n act k wanted = rw (set_action, wanted) refl

-- A new action leaves the task clean if it was: where it ignores the signal, that is discarded.
pub set_action-IsClean :
    (t n : ℕ) (act : Sigaction) (k : Signals)
    → n < set_bits
    → IsClean t k
    → (k' : Signals) × (set_action t (suc n) act k ≡ some k') × IsClean t k'
set_action-IsClean t n act k l c =
    elim (Bool-cases (sig_ignore (sig_handler (with_action t (suc n) act k) t (suc n)) (suc n))) [
      | inl ignored ↦
          let (k', e, a) = discard_pending-Drained t n (with_action t (suc n) act k) l in
          (
            k',
            ignored-set_action t n act k ignored ∙ e,
            Adjusted-IsClean t n k k' c (Drained-Adjusted t n act k k' a),
          )
      | inr wanted ↦ (
        with_action t (suc n) act k,
        wanted-set_action t n act k wanted,
        Adjusted-IsClean t n k (with_action t (suc n) act k) c (action-Adjusted t n act k wanted),
      )
    ]
