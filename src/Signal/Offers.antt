-- ===== src/Signal/Offers.antt =====
-- What the rounds of sig_flush do with a task's pending signals, thread by thread.
use apex.Base.{
  ℕ, ◌<◌, ◌≡◌, refl, sym, ◌∙◌, ap, true, false, List, [], ◌∷◌, arith, Bool-cases, ◌⊎◌, inl, inr,
  count,
}
use apex.Signal.Sets.{Sigset, set_bits, ksigandnset, ksigorset, ksigisemptyset}
use apex.Signal.Members.{ksigisemptyset-true}
use apex.Signal.State.{Signals, set_sigs}
use apex.Signal.Sending.{flush_one}

-- The threads `ths` have been offered the pending signals of task `t`. `left`: a signal is still
-- pending on the task only if all of them block it. `moved`: a signal that was pending on the task
-- still is, or is pending on one of them that does not block it. `given` and `once`: nothing else
-- becomes pending on a thread, and no signal on two of them.
pub record Flushed (t : ℕ) (ths : List ℕ) (k k' : Signals) : Type 0 where
  pub same_blocked : (th : ℕ) → k'.blocked th ≡ k.blocked th
  pub same_threads : (k'.tasks t).threads ≡ (k.tasks t).threads
  pub same_actions : (k'.tasks t).sig_action ≡ (k.tasks t).sig_action
  pub shrinks : (n : ℕ) → (k'.tasks t).sig_pending n ≡ true → (k.tasks t).sig_pending n ≡ true
  pub left :
      (n : ℕ)
      → n < set_bits
      → (k'.tasks t).sig_pending n ≡ true
      → (th : ℕ) → 0 < count th ths
      → k.blocked th n ≡ true
  pub moved :
      (n : ℕ)
      → (k.tasks t).sig_pending n ≡ true
      → ((k'.tasks t).sig_pending n ≡ true)
        ⊎ ((th : ℕ) × (0 < count th ths) × (k.blocked th n ≡ false) × (k'.pending th n ≡ true))
  pub kept : (th n : ℕ) → k.pending th n ≡ true → k'.pending th n ≡ true
  pub given :
      (th n : ℕ)
      → k'.pending th n ≡ true
      → (k.pending th n ≡ true)
        ⊎ ((0 < count th ths)
            × (k.blocked th n ≡ false)
            × ((k.tasks t).sig_pending n ≡ true)
            × ((k'.tasks t).sig_pending n ≡ false))
  pub once :
      (th th' n : ℕ)
      → k'.pending th n ≡ true
      → k.pending th n ≡ false
      → k'.pending th' n ≡ true
      → k.pending th' n ≡ false
      → th ≡ th'

pub flush_one-Flushed : (t th : ℕ) (k : Signals) → Flushed t (th ∷ []) k (flush_one t th k)
unfolding flush_one set_sigs ksigandnset ksigorset count
flush_one-Flushed t th k = record {
  same_blocked = λ x. ground arith;
  same_threads = ground arith;
  same_actions = ground arith;
  shrinks = λ n h. ground (arith, h);
  left = λ n l h x here. ground (arith, h, here);
  moved = λ n h. elim (Bool-cases (k.blocked th n)) [
    | inl b ↦ inl (ground (arith, h, b))
    | inr b ↦ inr (th, ground arith, b, ground (arith, h, b))
  ];
  kept = λ x n h. ground (arith, h);
  given = λ x n h. elim (Bool-cases (k.pending x n)) [
    | inl p ↦ inl p
    | inr p ↦
        inr (ground (arith, h, p), ground (arith, h, p), ground (arith, h, p), ground (arith, h, p))
  ];
  once = λ x y n h without h' without'. ground (arith, h, without, h', without');
}

pub nothing-Flushed :
    (t th : ℕ) (k : Signals)
    → ksigisemptyset (ksigandnset (k.tasks t).sig_pending (k.blocked th)) ≡ true
    → Flushed t (th ∷ []) k k
unfolding count ksigandnset
nothing-Flushed t th k none_there = record {
  same_blocked = λ x. refl;
  same_threads = refl;
  same_actions = refl;
  shrinks = λ n h. h;
  left = λ n l h x here.
      let without =
        ksigisemptyset-true (ksigandnset (k.tasks t).sig_pending (k.blocked th)) none_there n l in
      ground (arith, h, here, without);
  moved = λ n h. inl h;
  kept = λ x n h. h;
  given = λ x n h. inl h;
  once = λ x y n h without. absurd (cc);
}

pub in_first : (x th : ℕ) (ths : List ℕ) → 0 < count x (th ∷ []) → 0 < count x (th ∷ ths)
unfolding count
in_first x th ths l = ground (arith, l)

in_rest : (x th : ℕ) (ths : List ℕ) → 0 < count x ths → 0 < count x (th ∷ ths)
unfolding count
in_rest x th ths l = ground (arith, l)

in_either :
    (x th : ℕ) (ths : List ℕ) → 0 < count x (th ∷ ths) → (0 < count x (th ∷ [])) ⊎ (0 < count x ths)
unfolding count
in_either x th ths l = ground (arith, l)

-- One thread after the other.
module _ (t th : ℕ) (ths : List ℕ) (k k₁ k₂ : Signals) (f : Flushed t (th ∷ []) k k₁)
    (g : Flushed t ths k₁ k₂) where
  -- The mask of the state between, and of the first.
  same_bit : (x n : ℕ) → k₁.blocked x n ≡ k.blocked x n
  same_bit x n = ap (λ (s : Sigset). s n) (f.same_blocked x)

  cons-left :
      (n : ℕ)
      → n < set_bits
      → (k₂.tasks t).sig_pending n ≡ true
      → (x : ℕ) → 0 < count x (th ∷ ths)
      → k.blocked x n ≡ true
  cons-left n l h x here = elim (in_either x th ths here) [
    | inl a ↦ f.left n l (g.shrinks n h) x a
    | inr a ↦ sym (same_bit x n) ∙ g.left n l h x a
  ]

  cons-moved :
      (n : ℕ)
      → (k.tasks t).sig_pending n ≡ true
      → ((k₂.tasks t).sig_pending n ≡ true)
        ⊎ ((x : ℕ) × (0 < count x (th ∷ ths)) × (k.blocked x n ≡ false) × (k₂.pending x n ≡ true))
  cons-moved n h = elim (f.moved n h) [
    | inl still ↦ elim (g.moved n still) [
      | inl still' ↦ inl still'
      | inr (x, here, b, p) ↦ inr (x, in_rest x th ths here, sym (same_bit x n) ∙ b, p)
    ]
    | inr (x, here, b, p) ↦ inr (x, in_first x th ths here, b, g.kept x n p)
  ]

  cons-given :
      (x n : ℕ)
      → k₂.pending x n ≡ true
      → (k.pending x n ≡ true)
        ⊎ ((0 < count x (th ∷ ths))
            × (k.blocked x n ≡ false)
            × ((k.tasks t).sig_pending n ≡ true)
            × ((k₂.tasks t).sig_pending n ≡ false))
  cons-given x n h = elim (g.given x n h) [
    | inl p ↦ elim (f.given x n p) [
      | inl p' ↦ inl p'
      | inr (here, b, was, gone) ↦ inr (
        in_first x th ths here,
        b,
        was,
        elim (Bool-cases ((k₂.tasks t).sig_pending n)) [
          | inl back ↦ absurd (let without = g.shrinks n back in cc)
          | inr without ↦ without
        ],
      )
    ]
    | inr (here, b, was, gone) ↦
        inr (in_rest x th ths here, sym (same_bit x n) ∙ b, f.shrinks n was, gone)
  ]

  -- A signal that the first thread got is not given to a later one.
  not_again :
      (x y n : ℕ)
      → k₁.pending x n ≡ true
      → k.pending x n ≡ false
      → k₂.pending y n ≡ true
      → k₁.pending y n ≡ true
  not_again x y n h without h' = elim (f.given x n h) [
    | inl p ↦ absurd (cc)
    | inr (here, b, was, gone) ↦ elim (g.given y n h') [
      | inl p ↦ p
      | inr (here', b', was', gone') ↦ absurd (cc)
    ]
  ]

  cons-once :
      (x y n : ℕ)
      → k₂.pending x n ≡ true
      → k.pending x n ≡ false
      → k₂.pending y n ≡ true
      → k.pending y n ≡ false
      → x ≡ y
  cons-once x y n h without h' without' = elim (Bool-cases (k₁.pending x n)) [
    | inl a ↦ f.once x y n a without (not_again x y n a without h') without'
    | inr a ↦ elim (Bool-cases (k₁.pending y n)) [
      | inl b ↦ f.once x y n (not_again y x n b without' h) without b without'
      | inr b ↦ g.once x y n h a h' b
    ]
  ]

  pub cons-Flushed : Flushed t (th ∷ ths) k k₂
  cons-Flushed = record {
    same_blocked = λ x. g.same_blocked x ∙ f.same_blocked x;
    same_threads = g.same_threads ∙ f.same_threads;
    same_actions = g.same_actions ∙ f.same_actions;
    shrinks = λ n h. f.shrinks n (g.shrinks n h);
    left = cons-left;
    moved = cons-moved;
    kept = λ x n h. g.kept x n (f.kept x n h);
    given = cons-given;
    once = cons-once;
  }
