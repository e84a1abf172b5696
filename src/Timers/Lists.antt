-- ===== src/Timers/Lists.antt =====
-- The invariant of the timer lists, and that every operation keeps it.
use apex.Base.{
  length, ℕ, ◌+◌, ◌≤◌, ◌<◌, ◌≡◌, refl, ◌∙◌, Bool, true, false, not, ◌&&◌, ◌||◌, List, [], ◌∷◌, ltb,
  leb, ◌==◌, if◌then◌else◌, arith, count, remove, count-remove, Bool-cases, inl, inr,
}
use apex.Sched.Runq.{
  Rises, Rises-remove, Rises-insert_last, Rises-congr, Rises-mono, Rises-le, count-insert_last,
}
use apex.Timers.{
  Timer, TimerLists, expire_of, set_timer, timer_insert, unlink, timer_callout, timer_redirect,
  timer_stop, expire_loop, tick_expire, callout_round,
}

-- The list is sorted by the time at which the timers expire; a timer is active exactly if it is in
-- one of the lists, and then it is in it once.
pub record IsArmed (s : TimerLists) : Type 0 where
  pub sorted : Rises (expire_of s) 0 s.timer_list
  pub listed :
      (t : ℕ)
      → count t s.timer_list + count t s.expire_list ≡ (if (s.timers t).active then 1 else 0)

pub timer_stop-IsArmed : (t : ℕ) (s : TimerLists) → IsArmed s → IsArmed (timer_stop t s)
unfolding timer_stop unlink
timer_stop-IsArmed t s v = elim (Bool-cases (s.timers t).active) [
  | inr off ↦ rw off v
  | inl on ↦ rw on (record {
    sorted =
        Rises-congr (expire_of s) _ 0 (remove t s.timer_list) (λ a h. ground arith)
          (Rises-remove (expire_of s) t 0 s.timer_list v.sorted);
    listed = λ a.
        ground (arith, count-remove a t s.timer_list, count-remove a t s.expire_list, v.listed a);
  })
]

-- A timer that is in no list is inserted.
timer_insert-IsArmed :
    (t : ℕ) (x : Timer) (s : TimerLists)
    → x.active ≡ true
    → Rises (expire_of s) 0 s.timer_list
    → ((a : ℕ)
        → count a s.timer_list + count a s.expire_list
          ≡ (if not (a == t) && (s.timers a).active then 1 else 0))
    → IsArmed (timer_insert t (set_timer t x s))
unfolding timer_insert
timer_insert-IsArmed t x s on sorted listed =
    let s' = set_timer t x s in
    record {
      sorted = Rises-insert_last (expire_of s') t 0 s.timer_list (omega arith) (
          Rises-congr (expire_of s) (expire_of s') 0 s.timer_list
            (λ a h. ground (arith, listed a, h)) sorted);
      listed = λ a. ground (arith, count-insert_last (expire_of s') a t s.timer_list, listed a, on);
    }

-- A callout keeps the lists valid, whether or not the timer is active.
pub timer_callout-IsArmed :
    (period now t nsec interval func arg : ℕ) (s : TimerLists)
    → IsArmed s
    → IsArmed (timer_callout period now t nsec interval func arg s)
unfolding timer_callout unlink
timer_callout-IsArmed period now t nsec interval func arg s v =
    elim (Bool-cases (s.timers t).active) [
      | inl on ↦ rw on (
          timer_insert-IsArmed t _ (unlink t s) refl
            (Rises-remove (expire_of s) t 0 s.timer_list v.sorted)
            (λ a.
              ground
                (arith, count-remove a t s.timer_list, count-remove a t s.expire_list, v.listed a)))
      | inr off ↦
          rw off (timer_insert-IsArmed t _ s refl v.sorted (λ a. ground (arith, v.listed a, off)))
    ]

pub timer_redirect-IsArmed :
    (t func arg : ℕ) (s : TimerLists) → IsArmed s → IsArmed (timer_redirect t func arg s)
unfolding timer_redirect
timer_redirect-IsArmed t func arg s v = elim (Bool-cases (s.timers t).active) [
  | inr off ↦ rw off v
  | inl on ↦ rw on (record {
    sorted = Rises-congr (expire_of s) _ 0 s.timer_list (λ a h. ground arith) v.sorted;
    listed = λ a. ground (arith, v.listed a, on);
  })
]

pub callout_round-IsArmed :
    (t : ℕ) (rest : List ℕ) (s : TimerLists)
    → s.expire_list ≡ t ∷ rest
    → IsArmed s
    → IsArmed (callout_round t rest s)
unfolding callout_round count
callout_round-IsArmed t rest s e v =
    let counts = λ (a : ℕ). rw e at (v.listed a) in
    elim (Bool-cases ((s.timers t).interval == 0)) [
      | inl once ↦ rw once (record {
        sorted = Rises-congr (expire_of s) _ 0 s.timer_list (λ a h. ground arith) v.sorted;
        listed = λ a. ground (arith, counts a, counts t);
      })
      | inr periodic ↦ rw periodic (
          timer_insert-IsArmed t _ (record s { expire_list = rest }) (ground (arith, counts t))
            v.sorted (λ a. ground (arith, counts a, counts t)))
    ]

-- What the loop of a tick makes of the list `q`, the expired timers `old` and the flag `woken`.
pub record Expired (monotonic : ℕ) (expire : ℕ → ℕ) (q old : List ℕ) (woken : Bool)
    (left expired : List ℕ) (wakeup : Bool) : Type 0 where
  pub whole : (t : ℕ) → count t left + count t expired ≡ count t q + count t old
  pub later : (t : ℕ) → 0 < count t left → monotonic < expire t
  pub due :
      (t : ℕ) → count t expired ≡ count t old + (if leb (expire t) monotonic then count t q else 0)
  pub grows : length old ≤ length expired
  pub wakes : wakeup ≡ (woken || ltb (length old) (length expired))

expire_loop-Expired :
    (monotonic n : ℕ) (expire : ℕ → ℕ) (q old : List ℕ) (woken : Bool)
    → Rises expire n q
    → let (left, expired, wakeup) = expire_loop monotonic expire q old woken in
      Expired monotonic expire q old woken left expired wakeup × Rises expire n left
unfolding expire_loop count
expire_loop-Expired monotonic n expire [] old woken r = (
  record {
    whole = λ t. refl;
    later = λ t h. absurd (omega arith);
    due = λ t. ground arith;
    grows = omega arith;
    wakes = ground arith;
  },
  tt,
)
expire_loop-Expired monotonic n expire (x ∷ xs) old woken r =
    elim (Bool-cases (ltb monotonic (expire x))) [
      | inl early ↦ rw early (
        record {
          whole = λ t. refl;
          later = λ t h. ground (arith, Rises-le expire t (expire x) xs r.1);
          due = λ t. ground (arith, Rises-le expire t (expire x) xs r.1);
          grows = omega arith;
          wakes = ground arith;
        },
        r,
      )
      | inr passed ↦
          let (f, sorted) = expire_loop-Expired monotonic (expire x) expire xs (x ∷ old) true r.1 in
          rw passed (
            record {
              whole = λ t. ground (arith, f.whole t);
              later = f.later;
              due = λ t. ground (arith, f.due t);
              grows = omega (arith, f.grows);
              wakes = f.wakes ∙ ground (arith, f.grows);
            },
            Rises-mono expire n (expire x) _ r.0 sorted,
          )
    ]

-- A tick keeps the lists valid. Exactly the timers that have expired leave the list of timers and
-- join the expired ones, those that are left expire later, and the timer thread is to be woken
-- exactly if a timer has expired.
pub tick_expire-Expired :
    (monotonic : ℕ) (s : TimerLists)
    → IsArmed s
    → let (s', wakeup) = tick_expire monotonic s in
      IsArmed s'
      × Expired monotonic
          (expire_of s)
          s.timer_list
          s.expire_list
          false
          s'.timer_list
          s'.expire_list
          wakeup
unfolding tick_expire
tick_expire-Expired monotonic s v =
    let (f, sorted) =
      expire_loop-Expired monotonic 0 (expire_of s) s.timer_list s.expire_list false v.sorted in
    (record { sorted = sorted; listed = λ t. f.whole t ∙ v.listed t }, f)
