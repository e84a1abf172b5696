-- ===== src/Sched/Wake/Wakeup.antt =====
-- sch_wakeup: every thread that sleeps on the event is woken, and the scheduler stays valid.
use apex.Base.{
  ℕ, ◌+◌, ◌≤◌, ◌<◌, ◌≡◌, refl, sym, ◌∙◌, fun_ext, List, [], ◌∷◌, true, false, ltb, ◌==◌,
  if◌then◌else◌, arith, length, count, remove, remove_of_not_mem, remove_head, update, Bool-cases,
  inl, inr, ==_iff,
}
use mathlib.Core.Path.{ap₂}
use apex.Base.Status.{Status}
use apex.Sched.Defs.{Sched, set_thread, thread_runnable, runq_enqueue, unlink, schedule}
use apex.Sched.Sleep.{woken, sch_wakeup, wakeup_loop, enqueue_unless_active}
use apex.Sched.Valid.{IsLinked, IsPrompt, IsValid, schedule-IsValid, schedule_rest}
use apex.Sched.Wake.{
  IsAble, wake, wake-IsLoose, wake-IsLinked, wake-IsPrompt, runq_enqueue-IsLinked,
  runq_enqueue-IsPrompt,
}

-- `dequeue` takes the first thread off the sleep queue: where each thread is linked once, that is
-- to unlink it.
dequeued-eq-wake :
    (w : ℕ → ℕ) (e t : ℕ) (q : List ℕ) (result : Status) (s : Sched)
    → IsLinked w s
    → s.sleepq e ≡ t ∷ q
    → record (set_thread t (woken result (s.threads t)) s) { sleepq = update s.sleepq e q }
      ≡ wake w t result s
unfolding unlink count thread_runnable
dequeued-eq-wake w e t q result s v h =
    ap₂ (λ r f. record (set_thread t (woken result (s.threads t)) s) { runq = r; sleepq = f })
      (sym (remove_of_not_mem t s.runq (ground (arith, v.queued t, v.asleep t e))))
      (fun_ext (λ e'. sleepq_at e'))
  where
    once : count t (s.sleepq e) ≤ 1
    once = ground (arith, v.asleep t e)

    sleepq_at : (e' : ℕ) → update s.sleepq e q e' ≡ remove t (s.sleepq e')
    sleepq_at e' = elim (Bool-cases (e' == e)) [
      | inl same ↦ rw (same, (==_iff e' e).0 same, h) (sym (remove_head t q (rw h at once)))
      | inr other ↦
          rw other
            (sym (remove_of_not_mem t (s.sleepq e') (ground (arith, v.asleep t e, v.asleep t e'))))
    ]

-- What the loop knows at each round: the threads still on the queue are able to run.
abbrev pub AreAble : Sched → List ℕ → Type 0
AreAble s q = (a : ℕ) → 0 < count a q → IsAble (s.threads a)

record Woke (where_at : ℕ → ℕ) (e : ℕ) (result : Status) (q : List ℕ) (s : Sched) (s' : Sched)
    : Type 0 where
  linked : IsLinked where_at s'
  prompt : IsPrompt s'
  emptied : s'.sleepq e ≡ []
  changed :
      (a : ℕ)
      → s'.threads a ≡ (if ltb 0 (count a q) then woken result (s.threads a) else s.threads a)
  kept : (s'.active ≡ s.active) × (s'.locks ≡ s.locks)

abbrev popped : ℕ → ℕ → List ℕ → Status → Sched → Sched
popped e t q result s = record (set_thread t (woken result (s.threads t)) s) {
  sleepq = update s.sleepq e q;
}

module _ (w : ℕ → ℕ) (e t : ℕ) (q : List ℕ) (result : Status) (s : Sched) where
  step-IsLinked :
      IsLinked w s
      → s.sleepq e ≡ t ∷ q
      → IsAble (s.threads t)
      → IsPrompt s
      → IsLinked w (enqueue_unless_active t t (popped e t q result s))
        × IsPrompt (enqueue_unless_active t t (popped e t q result s))
  unfolding enqueue_unless_active count
  step-IsLinked v h able p =
      rw (dequeued-eq-wake w e t q result s v h) (elim (Bool-cases (t == s.active)) [
        | inl same ↦ rw same (
          wake-IsLinked w t result s v sleeps ((==_iff t s.active).0 same),
          wake-IsPrompt w t result s p,
        )
        | inr differs ↦ rw differs (
          runq_enqueue-IsLinked w t _
              (wake-IsLoose w t result s v sleeps (ground arith) able.0 able.1),
          runq_enqueue-IsPrompt t _ (wake-IsPrompt w t result s p),
        )
      ])
    where
      sleeps : (s.threads t).sleep ≡ true
      sleeps = ground (arith, v.asleep t e)

  step-rest :
      let s' = enqueue_unless_active t t (popped e t q result s) in
      (s'.sleepq ≡ update s.sleepq e q)
      × (s'.threads ≡ update s.threads t (woken result (s.threads t)))
      × (s'.active ≡ s.active)
      × (s'.locks ≡ s.locks)
  unfolding enqueue_unless_active runq_enqueue
  step-rest = elim (Bool-cases (t == s.active)) [
    | inl same ↦ rw same (refl, refl, refl, refl)
    | inr differs ↦ rw differs (refl, refl, refl, refl)
  ]

Woke-step :
    (w : ℕ → ℕ) (e t : ℕ) (result : Status) (q : List ℕ) (s s' : Sched)
    → IsLinked w s
    → s.sleepq e ≡ t ∷ q
    → Woke w e result q (enqueue_unless_active t t (popped e t q result s)) s'
    → Woke w e result (t ∷ q) s s'
unfolding count
Woke-step w e t result q s s' v h r =
    let rest = step-rest w e t q result s in
    record {
      linked = r.linked;
      prompt = r.prompt;
      emptied = r.emptied;
      changed = λ a. r.changed a ∙ rw rest.1 (ground (arith, v.asleep t e));
      kept = (r.kept.0 ∙ rest.2, r.kept.1 ∙ rest.3);
    }

wakeup_loop-Woke :
    (w : ℕ → ℕ) (e : ℕ) (result : Status) (q : List ℕ) (s : Sched) (n : ℕ)
    → IsLinked w s
    → IsPrompt s
    → s.sleepq e ≡ q
    → AreAble s q
    → Woke w e result q s (wakeup_loop e result q s n).0
unfolding wakeup_loop count
wakeup_loop-Woke w e result [] s n v p h able = record {
  linked = v;
  prompt = p;
  emptied = h;
  changed = λ a. refl;
  kept = (refl, refl);
}
wakeup_loop-Woke w e result (t ∷ q) s n v p h able =
    let rest = step-rest w e t q result s in
    let next = step-IsLinked w e t q result s v h (able t (ground arith)) p in
    Woke-step w e t result q s _ v h (
      wakeup_loop-Woke w e result q (enqueue_unless_active t t (popped e t q result s)) (n + 1)
        next.0 next.1 (rw rest.0 (ground arith)) (λ a m. rw rest.1 (ground (arith, able a))))

wakeup_loop-count :
    (e : ℕ) (result : Status) (q : List ℕ) (s : Sched) (n : ℕ)
    → (wakeup_loop e result q s n).1 ≡ length q + n
unfolding wakeup_loop
wakeup_loop-count e result [] s n = omega arith
wakeup_loop-count e result (t ∷ q) s n = omega (
  arith,
  wakeup_loop-count e result q (enqueue_unless_active t t (popped e t q result s)) (n + 1),
)

-- What `sch_wakeup` promises: it returns the number of the threads that slept on the event, each
-- of which is awake with the given result; no other thread changes; the scheduler stays valid.
pub record WakesAll (where_at : ℕ → ℕ) (e : ℕ) (result : Status) (s : Sched) (r : Sched × ℕ)
    : Type 0 where
  pub valid : IsValid where_at r.0
  pub counted : r.1 ≡ length (s.sleepq e)
  pub emptied : r.0.sleepq e ≡ []
  pub changed :
      (a : ℕ)
      → r.0.threads a
        ≡ (if ltb 0 (count a (s.sleepq e)) then woken result (s.threads a) else s.threads a)

Woke-WakesAll :
    (w : ℕ → ℕ) (e : ℕ) (result : Status) (s s' : Sched) (q : List ℕ) (n : ℕ)
    → s.sleepq e ≡ q
    → IsValid w s
    → Woke w e result q s s'
    → n ≡ length q + 0
    → (q ≡ [] → s' ≡ s)
    → WakesAll w e result s (if n == 0 then s' else schedule s', n)
unfolding count
Woke-WakesAll w e result s s' [] n h v r c same =
    let none_woken : n ≡ 0 = c ∙ refl in
    rw (none_woken, same refl)
      (record { valid = v; counted = rw h; emptied = h; changed = λ a. rw h })
Woke-WakesAll w e result s s' (t ∷ q) n h v r c same =
    let some_woken : (n == 0) ≡ false = ground arith in
    let rest = schedule_rest s' in
    rw some_woken (record {
      valid = schedule-IsValid w s' r.linked r.prompt;
      counted = rw h (omega arith);
      emptied = rw rest.1 r.emptied;
      changed = λ a. rw (rest.0, h) (r.changed a);
    })

-- If the threads that sleep on the event are neither suspended nor dead, `sch_wakeup` wakes all
-- of them, returns their number, and leaves the scheduler valid.
pub sch_wakeup-WakesAll :
    (w : ℕ → ℕ) (e : ℕ) (result : Status) (s : Sched)
    → AreAble s (s.sleepq e)
    → IsValid w s
    → WakesAll w e result s (sch_wakeup e result s)
unfolding sch_wakeup wakeup_loop
sch_wakeup-WakesAll w e result s able v =
    Woke-WakesAll w e result s _ (s.sleepq e) _ refl v
      (wakeup_loop-Woke w e result (s.sleepq e) s 0 v.linked v.prompt refl able)
      (wakeup_loop-count e result (s.sleepq e) s 0) (λ h. rw h)
