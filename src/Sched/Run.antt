-- ===== src/Sched/Run.antt =====
-- sch_switch: the thread that runs next is one of highest priority, and nothing is lost.
use apex.Base.{
  ℕ, ◌≤◌, ◌≡◌, ◌≢◌, ◌⊎◌, refl, ap, ◌∙◌, subst, List, [], ◌∷◌, true, false, not, ◌&&◌, ◌||◌, ◌==◌,
  arith, count, some, Bool-cases, inl, inr, ==_iff,
}
use apex.Base.Status.{ok}
use apex.Sched.Defs.{
  Sched, Resched, idle, preempt, is_idle, prio_of, thread_runnable, runq_enqueue, runq_insert,
  runq_dequeue, dequeue_of,
}
use apex.Sched.Control.{put_by, put_back, bury, take_over, dispatch, sch_switch}
use apex.Sched.Runq.{
  Rises, Rises-mono, Rises-le, Rises-insert_last, Rises-insert_first, count-insert_last,
  count-insert_first,
}
use apex.Sched.Valid.{IsLinked, IsValid, one_if, relabel-IsLinked}
use apex.Sched.Wake.Wakeup.{AreAble, sch_wakeup-WakesAll}

-- Every runnable thread stands in the run queue, the active one too.
record IsFull (w : ℕ → ℕ) (s : Sched) : Type 0 where
  full : (a : ℕ) → count a s.runq ≡ one_if (thread_runnable (s.threads a))
  asleep : (a e : ℕ) → count a (s.sleepq e) ≡ one_if ((s.threads a).sleep && (w a == e))
  ordered : Rises (prio_of s) 0 s.runq

put_by-IsFull :
    (w : ℕ → ℕ) (r : Resched) (s : Sched)
    → thread_runnable (s.threads s.active) ≡ true
    → IsLinked w s
    → IsFull w (put_by r s)
unfolding put_by runq_enqueue runq_insert
put_by-IsFull w preempt s run v = record {
  full = λ a. ground (arith, count-insert_first (prio_of s) a s.active s.runq, v.queued a);
  asleep = v.asleep;
  ordered = Rises-insert_first (prio_of s) s.active 0 s.runq (omega arith) v.ordered;
}
put_by-IsFull w _ s run v = record {
  full = λ a. ground (arith, count-insert_last (prio_of s) a s.active s.runq, v.queued a);
  asleep = v.asleep;
  ordered = Rises-insert_last (prio_of s) s.active 0 s.runq (omega arith) v.ordered;
}

put_back-IsFull : (w : ℕ → ℕ) (s : Sched) → IsLinked w s → IsFull w (put_back s)
unfolding put_back
put_back-IsFull w s v = elim (Bool-cases (thread_runnable (s.threads s.active))) [
  | inl run ↦ rw run (put_by-IsFull w s.resched s run v)
  | inr stopped ↦
      rw stopped
        (record { full = λ a. ground (arith, v.queued a); asleep = v.asleep; ordered = v.ordered })
]

abbrev SameThreads : Sched → Sched → Type 0
SameThreads s s' = (s'.threads ≡ s.threads) × (s'.sleepq ≡ s.sleepq) × (s'.active ≡ s.active)

put_by_rest : (r : Resched) (s : Sched) → SameThreads s (put_by r s)
unfolding put_by runq_enqueue runq_insert
put_by_rest preempt s = (refl, refl, refl)
put_by_rest _ s = (refl, refl, refl)

put_back_rest : (s : Sched) → SameThreads s (put_back s)
unfolding put_back
put_back_rest s = elim (Bool-cases (thread_runnable (s.threads s.active))) [
  | inl run ↦ rw run (put_by_rest s.resched s)
  | inr stopped ↦ rw stopped (refl, refl, refl)
]

-- The active thread can run, no thread that can run has a higher priority, and no reschedule is
-- requested.
pub record RunsBest (s : Sched) : Type 0 where
  pub runs : thread_runnable (s.threads s.active) ≡ true
  pub best : (a : ℕ) → thread_runnable (s.threads a) ≡ true → prio_of s s.active ≤ prio_of s a
  pub settled : s.resched ≡ idle

module _ (w : ℕ → ℕ) (p : Sched) (n : ℕ) (q : List ℕ) where
  abbrev chosen : Sched
  chosen = record p { runq = q; active = n }

  module _ (f : IsFull w p) (h : p.runq ≡ n ∷ q) where
    head-Rises : (prio_of p n ≤ prio_of p n) × Rises (prio_of p) (prio_of p n) q
    head-Rises = (omega arith, (rw h at f.ordered).1)

    chosen-IsValid : p.resched ≡ idle → IsValid w chosen
    unfolding count
    chosen-IsValid i = record {
      linked = record {
        queued = λ a. ground (arith, f.full a, f.full n);
        asleep = f.asleep;
        ordered = Rises-mono (prio_of p) 0 (prio_of p n) q (omega arith) head-Rises.1;
      };
      prompt = λ _. head-Rises.1;
      posted = λ l r. absurd (r i);
    }

    chosen-RunsBest : p.resched ≡ idle → RunsBest chosen
    unfolding count
    chosen-RunsBest i = record {
      runs = ground (arith, f.full n);
      best =
          λ a r. Rises-le (prio_of p) a (prio_of p n) (n ∷ q) head-Rises (ground (arith, f.full a));
      settled = i;
    }

bury-IsValid :
    (w : ℕ → ℕ) (t : ℕ) (s : Sched)
    → AreAble s (s.sleepq (s.threads t).thread_event)
    → IsValid w s
    → IsValid w (bury t s)
unfolding bury
bury-IsValid w t s able v = elim (Bool-cases (s.threads t).zombie) [
  | inr alive ↦ rw alive v
  | inl dead ↦
      let r = (sch_wakeup-WakesAll w (s.threads t).thread_event (ok 0) s able v).valid in
      rw dead (record {
        linked = record {
          queued = r.linked.queued;
          asleep = r.linked.asleep;
          ordered = r.linked.ordered;
        };
        prompt = r.prompt;
        posted = r.posted;
      })
]

bury-alive : (t : ℕ) (s : Sched) → (s.threads t).zombie ≡ false → bury t s ≡ s
unfolding bury
bury-alive t s alive = rw alive

-- What a switch away from `s` promises: if the old thread is not dead, the best one runs.
pub record Switched (w : ℕ → ℕ) (s s' : Sched) : Type 0 where
  pub valid : IsValid w s'
  pub runs_best : (s.threads s.active).zombie ≡ false → RunsBest s' × (s'.threads ≡ s.threads)

module _ (w : ℕ → ℕ) (p : Sched) (i : p.resched ≡ idle) (f : IsFull w p) where
  take_over-Switched :
      (n : ℕ) (q : List ℕ)
      → AreAble p (p.sleepq (p.threads p.active).thread_event)
      → p.runq ≡ n ∷ q
      → Switched w p (take_over p.active n (record p { runq = q }))
  take_over-Switched n q able h = elim (Bool-cases (n == p.active)) [
    | inl same ↦
        let e : chosen w p n q ≡ record p { runq = q } =
          ap (λ a. record p { runq = q; active = a }) ((==_iff n p.active).0 same) in
        rw same (record {
          valid = subst (IsValid w) e (chosen-IsValid w p n q f h i);
          runs_best = λ _. (subst RunsBest e (chosen-RunsBest w p n q f h i), refl);
        })
    | inr differs ↦ rw differs (record {
      valid = bury-IsValid w p.active (chosen w p n q) able (chosen-IsValid w p n q f h i);
      runs_best = λ alive.
          rw (bury-alive p.active (chosen w p n q) alive) (chosen-RunsBest w p n q f h i, refl);
    })
  ]

  dispatch-Switched :
      (r : ℕ) (l : List ℕ)
      → thread_runnable (p.threads r) ≡ true
      → AreAble p (p.sleepq (p.threads p.active).thread_event)
      → p.runq ≡ l
      → (s' : Sched) × (dispatch p.active (dequeue_of l p) ≡ some s') × Switched w p s'
  unfolding dequeue_of count
  dispatch-Switched r [] run able h = absurd (ground (arith, f.full r))
  dispatch-Switched r (n ∷ q) run able h = (_, refl, take_over-Switched n q able h)

-- The scheduler lock or the lack of a request makes `sch_switch` a no-op.
pub sch_switch-spurious :
    (s : Sched)
    → (s.resched ≡ idle) ⊎ (s.locks ≢ 0)
    → sch_switch s ≡ some (record s { switch_pending = false })
unfolding sch_switch
sch_switch-spurious s h = ground arith

IsFull-of_linked :
    (w : ℕ → ℕ) (s : Sched) → IsLinked w s → IsFull w (record (put_back s) { resched = idle })
IsFull-of_linked w s v =
    let f = put_back-IsFull w s v in
    record { full = f.full; asleep = f.asleep; ordered = f.ordered }

-- The same seen from a state with the same threads.
dispatch-from :
    (w : ℕ → ℕ) (s p : Sched) (r : ℕ)
    → p.resched ≡ idle
    → SameThreads s p
    → IsFull w p
    → thread_runnable (s.threads r) ≡ true
    → AreAble s (s.sleepq (s.threads s.active).thread_event)
    → (s' : Sched) × (dispatch s.active (runq_dequeue p) ≡ some s') × Switched w s s'
unfolding runq_dequeue
dispatch-from w s p r i same f run able =
    let (s', e, d) =
      dispatch-Switched w p i f r p.runq (rw same.0 run)
        (λ a m. rw same.0 (able a (rw (same.0, same.1, same.2) at m))) refl in
    (
      s',
      rw (← same.2) e,
      record {
        valid = d.valid;
        runs_best = λ alive. let b = d.runs_best (rw (same.0, same.2) alive) in (b.0, b.1 ∙ same.0);
      },
    )

-- If a reschedule is requested, the scheduler is not locked, some thread can run, and those that
-- wait for the end of a thread of the active one's task are able to run, then `sch_switch`
-- finds a thread and leaves the scheduler valid. Unless the old thread is dead, the new one is a
-- runnable thread of the highest priority, no reschedule is left, and no thread's data changes.
pub sch_switch-Switched :
    (w : ℕ → ℕ) (s : Sched) (r : ℕ)
    → s.resched ≢ idle
    → s.locks ≡ 0
    → thread_runnable (s.threads r) ≡ true
    → AreAble s (s.sleepq (s.threads s.active).thread_event)
    → IsValid w s
    → (s' : Sched) × (sch_switch s ≡ some s') × Switched w s s'
unfolding sch_switch
sch_switch-Switched w s r asked free run able v =
    let s₀ = record s { switch_pending = false } in
    let p = record (put_back s₀) { resched = idle } in
    let goes : (is_idle s.resched || not (s.locks == 0)) ≡ false = ground arith in
    rw goes (
      dispatch-from w s p r refl (put_back_rest s₀)
        (IsFull-of_linked w s₀ (relabel-IsLinked w s _ _ _ v.linked)) run able)
