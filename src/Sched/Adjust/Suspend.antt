-- ===== src/Sched/Adjust/Suspend.antt =====
-- sch_suspend, sch_resume and sch_suspend_resume keep the scheduler valid.
use apex.Base.{
  ℕ, ◌≡◌, ◌≢◌, refl, Bool, true, false, not, ◌&&◌, ◌==◌, if◌then◌else◌, arith, count-remove, Option,
  none, some, Bool-cases, inl, inr, ==_iff,
}
use apex.Sched.Defs.{Thread, Sched, switch, prio_of, set_thread, thread_runnable, schedule, unlink}
use apex.Sched.Control.{suspend_part, resume_part, sch_suspend_resume}
use apex.Sched.Runq.{Rises-congr, Rises-mono, Rises-remove}
use apex.Sched.Valid.{IsLinked, IsPrompt, IsPosted, IsValid, schedule-IsValid}
use apex.Sched.Wake.{IsLoose, runq_enqueue-IsLinked, runq_enqueue-IsPrompt}

-- Between the two halves: the links and priorities are right, and a reschedule is posted unless
-- `schedule` is still to be called.
abbrev HalfDone : (ℕ → ℕ) → Sched × Bool → Type 0
HalfDone w (s, again) = IsLinked w s × IsPrompt s × (again ≡ false → IsPosted s)

abbrev stopped : Thread → Thread
stopped th = record th { suspend = true }

module _ (w : ℕ → ℕ) (t : ℕ) (s : Sched) (v : IsValid w s) where
  suspend_active :
      t ≡ s.active
      → IsLinked w (record (set_thread t (stopped (s.threads t)) s) { resched = switch })
  unfolding thread_runnable
  suspend_active same = record {
    queued = λ a. ground (arith, v.linked.queued a);
    asleep = λ a e. ground (arith, v.linked.asleep a e);
    ordered = Rises-congr (prio_of s) _ 0 s.runq (λ a m. ground arith) v.linked.ordered;
  }

  suspend_ready :
      t ≢ s.active
      → thread_runnable (s.threads t) ≡ true
      → IsLinked w (set_thread t (stopped (s.threads t)) (unlink t s))
  unfolding thread_runnable unlink
  suspend_ready ne run = record {
    queued = λ a. ground (arith, count-remove a t s.runq, v.linked.queued a, v.linked.queued t);
    asleep = λ a e.
        ground (arith, count-remove a t (s.sleepq e), v.linked.asleep a e, v.linked.asleep t e);
    ordered =
        Rises-congr (prio_of s) _ 0 _ (λ a m. ground arith)
          (Rises-remove (prio_of s) t 0 s.runq v.linked.ordered);
  }

  suspend_ready-IsPrompt : IsPrompt (set_thread t (stopped (s.threads t)) (unlink t s))
  unfolding unlink
  suspend_ready-IsPrompt h = Rises-mono _ _ (prio_of s s.active) _ (ground arith) (
      Rises-congr (prio_of s) _ (prio_of s s.active) _ (λ a m. ground arith)
        (Rises-remove (prio_of s) t (prio_of s s.active) s.runq (v.prompt h)))

  suspend_blocked :
      t ≢ s.active
      → thread_runnable (s.threads t) ≡ false
      → IsLinked w (set_thread t (stopped (s.threads t)) s)
  unfolding thread_runnable
  suspend_blocked ne blocked = record {
    queued = λ a. ground (arith, v.linked.queued a);
    asleep = λ a e. ground (arith, v.linked.asleep a e);
    ordered = Rises-congr (prio_of s) _ 0 s.runq (λ a m. ground arith) v.linked.ordered;
  }

  suspend_blocked-IsPrompt : IsPrompt (set_thread t (stopped (s.threads t)) s)
  suspend_blocked-IsPrompt h =
      Rises-mono _ _ (prio_of s s.active) _ (ground arith)
        (Rises-congr (prio_of s) _ (prio_of s s.active) _ (λ a m. ground arith) (v.prompt h))

suspend_part-HalfDone :
    (w : ℕ → ℕ) (o : Option ℕ) (s : Sched) → IsValid w s → HalfDone w (suspend_part o s)
unfolding suspend_part
suspend_part-HalfDone w none s v = (v.linked, v.prompt, λ _. v.posted)
suspend_part-HalfDone w (some t) s v = elim (Bool-cases (t == s.active)) [
  | inl same ↦ rw same (suspend_active w t s v ((==_iff t s.active).0 same), (λ h. cc), λ h. cc)
  | inr differs ↦ rw differs (elim (Bool-cases (thread_runnable (s.threads t))) [
    | inl run ↦
        rw run (suspend_ready w t s v (ground arith) run, suspend_ready-IsPrompt w t s v, λ h. cc)
    | inr blocked ↦
        rw blocked (
          suspend_blocked w t s v (ground arith) blocked,
          suspend_blocked-IsPrompt w t s v,
          λ h. cc,
        )
  ])
]

abbrev freed : Thread → Thread
freed th = record th { suspend = false }

module _ (w : ℕ → ℕ) (t : ℕ) (s : Sched) (held : (s.threads t).suspend ≡ true) where
  resume_ready-IsLoose :
      IsLinked w s
      → thread_runnable (freed (s.threads t)) && not (t == s.active) ≡ true
      → IsLoose w t (set_thread t (freed (s.threads t)) s)
  unfolding thread_runnable
  resume_ready-IsLoose v run = record {
    queued = λ a. ground (arith, v.queued a, v.queued t);
    asleep = λ a e. ground (arith, v.asleep a e);
    ordered = Rises-congr (prio_of s) _ 0 s.runq (λ a m. ground arith) v.ordered;
  }

  resume_blocked-IsLinked :
      IsLinked w s
      → thread_runnable (freed (s.threads t)) && not (t == s.active) ≡ false
      → IsLinked w (set_thread t (freed (s.threads t)) s)
  unfolding thread_runnable
  resume_blocked-IsLinked v blocked = record {
    queued = λ a. ground (arith, v.queued a, v.queued t);
    asleep = λ a e. ground (arith, v.asleep a e);
    ordered = Rises-congr (prio_of s) _ 0 s.runq (λ a m. ground arith) v.ordered;
  }

  resume-IsPrompt : IsPrompt s → IsPrompt (set_thread t (freed (s.threads t)) s)
  resume-IsPrompt p h =
      Rises-mono _ _ (prio_of s s.active) _ (ground arith)
        (Rises-congr (prio_of s) _ (prio_of s s.active) _ (λ a m. ground arith) (p h))

-- The thread to resume, if any, is suspended.
abbrev pub IsHeld : Option ℕ → Sched → Type 0
IsHeld none s = Unit {0}
IsHeld (some t) s = (s.threads t).suspend ≡ true

resume_part-HalfDone :
    (w : ℕ → ℕ) (o : Option ℕ) (s : Sched) (again : Bool)
    → IsHeld o s
    → HalfDone w (s, again)
    → HalfDone w (resume_part o (s, again))
unfolding resume_part
resume_part-HalfDone w none s again held d = d
resume_part-HalfDone w (some t) s again held d =
    elim (Bool-cases (thread_runnable (freed (s.threads t)) && not (t == s.active))) [
      | inl run ↦ rw run (
        runq_enqueue-IsLinked w t _ (resume_ready-IsLoose w t s held d.0 run),
        runq_enqueue-IsPrompt t _ (resume-IsPrompt w t s held d.1),
        λ h. cc,
      )
      | inr blocked ↦
          rw blocked
            (resume_blocked-IsLinked w t s held d.0 blocked, resume-IsPrompt w t s held d.1, d.2)
    ]

finish-IsValid :
    (w : ℕ → ℕ) (r : Sched × Bool) → HalfDone w r → IsValid w (if r.1 then schedule r.0 else r.0)
finish-IsValid w (s, true) d = schedule-IsValid w s d.0 d.1
finish-IsValid w (s, false) d = record { linked = d.0; prompt = d.1; posted = d.2 refl }

-- Suspending one thread and resuming another, or either alone, keeps the scheduler valid, if the
-- thread to resume is suspended once the other is.
pub sch_suspend_resume-IsValid :
    (w : ℕ → ℕ) (suspended resumed : Option ℕ) (s : Sched)
    → IsHeld resumed (suspend_part suspended s).0
    → IsValid w s
    → IsValid w (sch_suspend_resume suspended resumed s)
unfolding sch_suspend_resume
sch_suspend_resume-IsValid w suspended resumed s held v =
    let d =
      resume_part-HalfDone w resumed (suspend_part suspended s).0 (suspend_part suspended s).1 held
        (suspend_part-HalfDone w suspended s v) in
    finish-IsValid w (resume_part resumed (suspend_part suspended s)) d
