-- ===== src/Sync/Futex/Waiting.antt =====
-- futex_wait sleeps exactly when the word still has the value that its caller expects.
use apex.Base.{
  ℕ, ◌≡◌, refl, sym, ap, subst, ◌∙◌, List, [], ◌∷◌, ◌++◌, true, false, ◌==◌, if◌then◌else◌,
  Bool-cases, inl, inr, Option, none, some, arith, update,
}
use apex.Base.Int.{ℤ, pos}
use apex.Base.Status.{Status, ok, err, Errno, eagain, efault, eintr, einval}
use apex.Sched.Defs.{Thread, runq_enqueue, unlink, Sched, Resched, switch, is_idle, arch_schedule}
use apex.Sched.Sleep.{
  sch_lock, sch_unlock, sch_prepare_sleep, sch_continue_sleep, sch_wakeone, sch_unsleep,
}
use apex.Sched.Valid.{schedule_rest}
use apex.Sched.Wake.Wakeone.{sch_wakeone_lem, first_top}
use apex.Sched.Block.{sch_unlock_rest}
use apex.Sync.Wait.{Outcome, done, sleeps}
use apex.Sync.Futex.{
  futex_resume, Futex, Timespec, UserWord, same_int, is_bad_time, nsec_of, ts32_to_ns,
  futex_find_unlocked, futex_get, futex_wait, wait_on, compare_and_sleep, sleep_or_return,
}

-- A wait with a time of 0 is a wait without one: it does not time out.
pub futex_wait-zero_time :
    (malloc : Option ℕ) (u : UserWord) (fi : List Futex) (uaddr : ℕ) (val : ℤ) (s : Sched)
    → futex_wait malloc u fi uaddr val (some (record { tv_sec = pos 0; tv_nsec = pos 0 })) s
      ≡ futex_wait malloc u fi uaddr val none s
unfolding futex_wait ts32_to_ns
futex_wait-zero_time malloc u fi uaddr val s = refl

-- The two ends of a wait that was not refused.
compare_and_sleep-compares :
    (u : UserWord) (val : ℤ) (nsec e : ℕ) (fi : List Futex) (s : Sched)
    → u.begin ≡ ok 0
    → u.okfor ≡ true
    → (s.threads s.active).sig_unblocked ≡ false
    → (compare_and_sleep u.begin u val nsec e fi s).0
      ≡ (if same_int u.uval val then sleeps else done (err eagain))
unfolding compare_and_sleep sch_prepare_sleep sleep_or_return sch_lock
compare_and_sleep-compares u val nsec e fi s begun okay calm =
    rw (begun, okay)
      (elim (Bool-cases (same_int u.uval val)) [
        | inl same ↦ rw (same, calm) refl
        | inr other ↦ rw other refl
      ])

-- What a thread that went to sleep has done: it stands last in the queue, and its timer is armed
-- if it gave a time.
pub record Slept (e nsec : ℕ) (s s' : Sched) : Type 0 where
  pub queued : s'.sleepq ≡ update s.sleepq e (s.sleepq e ++ s.active ∷ [])
  pub asleep : (s'.threads s.active).sleep ≡ true
  pub waits_on : (s'.threads s.active).slpevt ≡ some e
  pub timed :
      (s'.threads s.active).timeout
      ≡ (if nsec == 0 then (s.threads s.active).timeout else some nsec)

-- What the wait of thread `t` returns when the thread runs again: 0 if sch_wakeone picked it, on
-- whatever event it was then, and the given error if sch_unsleep ended its sleep.
pub record Returns (t : ℕ) : Type 0 where
  pub by_wakeone :
      (e : ℕ) (s : Sched)
      → (sch_wakeone e s).1 ≡ some t
      → futex_resume (record (sch_wakeone e s).0 { active = t }) ≡ ok 0
  pub by_unsleep :
      (result : Status) (s : Sched)
      → (s.threads t).sleep ≡ true
      → futex_resume (record (sch_unsleep t result s) { active = t }) ≡ result

woken_result :
    (e t : ℕ) (s : Sched) (q : List ℕ)
    → s.sleepq e ≡ q
    → (sch_wakeone e s).1 ≡ some t
    → futex_resume (record (sch_wakeone e s).0 { active = t }) ≡ ok 0
unfolding futex_resume sch_wakeone
woken_result e t s [] h picked = absurd (let none_there = rw h at picked in cc)
woken_result e t s (x ∷ q) h picked =
    let (top, changed, queues) = sch_wakeone_lem e x q s h in
    let same : first_top s x q ≡ t = cc in
    ap (λ (f : ℕ → Thread). (f t).slpret) changed ∙ rw same (ground arith)

resume-Returns : (t : ℕ) → Returns t
unfolding futex_resume sch_unsleep runq_enqueue unlink
resume-Returns t = record {
  by_wakeone = λ e s. woken_result e t s (s.sleepq e) refl;
  by_unsleep = λ result s asleep. elim (Bool-cases (t == s.active)) [
    | inl here ↦ rw (asleep, here) (ground arith)
    | inr there ↦
        rw (asleep, there)
          (ap (λ (f : ℕ → Thread). (f t).slpret) (schedule_rest _).0 ∙ ground arith)
  ];
}

-- A wait goes to sleep on the event, the word as expected, and returns what its thread is woken
-- with; or it ends with an error and nothing done.
pub data Attempt (e nsec : ℕ) (u : UserWord) (val : ℤ) (s : Sched) : Outcome → Sched → Type 0 where
  slept :
      (s' : Sched)
      → same_int u.uval val ≡ true
      → Slept e nsec s s'
      → Returns s.active
      → Attempt e nsec u val s sleeps s'
  refused :
      (x : Errno) (s' : Sched)
      → s'.threads ≡ s.threads
      → s'.sleepq ≡ s.sleepq
      → Attempt e nsec u val s (done (err x)) s'

pub sch_continue_sleep_rest :
    (s : Sched)
    → ((sch_continue_sleep s).threads ≡ s.threads) × ((sch_continue_sleep s).sleepq ≡ s.sleepq)
unfolding sch_continue_sleep arch_schedule
sch_continue_sleep_rest s = elim (Bool-cases (is_idle (sleep_request s))) [
  | inl e ↦ rw e (refl, refl)
  | inr e ↦ rw e (refl, refl)
]
  where
    sleep_request : Sched → Resched
    sleep_request s = if (s.threads s.active).sleep then switch else s.resched

pub Slept-continue :
    (e nsec : ℕ) (s s' : Sched) → Slept e nsec s s' → Slept e nsec s (sch_continue_sleep s')
Slept-continue e nsec s s' k =
    let (t, q) = sch_continue_sleep_rest s' in
    record {
      queued = q ∙ k.queued;
      asleep = rw t k.asleep;
      waits_on = rw t k.waits_on;
      timed = rw t k.timed;
    }

Slept-unlock :
    (e nsec : ℕ) (s s' : Sched)
    → Slept e nsec s s'
    → Slept e nsec s (sch_continue_sleep (sch_unlock s'))
Slept-unlock e nsec s s' k =
    let (t, q, a) = sch_unlock_rest s' in
    Slept-continue e nsec s (sch_unlock s') (record {
      queued = q ∙ k.queued;
      asleep = rw t k.asleep;
      waits_on = rw t k.waits_on;
      timed = rw t k.timed;
    })

compare_and_sleep-Attempt :
    (r : Status) (u : UserWord) (val : ℤ) (nsec e : ℕ) (fi : List Futex) (s : Sched)
    → let (o, fi', s') = compare_and_sleep r u val nsec e fi s in Attempt e nsec u val s o s'
unfolding compare_and_sleep sch_prepare_sleep sleep_or_return sch_lock
compare_and_sleep-Attempt (err x) u val nsec e fi s = refused x s refl refl
compare_and_sleep-Attempt (ok n) u val nsec e fi s = elim (Bool-cases u.okfor) [
  | inr bad ↦ rw bad (refused efault s refl refl)
  | inl okay ↦ rw okay (elim (Bool-cases (same_int u.uval val)) [
    | inr other ↦
        rw other
          (refused eagain _ (sch_unlock_rest (sch_lock s)).0 (sch_unlock_rest (sch_lock s)).1)
    | inl same ↦ rw same (elim (Bool-cases (s.threads s.active).sig_unblocked) [
      | inl pending ↦
          rw pending
            (refused eintr _ (sch_unlock_rest (sch_lock s)).0 (sch_unlock_rest (sch_lock s)).1)
      | inr calm ↦ rw calm (
          slept _ same
            (Slept-unlock e nsec s _ (record {
              queued = refl;
              asleep = ground arith;
              waits_on = ground arith;
              timed = ground arith;
            }))
            (resume-Returns s.active))
    ])
  ])
]

Slept-start :
    (e nsec : ℕ) (s₀ s s' : Sched)
    → s₀.threads ≡ s.threads
    → s₀.sleepq ≡ s.sleepq
    → s₀.active ≡ s.active
    → Slept e nsec s₀ s'
    → Slept e nsec s s'
Slept-start e nsec s₀ s s' t q a k = record {
  queued = k.queued ∙ rw (q, a) refl;
  asleep = rw (sym a) k.asleep;
  waits_on = rw (sym a) k.waits_on;
  timed = rw (sym a, sym t) k.timed;
}

Attempt-start :
    (e nsec : ℕ) (u : UserWord) (val : ℤ) (s₀ s : Sched) (o : Outcome) (s' : Sched)
    → s₀.threads ≡ s.threads
    → s₀.sleepq ≡ s.sleepq
    → s₀.active ≡ s.active
    → Attempt e nsec u val s₀ o s'
    → Attempt e nsec u val s o s'
Attempt-start e nsec u val s₀ s o s₂ t q a (slept s₁ same k back) =
    slept s₁ same (Slept-start e nsec s₀ s s₁ t q a k) (subst Returns a back)
Attempt-start e nsec u val s₀ s o s₂ t q a (refused x s' t' q') = refused x s' (t' ∙ t) (q' ∙ q)

-- With a futex, the wait goes on from a spinlock taken and released.
wait_on-got :
    (malloc : Option ℕ) (u : UserWord) (fi : List Futex) (uaddr : ℕ) (val : ℤ) (nsec : ℕ)
    (f : Futex) (s : Sched)
    → (futex_get malloc fi uaddr s).0 ≡ some f
    → let r = futex_get malloc fi uaddr s in
      wait_on u val nsec r
      ≡ compare_and_sleep u.begin u val nsec f.event r.1 (sch_unlock (sch_lock s))
unfolding futex_get futex_find_unlocked wait_on
wait_on-got malloc u fi uaddr val nsec f s h = from malloc (futex_find_unlocked fi uaddr) h
  where
    from :
        (malloc : Option ℕ) (r : Option Futex)
        → let x : Option Futex × List Futex × Sched = elim r [
          | some f ↦ (some f, fi, sch_unlock (sch_lock s))
          | none ↦ elim malloc [
            | none ↦ (none, fi, sch_unlock (sch_lock s))
            | some e ↦
                let g : Futex = record { addr = uaddr; event = e } in
                (some g, g ∷ fi, sch_unlock (sch_lock s))
          ]
        ] in
          x.0 ≡ some f
          → wait_on u val nsec x
            ≡ compare_and_sleep u.begin u val nsec f.event x.1 (sch_unlock (sch_lock s))
    from malloc (some g) h = let e : g ≡ f = cc in rw e refl
    from none none h = absurd (cc)
    from (some e) none h = let e' : record { addr = uaddr; event = e } ≡ f = cc in rw (sym e') refl

-- A call of futex_wait that gets a futex goes to sleep on the event of that futex, last in its
-- queue, only if the word has the expected value; its timer is armed for the time given, or not
-- for a time of 0 or none. It then returns 0 if sch_wakeone picks its thread, on whatever event,
-- and the result that sch_unsleep gives it. Otherwise it fails, and no thread and no sleep queue
-- has changed.
pub futex_wait-Attempt :
    (malloc : Option ℕ) (u : UserWord) (fi : List Futex) (uaddr : ℕ) (val : ℤ)
    (ts : Option Timespec) (f : Futex) (s : Sched)
    → (futex_get malloc fi uaddr s).0 ≡ some f
    → let (o, fi', s') = futex_wait malloc u fi uaddr val ts s in
      Attempt f.event (nsec_of ts) u val s o s'
unfolding futex_wait wait_on sch_lock
futex_wait-Attempt malloc u fi uaddr val ts f s h = elim (Bool-cases (is_bad_time ts)) [
  | inl bad ↦ rw bad (refused einval s refl refl)
  | inr good ↦
      let s₀ = sch_unlock (sch_lock s) in
      let (t, q, a) = sch_unlock_rest (sch_lock s) in
      rw (good, wait_on-got malloc u fi uaddr val (nsec_of ts) f s h)
        (Attempt-start f.event (nsec_of ts) u val s₀ s _ _ t q a
          (compare_and_sleep-Attempt u.begin u val (nsec_of ts) f.event _ s₀))
]

-- If the time is valid, there is a futex, the word can be read and no signal is pending, futex_wait
-- sleeps if the word has the expected value, and returns EAGAIN if it has not.
pub futex_wait-compares :
    (malloc : Option ℕ) (u : UserWord) (fi : List Futex) (uaddr : ℕ) (val : ℤ)
    (ts : Option Timespec) (f : Futex) (s : Sched)
    → is_bad_time ts ≡ false
    → (futex_get malloc fi uaddr s).0 ≡ some f
    → u.begin ≡ ok 0
    → u.okfor ≡ true
    → (s.threads s.active).sig_unblocked ≡ false
    → (futex_wait malloc u fi uaddr val ts s).0
      ≡ (if same_int u.uval val then sleeps else done (err eagain))
unfolding futex_wait sch_lock
futex_wait-compares malloc u fi uaddr val ts f s good h begun okay calm =
    let s₀ = sch_unlock (sch_lock s) in
    let (t, q, a) = sch_unlock_rest (sch_lock s) in
    rw (good, wait_on-got malloc u fi uaddr val (nsec_of ts) f s h)
      (compare_and_sleep-compares u val (nsec_of ts) f.event _ s₀ begun okay (rw (a, t) calm))
