-- ===== src/Sync/Futex/Lookup.antt =====
-- The list of futexes as a map from addresses to events.
use apex.Base.{
  ℕ, ◌≤◌, ◌≡◌, refl, sym, ◌==◌, if◌then◌else◌, arith, Option, none, some, List, [], ◌∷◌, count, map,
  Bool-cases, inl, inr, ==_iff,
}
use apex.Sched.Defs.{Sched}
use apex.Sync.Futex.{Futex, futex_find_unlocked, futex_get}

-- No address has two futexes, and no two futexes share an event.
pub record IsMap (fi : List Futex) : Type 0 where
  pub addresses : (a : ℕ) → count a (map (λ f. f.addr) fi) ≤ 1
  pub events : (e : ℕ) → count e (map (λ f. f.event) fi) ≤ 1

pub find-addr :
    (fi : List Futex) (uaddr : ℕ) (f : Futex)
    → futex_find_unlocked fi uaddr ≡ some f
    → f.addr ≡ uaddr
unfolding futex_find_unlocked
find-addr [] uaddr f h = absurd (cc)
find-addr (g ∷ fi) uaddr f h = elim (Bool-cases (g.addr == uaddr)) [
  | inl same ↦
      let found : ◌≡◌ {A = Option Futex} (some g) (some f) = rw same at h in
      let e : g ≡ f = cc in rw (sym e) ((==_iff g.addr uaddr).0 same)
  | inr other ↦ find-addr fi uaddr f (rw other at h)
]

find-nil :
    (fi : List Futex) (uaddr : ℕ)
    → futex_find_unlocked fi uaddr ≡ none
    → count uaddr (map (λ f. f.addr) fi) ≡ 0
unfolding futex_find_unlocked count
find-nil [] uaddr h = refl
find-nil (g ∷ fi) uaddr h = elim (Bool-cases (g.addr == uaddr)) [
  | inl same ↦ absurd (let h' = rw same at h in cc)
  | inr other ↦ ground (arith, find-nil fi uaddr (rw other at h))
]

-- What `futex_get` gives for an address. It fails only where `malloc` does and there is nothing to
-- find; otherwise the address now has the futex, and every other address has what it had.
pub data Got (malloc : Option ℕ) (fi : List Futex) (uaddr : ℕ)
    : Option Futex → List Futex → Type 0 where
  got :
      (f : Futex) (fi' : List Futex)
      → f.addr ≡ uaddr
      → ((a : ℕ)
          → futex_find_unlocked fi' a ≡ (if uaddr == a then some f else futex_find_unlocked fi a))
      → IsMap fi'
      → Got malloc fi uaddr (some f) fi'
  failed : malloc ≡ none → futex_find_unlocked fi uaddr ≡ none → Got malloc fi uaddr none fi

find-found :
    (fi : List Futex) (uaddr : ℕ) (f : Futex)
    → futex_find_unlocked fi uaddr ≡ some f
    → (a : ℕ) → futex_find_unlocked fi a ≡ (if uaddr == a then some f else futex_find_unlocked fi a)
find-found fi uaddr f h a = elim (Bool-cases (uaddr == a)) [
  | inl same ↦ rw same (rw (sym ((==_iff uaddr a).0 same)) h)
  | inr other ↦ rw other refl
]

added-IsMap :
    (e : ℕ) (fi : List Futex) (uaddr : ℕ)
    → futex_find_unlocked fi uaddr ≡ none
    → count e (map (λ f. f.event) fi) ≡ 0
    → IsMap fi
    → IsMap (record { addr = uaddr; event = e } ∷ fi)
unfolding count
added-IsMap e fi uaddr none_there new m = record {
  addresses = λ a. ground (arith, find-nil fi uaddr none_there, m.addresses a);
  events = λ a. ground (arith, new, m.events a);
}

-- futex_get finds the futex of an address or makes one, and afterwards the list finds that futex
-- at this address, and at every other address what it found before; each address keeps one futex
-- at most, and each futex its own event. It fails only if there is none and malloc fails. This
-- needs that the new futex gets an event that no futex of the list has.
pub futex_get-Got :
    (malloc : Option ℕ) (fi : List Futex) (uaddr : ℕ) (s : Sched)
    → IsMap fi
    → ((e : ℕ) → malloc ≡ some e → count e (map (λ f. f.event) fi) ≡ 0)
    → let (f, fi', s') = futex_get malloc fi uaddr s in Got malloc fi uaddr f fi'
unfolding futex_get futex_find_unlocked
futex_get-Got malloc fi uaddr s m new = by_find malloc (futex_find_unlocked fi uaddr) refl new
  where
    by_find :
        (malloc : Option ℕ) (r : Option Futex)
        → futex_find_unlocked fi uaddr ≡ r
        → ((e : ℕ) → malloc ≡ some e → count e (map (λ f. f.event) fi) ≡ 0)
        → let (f, fi', s') = futex_get malloc fi uaddr s in Got malloc fi uaddr f fi'
    by_find malloc (some f) h new =
        rw (futex_get, h) (got f fi (find-addr fi uaddr f h) (find-found fi uaddr f h) m)
    by_find none none h new = rw (futex_get, h) (failed refl h)
    by_find (some e) none h new =
        rw (futex_get, h)
          (got (record { addr = uaddr; event = e }) _ refl (λ a. refl)
            (added-IsMap e fi uaddr h (new e refl) m))
