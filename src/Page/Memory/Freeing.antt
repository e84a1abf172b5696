-- ===== src/Page/Memory/Freeing.antt =====
-- page_free and page_valid over all regions.
use apex.Base.{
  ℕ, zero, suc, ◌-◌, ◌^◌, ◌≤◌, ◌<◌, ◌≡◌, refl, ap, true, false, Option, none, some, ◌==◌,
  if◌then◌else◌, arith, Bool-cases, inl, inr, ==_iff,
}
use apex.Base.Status.{Status, ok, err, Errno, efault}
use apex.Page.{Region}
use apex.Page.Regions.{free_loop}
use apex.Page.Regions.Freeing.{FreedRange, free_loop-FreedRange}
use apex.Page.Memory.{
  Memory, set_region, find_region, refusal, verify, all_valid, free_in, page_free, page_valid,
}
use apex.Page.Memory.Ranges.{
  IsMemory, Holds, find_region-Holds, verify-none, Refused, first_of-none, verify-Refused,
  not_refused-not_free, begin_of, end_of, begin-lt-end, end-le,
}

-- What page_free does: it refuses the range and changes nothing, or frees its pages.
pub data Freeing (page_size : ℕ) (m : Memory) (addr len : ℕ) (owner : Option ℕ)
    : Status → Memory → Type 0 where
  no_bytes : len ≡ 0 → Freeing page_size m addr len owner (ok 0) m
  no_region : find_region m addr len ≡ none → Freeing page_size m addr len owner (err efault) m
  refused :
      (i : ℕ) (e : Errno)
      → Holds m addr len i
      → Refused
          (end_of page_size m addr len i - begin_of page_size m addr i)
          (begin_of page_size m addr i)
          owner
          (m.regions i)
          e
      → Freeing page_size m addr len owner (err e) m
  freed :
      (i : ℕ) (r' : Region)
      → Holds m addr len i
      → ((q : ℕ)
          → begin_of page_size m addr i ≤ q
          → q < end_of page_size m addr len i
          → refusal owner ((m.regions i).pages q) ≡ none)
      → FreedRange (m.regions i) (begin_of page_size m addr i) (end_of page_size m addr len i) r'
      → Freeing page_size m addr len owner (ok 0) (set_region i r' m)

-- `page_free` returns, and does what `Freeing` says.
abbrev pub Returns : ℕ → Memory → ℕ → ℕ → Option ℕ → Option (Status × Memory) → Type 0
Returns page_size m addr len owner result =
    (status : Status) × (m' : Memory) × (result ≡ some (status, m'))
    × Freeing page_size m addr len owner status m'

module _ (page_size : ℕ) (m : Memory) (addr len : ℕ) (owner : Option ℕ) (v : IsMemory page_size m)
    (i : ℕ) (here : Holds m addr len i) (some_bytes : 0 < len) where
  abbrev begin : ℕ
  begin = begin_of page_size m addr i

  abbrev last : ℕ
  last = end_of page_size m addr len i

  abbrev done : Option Region → Option (Status × Memory)
  done x = elim x [ none ↦ none | some r' ↦ some (ok 0, set_region i r' m) ]

  -- What is left of the call, by what the check of the range says.
  abbrev finish : Option Errno → Option (Status × Memory)
  finish refusal = elim refusal [
    | some e ↦ some (err e, m)
    | none ↦ done (free_loop page_size (suc (last - begin)) begin last (m.regions i))
  ]

  free_in-Returns : Returns page_size m addr len owner (free_in page_size m i addr len owner)
  unfolding free_in
  free_in-Returns = by_verify (verify (last - begin) begin owner (m.regions i)) refl
    where
      by_verify :
          (refusal : Option Errno)
          → verify (last - begin) begin owner (m.regions i) ≡ refusal
          → Returns page_size m addr len owner (finish refusal)
      by_verify (some e) h =
          (err e, m, refl, refused i e here (verify-Refused _ begin owner (m.regions i) e h))
      by_verify none h =
          let held = verify-none (last - begin) begin owner (m.regions i) h in
          let (r', e, f) =
            free_loop-FreedRange page_size (suc (last - begin)) begin last (m.regions i)
              (v.regions i here.exists)
              (omega (arith, begin-lt-end page_size m addr len v i here some_bytes))
              (end-le page_size m addr len v i here some_bytes) (omega arith)
              (λ q l u. not_refused-not_free owner _ (held q l (omega (arith, u, l)))) in
          (
            ok 0,
            set_region i r' m,
            ap done e,
            freed i r' here (λ q l u. held q l (omega (arith, u, l))) f,
          )

-- page_free always returns: it refuses the range and changes nothing, or it frees its pages.
pub page_free-Returns :
    (page_size : ℕ) (m : Memory) (addr len : ℕ) (owner : Option ℕ)
    → IsMemory page_size m
    → addr < 2 ^ 32
    → len < 2 ^ 32
    → Returns page_size m addr len owner (page_free page_size m addr len owner)
unfolding page_free
page_free-Returns page_size m addr len owner v la ll = elim (Bool-cases (len == 0)) [
  | inl empty ↦ (ok 0, m, rw empty refl, no_bytes ((==_iff len 0).0 empty))
  | inr bytes ↦ rw bytes (by_region (find_region m addr len) refl (ground arith))
]
  where
    by_region :
        (found : Option ℕ)
        → find_region m addr len ≡ found
        → 0 < len
        → Returns page_size m addr len owner (elim found [
          | none ↦ some (err efault, m)
          | some i ↦ free_in page_size m i addr len owner
        ])
    by_region none h bytes = (err efault, m, refl, no_region h)
    by_region (some i) h bytes =
        free_in-Returns page_size m addr len owner v i (find_region-Holds m addr len i la ll h)
          bytes

valid_page :
    (n i : ℕ) (owner : Option ℕ) (r : Region)
    → refusal owner (r.pages i) ≡ none
    → all_valid n (suc i) owner r ≡ true
    → all_valid (suc n) i owner r ≡ true
unfolding all_valid
valid_page n i owner r h rest = ground arith

verify-all_valid :
    (n i : ℕ) (owner : Option ℕ) (r : Region)
    → verify n i owner r ≡ none
    → all_valid n i owner r ≡ true
unfolding verify all_valid
verify-all_valid zero i owner r h = refl
verify-all_valid (suc n) i owner r h =
    let (first, rest) = first_of-none (refusal owner (r.pages i)) (verify n (suc i) owner r) h in
    valid_page n i owner r first (verify-all_valid n (suc i) owner r rest)

abbrev success : Memory → Option (Status × Memory)
success m = some (ok 0, m)

-- The check has passed where the call succeeds.
free_in-verify :
    (page_size : ℕ) (m m' : Memory) (i addr len : ℕ) (owner : Option ℕ)
    → free_in page_size m i addr len owner ≡ some (ok 0, m')
    → verify
        (end_of page_size m addr len i - begin_of page_size m addr i)
        (begin_of page_size m addr i)
        owner
        (m.regions i)
      ≡ none
unfolding free_in
free_in-verify page_size m m' i addr len owner h =
    by_verify
      (verify (end_of page_size m addr len i - begin_of page_size m addr i)
        (begin_of page_size m addr i) owner (m.regions i))
      h
  where
    by_verify :
        (x : Option Errno)
        → (elim x [
          | some e ↦ some (err e, m)
          | none ↦
              elim (free_loop page_size
                (suc (end_of page_size m addr len i - begin_of page_size m addr i))
                (begin_of page_size m addr i)
                (end_of page_size m addr len i)
                (m.regions i)) [ none ↦ none | some r' ↦ success (set_region i r' m) ]
        ])
          ≡ success m'
        → x ≡ none
    by_verify none h = refl
    by_verify (some e) h = absurd (cc)

-- If page_free frees a range that is not empty, page_valid held of it.
pub page_free-page_valid :
    (page_size : ℕ) (m m' : Memory) (addr len : ℕ) (owner : Option ℕ)
    → 0 < len
    → page_free page_size m addr len owner ≡ some (ok 0, m')
    → page_valid page_size m addr len owner ≡ true
unfolding page_free page_valid
page_free-page_valid page_size m m' addr len owner bytes h =
    by_region (find_region m addr len) (rw (let c : (len == 0) ≡ false = ground arith in c) at h)
  where
    by_region :
        (found : Option ℕ)
        → (elim found [
          | none ↦ some (err efault, m)
          | some i ↦ free_in page_size m i addr len owner
        ])
          ≡ success m'
        → (elim found [
          | none ↦ false
          | some i ↦
              if len == 0
              then true
              else all_valid
                  (end_of page_size m addr len i - begin_of page_size m addr i)
                  (begin_of page_size m addr i)
                  owner
                  (m.regions i)
        ])
          ≡ true
    by_region none h = absurd (cc)
    by_region (some i) h = rw (let c : (len == 0) ≡ false = ground arith in c) (
        verify-all_valid _ _ owner (m.regions i) (free_in-verify page_size m m' i addr len owner h))
