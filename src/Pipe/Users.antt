-- ===== src/Pipe/Users.antt =====
-- Opening and closing a pipe, and a pipe as a whole: written bytes are read back.
use apex.Base.{
  ℕ, zero, suc, ◌+◌, ◌≤◌, ◌≡◌, ◌≢◌, ◌⊎◌, refl, ap, ◌∙◌, sym, min, List, [], ◌∷◌, ◌++◌, append-nil,
  arith, length, length-append, Bool, true, false, some, take,
}
use apex.Base.Status.{ok, err, einval, enxio}
use apex.Pipe.{
  Pipe, live, freed, Access, rdonly, wronly, rdwr, pipe_open, pipe_close, close_by, used, pipe_buf,
  pipe_write, pipe_read,
}
use apex.Pipe.Contents.{contents, length-window, window}
use apex.Pipe.Transfer.{IsValid, room, pipe_write-WroteAll}
use apex.Pipe.Reading.{pipe_read-ReadAll}

-- Readers and writers of a pipe.
abbrev pub users : Pipe → ℕ
users p = p.read_fds + p.write_fds

abbrev pub Has : Access → Pipe → Type 0
Has rdonly p = p.read_fds ≢ 0
Has wronly p = p.write_fds ≢ 0
Has rdwr p = Unit {0}

-- A successful open adds a user of the kind asked for; one for both reading and writing is
-- refused, as is a writer that must not block where nobody reads.
pub pipe_open_lem :
    (memory nonblock : Bool) (page : ℕ → ℕ) (p : Pipe)
    → (pipe_open true memory page rdonly nonblock (live p)
        ≡ some (ok 0, live (record p { read_fds = p.read_fds + 1 })))
      × ((nonblock ≡ false) ⊎ (p.read_fds ≢ 0)
          → pipe_open true memory page wronly nonblock (live p)
            ≡ some (ok 0, live (record p { write_fds = p.write_fds + 1 })))
      × (nonblock ≡ true
          → p.read_fds ≡ 0
          → pipe_open true memory page wronly nonblock (live p) ≡ some (err enxio, live p))
      × (pipe_open true memory page rdwr nonblock (live p) ≡ some (err einval, live p))
unfolding pipe_open
pipe_open_lem memory nonblock page p = (refl, λ h. ground arith, λ n e. ground arith, refl)

-- Closing takes one user away, and frees the pipe exactly when that was the last.
pub pipe_close_lem :
    (a : Access) (p : Pipe)
    → a ≢ rdwr
    → Has a p
    → (users p ≡ 1 → pipe_close true a (live p) ≡ some (ok 0, freed))
      × (users p ≢ 1
          → (p' : Pipe) × (pipe_close true a (live p) ≡ some (ok 0, live p'))
            × (users p' + 1 ≡ users p)
            × (contents p' ≡ contents p))
unfolding pipe_close
pipe_close_lem rdonly p ne h =
    (λ one. ground arith, λ more. (close_by rdonly p, ground arith, ground arith, refl))
pipe_close_lem wronly p ne h =
    (λ one. ground arith, λ more. (close_by wronly p, ground arith, ground arith, refl))
pipe_close_lem rdwr p ne h = absurd (ne refl)

no_tail : (xs ys zs : List ℕ) → xs ≡ ys ++ zs → length xs ≡ length ys → ys ≡ xs
no_tail xs ys [] e l = sym (e ∙ append-nil ys)
no_tail xs ys (z ∷ zs) e l = absurd (omega (arith, ap length e, length-append ys (z ∷ zs)))

take_all : (n : ℕ) (xs : List ℕ) → n ≡ length xs → take n xs ≡ xs
take_all zero [] h = refl
take_all (suc n) [] h = refl
take_all zero (x ∷ xs) h = absurd (omega arith)
take_all (suc n) (x ∷ xs) h = ap (◌∷◌ x) (take_all n xs (omega arith))

no_bytes : (buf : ℕ → ℕ) (h n : ℕ) → n ≡ 0 → window buf h n ≡ []
no_bytes buf h n e = rw e

-- Up to PIPE_BUF bytes written to an empty pipe with a reader are read back as they were.
pub pipe_read-write :
    (nonblock nonblock' : Bool) (p : Pipe) (xs : List ℕ)
    → p.read_fds ≢ 0
    → used p ≡ 0
    → length xs ≤ pipe_buf
    → IsValid p
    → (pipe_read nonblock' (pipe_write nonblock p xs).0 (length xs)).1 ≡ xs
pipe_read-write nonblock nonblock' p xs readers empty fits v =
    let w = (pipe_write-WroteAll nonblock p xs readers v).0 in
    let q = (pipe_write nonblock p xs).0 in
    let r = (pipe_read-ReadAll nonblock' q (length xs) w.valid).0 in
    let holds : contents q ≡ xs =
      w.bytes
      ∙ ap (λ l. l ++ take (min (length xs) (room p)) xs) (no_bytes p.buf p.rd (used p) empty)
      ∙ take_all (min (length xs) (room p)) xs (omega arith) in
    let full : used q ≡ length xs = sym (length-window q.buf q.rd (used q)) ∙ ap length holds in
    r.result ∙ no_tail xs r.taken _ (sym holds ∙ r.split) (omega (arith, r.number))
