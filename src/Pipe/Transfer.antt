-- ===== src/Pipe/Transfer.antt =====
-- pipe_write and pipe_read move bytes in order, without loss, within the buffer.
use apex.Base.{
  ℕ, zero, suc, ◌+◌, ◌-◌, ◌%◌, ◌≤◌, ◌<◌, ◌≡◌, ◌≢◌, inl, inr, refl, ap, ◌∙◌, sym, min, List, ◌++◌,
  append-nil, append_assoc, ◌==◌, if◌then◌else◌, arith, length, take, drop, length-take,
  length-drop, take-append-take, Option, none, some, Bool, false, Bool-cases, ltb,
}
use apex.Base.Status.{Status, ok, err, eagain}
use apex.Pipe.{
  Pipe, pipe_buf, word, used, Stop, finished, failed, waits, write_chunk, write_loop, pipe_write,
  transfer_result,
}
use apex.Pipe.Contents.{contents, window-copy_in}

-- The counters are machine words, no more than the buffer apart.
pub record IsValid (p : Pipe) : Type 0 where
  pub wr_word : p.wr < word
  pub rd_word : p.rd < word
  pub fits : used p ≤ pipe_buf

-- What one pass of the write loop does.
record Wrote (p : Pipe) (xs : List ℕ) (p' : Pipe) (len : ℕ) : Type 0 where
  valid : IsValid p'
  grown : used p' ≡ used p + len
  bytes : contents p' ≡ contents p ++ take len xs
  kept : (p'.read_fds ≡ p.read_fds) × (p'.write_fds ≡ p.write_fds)
  bounded : (len ≤ length xs) × (used p + len ≤ pipe_buf)
  moves : length xs ≢ 0 → used p < pipe_buf → 0 < len

write_chunk-Wrote :
    (p : Pipe) (xs : List ℕ) → IsValid p → let (p', len) = write_chunk p xs in Wrote p xs p' len
unfolding write_chunk
write_chunk-Wrote p xs v = record {
  valid = omega arith;
  grown = omega arith;
  bytes =
      window-copy_in (take (write_chunk p xs).1 xs) p.buf p.rd (used p) (p.wr % pipe_buf) _
        (omega (arith, length-take (write_chunk p xs).1 xs)) (omega arith)
        (omega (arith, length-take (write_chunk p xs).1 xs)) (omega arith);
  kept = (refl, refl);
  bounded = omega arith;
  moves = λ ne lt. omega arith;
}

abbrev pub room : Pipe → ℕ
room p = pipe_buf - used p

-- How a call ends that cannot write or read all that it is asked for.
abbrev pub held_up : Bool → Stop
held_up nonblock = if nonblock then failed eagain else waits

-- What a write promises: as many bytes as there is room for are added, in order; it waits, or
-- fails with EAGAIN, only if that is not all of them.
pub record WroteAll (nonblock : Bool) (p : Pipe) (xs : List ℕ) (n : ℕ) (r : Pipe × ℕ × Stop)
    : Type 0 where
  pub valid : IsValid r.0
  pub bytes : contents r.0 ≡ contents p ++ take (min (length xs) (room p)) xs
  pub number : r.1 ≡ n + min (length xs) (room p)
  pub stop : r.2 ≡ (if ltb (room p) (length xs) then held_up nonblock else finished)

take-zero : (m : ℕ) (l xs : List ℕ) → m ≡ 0 → l ≡ l ++ take m xs
take-zero m l xs e = rw e (sym (append-nil l))

WroteAll-step :
    (nonblock : Bool) (p p' : Pipe) (xs : List ℕ) (n len : ℕ) (r : Pipe × ℕ × Stop)
    → Wrote p xs p' len
    → WroteAll nonblock p' (drop len xs) (n + len) r
    → WroteAll nonblock p xs n r
WroteAll-step nonblock p p' xs n len r c rest =
    let left = length-drop len xs in
    record {
      valid = rest.valid;
      bytes =
          rest.bytes
          ∙ ap (λ l. l ++ take (min (length (drop len xs)) (room p')) (drop len xs)) c.bytes
          ∙ append_assoc (contents p) (take len xs) _
          ∙ ap (◌++◌ (contents p)) (
              take-append-take len (min (length (drop len xs)) (room p')) (min (length xs) (room p))
                xs (omega (arith, left, c.grown, c.bounded)));
      number = omega (arith, left, c.grown, c.bounded, rest.number);
      stop = ground (arith, rest.stop, left, c.grown, c.bounded);
    }

write_loop-WroteAll :
    (fuel : ℕ) (nonblock : Bool) (p : Pipe) (xs : List ℕ) (n : ℕ)
    → length xs < fuel
    → p.read_fds ≢ 0
    → IsValid p
    → WroteAll nonblock p xs n (write_loop fuel nonblock p xs n)
unfolding write_loop
write_loop-WroteAll zero nonblock p xs n enough readers v = absurd (omega arith)
write_loop-WroteAll (suc fuel) nonblock p xs n enough readers v =
    elim (Bool-cases (length xs == 0)) [
      | inl done ↦ rw done (record {
        valid = v;
        bytes = take-zero _ (contents p) xs (ground arith);
        number = ground arith;
        stop = ground arith;
      })
      | inr more ↦
          let reads : (p.read_fds == 0) ≡ false = ground arith in
          rw (more, reads)
            (elim (Bool-cases (used p == pipe_buf)) [
              | inl full ↦ rw full (record {
                valid = v;
                bytes = take-zero _ (contents p) xs (ground arith);
                number = ground arith;
                stop = ground arith;
              })
              | inr free ↦
                  let c = write_chunk-Wrote p xs v in
                  rw free (
                    WroteAll-step nonblock p (write_chunk p xs).0 xs n (write_chunk p xs).1 _ c (
                      write_loop-WroteAll fuel nonblock (write_chunk p xs).0
                        (drop (write_chunk p xs).1 xs) (n + (write_chunk p xs).1)
                        (ground (arith, length-drop (write_chunk p xs).1 xs, c.moves))
                        (rw c.kept.0 readers) c.valid))
            ])
    ]

-- What a write returns: the number of bytes, if all are written or the descriptor does not block;
-- EAGAIN if it does not block and none is; and nothing yet if it waits.
abbrev pub write_returns : Bool → Pipe → List ℕ → Option Status
write_returns nonblock p xs =
    if ltb (room p) (length xs)
    then (if nonblock then some (if room p == 0 then err eagain else ok (room p)) else none)
    else some (ok (length xs))

-- On a valid pipe with a reader, pipe_write adds as many of the bytes as there is room for, in order
-- and behind those that are there, and keeps the pipe valid. It returns their number if that is
-- all or if it must not block, but EAGAIN if it must not block and there is no room for any;
-- otherwise it waits for room for the others.
pub pipe_write-WroteAll :
    (nonblock : Bool) (p : Pipe) (xs : List ℕ)
    → p.read_fds ≢ 0
    → IsValid p
    → let (p', written, stop, returned) = pipe_write nonblock p xs in
      WroteAll nonblock p xs 0 (p', written, stop) × (returned ≡ write_returns nonblock p xs)
unfolding pipe_write transfer_result
pipe_write-WroteAll nonblock p xs readers v =
    let w = write_loop-WroteAll (suc (length xs)) nonblock p xs 0 (omega arith) readers v in
    (w, rw (w.stop, w.number) (ground arith))
