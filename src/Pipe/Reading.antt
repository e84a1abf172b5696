-- ===== src/Pipe/Reading.antt =====
-- pipe_read takes the oldest bytes, and what pipe_write wrote comes out unchanged.
use apex.Base.{
  ℕ, zero, suc, ◌+◌, ◌-◌, ◌%◌, ◌≤◌, ◌<◌, ◌≡◌, ◌≢◌, inl, inr, refl, ap, ◌∙◌, sym, min, List, [],
  ◌++◌, append-nil, append_assoc, ◌==◌, if◌then◌else◌, arith, length, length-append, Bool, not,
  Option, none, some, ◌&&◌, ◌||◌, Bool-cases, ltb,
}
use apex.Base.Status.{Status, ok, err, eagain}
use apex.Pipe.{
  Pipe, transfer_result, pipe_buf, word, used, Stop, finished, read_chunk, read_loop, pipe_read,
}
use apex.Pipe.Contents.{
  window, contents, length-window, window-wrap, window-append, copy_out-window,
}
use apex.Pipe.Transfer.{IsValid, held_up}

-- What one pass of the read loop does.
record Took (p : Pipe) (size : ℕ) (p' : Pipe) (bytes : List ℕ) : Type 0 where
  valid : IsValid p'
  shrunk : used p' + length bytes ≡ used p
  split : contents p ≡ bytes ++ contents p'
  kept : (p'.read_fds ≡ p.read_fds) × (p'.write_fds ≡ p.write_fds)
  bounded : length bytes ≤ size
  moves : size ≢ 0 → used p ≢ 0 → 0 < length bytes

abbrev chunk : Pipe → ℕ → ℕ
chunk p size = min size (min (used p) (pipe_buf - p.rd % pipe_buf))

read_chunk-bytes :
    (p : Pipe) (size : ℕ) → IsValid p → (read_chunk p size).1 ≡ window p.buf p.rd (chunk p size)
unfolding read_chunk
read_chunk-bytes p size v =
    copy_out-window (chunk p size) p.buf (p.rd % pipe_buf) p.rd (omega arith) (omega arith)

read_chunk-Took :
    (p : Pipe) (size : ℕ) → IsValid p → let (p', bytes) = read_chunk p size in Took p size p' bytes
unfolding read_chunk
read_chunk-Took p size v =
    let same = read_chunk-bytes p size v in
    let len : length (read_chunk p size).1 ≡ chunk p size =
      ap length same ∙ length-window p.buf p.rd (chunk p size) in
    record {
      valid = omega arith;
      shrunk = omega (arith, len);
      split =
          window-append p.buf p.rd (chunk p size) (used p - chunk p size) (used p) (omega arith)
          ∙ ap (λ l. l ++ window p.buf (p.rd + chunk p size) (used p - chunk p size)) (sym same)
          ∙ ap (◌++◌ (read_chunk p size).1) (
              window-wrap p.buf (p.rd + chunk p size) ((p.rd + chunk p size) % word)
                (used p - chunk p size) (omega arith)
              ∙ ap (window p.buf ((p.rd + chunk p size) % word)) (omega arith));
      kept = (refl, refl);
      bounded = omega (arith, len);
      moves = λ s u. omega (arith, len);
    }

-- What a read promises: the oldest bytes, as many as are asked for and there, are taken out in
-- order. It waits, or fails with EAGAIN, only if there are none at all and a writer is open.
pub record ReadAll (nonblock : Bool) (p : Pipe) (size : ℕ) (out : List ℕ) (r : Pipe × List ℕ × Stop)
    : Type 0 where
  pub valid : IsValid r.0
  pub taken : List ℕ
  pub split : contents p ≡ taken ++ contents r.0
  pub result : r.1 ≡ out ++ taken
  pub number : length taken ≡ min size (used p)
  pub stop : r.2 ≡ (
      if ltb (used p) size
      then (if (p.write_fds == 0) || not (length out + length taken == 0)
          then finished
          else held_up nonblock)
      else finished)

ReadAll-step :
    (nonblock : Bool) (p p' : Pipe) (size : ℕ) (out bytes : List ℕ) (r : Pipe × List ℕ × Stop)
    → Took p size p' bytes
    → ReadAll nonblock p' (size - length bytes) (out ++ bytes) r
    → ReadAll nonblock p size out r
ReadAll-step nonblock p p' size out bytes r c rest = record {
  valid = rest.valid;
  taken = bytes ++ rest.taken;
  split = c.split ∙ ap (◌++◌ bytes) rest.split ∙ sym (append_assoc bytes rest.taken (contents r.0));
  result = rest.result ∙ append_assoc out bytes rest.taken;
  number = omega (arith, c.shrunk, c.bounded, rest.number, length-append bytes rest.taken);
  stop = ground (
    arith,
    rest.stop,
    c.shrunk,
    c.bounded,
    c.kept.1,
    length-append bytes rest.taken,
    length-append out bytes,
  );
}

read_loop-ReadAll :
    (fuel : ℕ) (nonblock : Bool) (p : Pipe) (size : ℕ) (out : List ℕ)
    → size < fuel
    → IsValid p
    → ReadAll nonblock p size out (read_loop fuel nonblock p size out)
unfolding read_loop
read_loop-ReadAll zero nonblock p size out enough v = absurd (omega arith)
read_loop-ReadAll (suc fuel) nonblock p size out enough v = elim (Bool-cases (size == 0)) [
  | inl done ↦ rw done (record {
    valid = v;
    taken = [];
    split = refl;
    result = sym (append-nil out);
    number = ground arith;
    stop = ground arith;
  })
  | inr more ↦ rw more (elim (Bool-cases (used p == 0)) [
    | inl empty ↦ rw empty (record {
      valid = v;
      taken = [];
      split = refl;
      result = sym (append-nil out);
      number = ground arith;
      stop = ground arith;
    })
    | inr some_left ↦
        let c = read_chunk-Took p size v in
        rw some_left (
          ReadAll-step nonblock p (read_chunk p size).0 size out (read_chunk p size).1 _ c (
            read_loop-ReadAll fuel nonblock (read_chunk p size).0
              (size - length (read_chunk p size).1) (out ++ (read_chunk p size).1)
              (ground (arith, c.moves, c.bounded)) c.valid))
  ])
]

-- What a read returns: the number of bytes taken; or, if it is asked for bytes, there are none and a
-- writer is open, EAGAIN if it must not block, and else nothing yet.
abbrev pub read_returns : Bool → Pipe → ℕ → Option Status
read_returns nonblock p size =
    if (used p == 0) && not (size == 0) && not (p.write_fds == 0)
    then (if nonblock then some (err eagain) else none)
    else some (ok (min size (used p)))

-- On a valid pipe, pipe_read takes out the oldest bytes in order, as many as are asked for and
-- there, keeps the pipe valid and returns their number; but it waits, or fails with EAGAIN if it
-- must not block, exactly when it is asked for bytes, there are none and a writer is open.
pub pipe_read-ReadAll :
    (nonblock : Bool) (p : Pipe) (size : ℕ)
    → IsValid p
    → let (p', out, stop, returned) = pipe_read nonblock p size in
      ReadAll nonblock p size [] (p', out, stop) × (returned ≡ read_returns nonblock p size)
unfolding pipe_read transfer_result
pipe_read-ReadAll nonblock p size v =
    let r = read_loop-ReadAll (suc size) nonblock p size [] (omega arith) v in
    let len = ap length r.result ∙ r.number in (r, rw (r.stop, len) (ground (arith, r.number)))
