-- ===== src/Pipe.antt =====
-- Pipes, sys/fs/pipe.cpp: a circular buffer of PIPE_BUF bytes with counts of readers and writers.
-- `wr` and `rd` are `size_t` and wrap. The vnode's lock is held except while a call waits, so a
-- call goes up to its wait; woken with no error it goes on with what is left.
pub mod Contents
pub mod Transfer
pub mod Reading
pub mod Users
mod Tests
use apex.Base.{
  ℕ, zero, suc, ◌+◌, ◌-◌, ◌%◌, ◌^◌, min, Bool, true, false, not, ◌&&◌, ◌||◌, Option, none, some,
  List, [], ◌∷◌, ◌++◌, ltb, ◌==◌, if◌then◌else◌, update, length, take, drop,
}
use apex.Base.Status.{Status, ok, err, Errno, eagain, einval, enomem, enxio, epipe}

abbrev pub pipe_buf : ℕ
pipe_buf = 4096

abbrev pub word : ℕ
word = 2 ^ 32

-- `buf` by index; `signals` counts the calls of `cond_signal`.
pub record Pipe : Type 0 where
  pub read_fds : ℕ
  pub write_fds : ℕ
  pub wr : ℕ
  pub rd : ℕ
  pub buf : ℕ → ℕ
  pub signals : ℕ

-- `vp->v_pipe`: null, a pipe, or a pointer to a pipe that has been freed.
pub data Cell : Type 0 where
  absent : Cell
  live : Pipe → Cell
  freed : Cell

pub data Access : Type 0 where
  rdonly wronly rdwr : Access

-- `memory` says whether the page and the descriptor can be allocated; the page's contents are
-- whatever they were.
unfoldable pub pipe_alloc : Bool → (ℕ → ℕ) → Cell → Status × Cell
pipe_alloc memory page absent =
    if memory
    then (
      ok 0,
      live (record { read_fds = 0; write_fds = 0; wr = 0; rd = 0; buf = page; signals = 0 }),
    )
    else (err enomem, absent)
pipe_alloc memory page c = (ok 0, c)

-- The second half of `pipe_open`, on the pipe that `v_pipe` points to. `none`: it is freed memory.
unfoldable pub open_by : Access → Bool → Cell → Option (Status × Cell)
open_by rdonly nonblock (live p) = some (ok 0, live (record p { read_fds = p.read_fds + 1 }))
open_by wronly nonblock (live p) = some (
    if nonblock && (p.read_fds == 0)
    then (err enxio, live p)
    else (ok 0, live (record p { write_fds = p.write_fds + 1 })))
open_by rdwr nonblock (live p) = some (err einval, live p)
open_by a nonblock c = none

unfoldable pub alloc_then : Access → Bool → Status × Cell → Option (Status × Cell)
alloc_then a nonblock (ok n, c) = open_by a nonblock c
alloc_then a nonblock (err e, c) = some (err e, c)

unfoldable pub pipe_open : Bool → Bool → (ℕ → ℕ) → Access → Bool → Cell → Option (Status × Cell)
unfolding pipe_alloc alloc_then open_by
pipe_open fifo memory page a nonblock c =
    let opened = alloc_then a nonblock (pipe_alloc memory page c) in
    if not fifo then some (err einval, c) else opened

-- The counts go down, the other side is woken by the last of its kind, and the last user of
-- all frees the pipe. `v_pipe` keeps its value.
unfoldable pub close_by : Access → Pipe → Pipe
close_by rdonly p =
    let n = p.read_fds - 1 in
    record p { read_fds = n; signals = if n == 0 then p.signals + 1 else p.signals }
close_by wronly p =
    let n = p.write_fds - 1 in
    record p { write_fds = n; signals = if n == 0 then p.signals + 1 else p.signals }
close_by rdwr p = p

unfoldable pub close_cell : Access → Cell → Option Cell
unfolding close_by
close_cell a (live p) =
    let p' = close_by a p in
    some (if (p'.read_fds == 0) && (p'.write_fds == 0) then freed else live p')
close_cell a c = none

unfoldable pub pipe_close : Bool → Access → Cell → Option (Status × Cell)
unfolding close_cell
pipe_close fifo a c =
    let closed = close_cell a c in
    if not fifo
    then some (err einval, c)
    else elim closed [ none ↦ none | some c' ↦ some (ok 0, c') ]

-- Bytes in the pipe: `wr - rd` in a machine word.
abbrev pub used : Pipe → ℕ
used p = (p.wr + word - p.rd) % word

-- `memcpy` into the buffer and out of it.
unfoldable pub copy_in : (ℕ → ℕ) → ℕ → List ℕ → ℕ → ℕ
copy_in buf off [] = buf
copy_in buf off (x ∷ xs) = copy_in (update buf off x) (off + 1) xs

unfoldable pub copy_out : (ℕ → ℕ) → ℕ → ℕ → List ℕ
copy_out buf off zero = []
copy_out buf off (suc n) = buf off ∷ copy_out buf (off + 1) n

-- How a transfer ends: with nothing left to do, with an error, or in a wait.
pub data Stop : Type 0 where
  finished : Stop
  failed : Errno → Stop
  waits : Stop

-- What both calls return: the number of bytes, or else the error; `none` while the call waits.
unfoldable pub transfer_result : ℕ → Stop → Option Status
transfer_result n finished = some (ok n)
transfer_result n (failed e) = some (if n == 0 then err e else ok n)
transfer_result n waits = none

-- One pass of the loop of `pipe_write` that copies: as much as is free up to the buffer's end.
unfoldable pub write_chunk : Pipe → List ℕ → Pipe × ℕ
write_chunk p data_left =
    let free = pipe_buf - used p in
    let off = p.wr % pipe_buf in
    let len = min (length data_left) (min free (pipe_buf - off)) in
    (
      record p {
        buf = copy_in p.buf off (take len data_left);
        wr = (p.wr + len) % word;
        signals = if free == pipe_buf then p.signals + 1 else p.signals;
      },
      len,
    )

-- The loop, on the bytes left and the number written.
unfoldable pub write_loop : ℕ → Bool → Pipe → List ℕ → ℕ → Pipe × ℕ × Stop
unfolding write_chunk
write_loop zero nonblock p xs written = (p, written, failed eagain)
write_loop (suc fuel) nonblock p xs written =
    let (p', len) = write_chunk p xs in
    let rest = write_loop fuel nonblock p' (drop len xs) (written + len) in
    if length xs == 0
    then (p, written, finished)
    else if p.read_fds == 0
    then (p, written, failed epipe)
    else if used p == pipe_buf
    then (p, written, if nonblock then failed eagain else waits)
    else rest

-- The pipe, the number of bytes written, how the loop ends, and what the call returns. A pass
-- copies at least one byte, so there are at most as many as bytes to write.
unfoldable pub pipe_write : Bool → Pipe → List ℕ → Pipe × ℕ × Stop × Option Status
unfolding write_loop transfer_result
pipe_write nonblock p xs =
    let (p', written, stop) = write_loop (suc (length xs)) nonblock p xs 0 in
    (p', written, stop, transfer_result written stop)

-- One pass of the loop of `pipe_read` that copies.
unfoldable pub read_chunk : Pipe → ℕ → Pipe × List ℕ
read_chunk p size =
    let off = p.rd % pipe_buf in
    let len = min size (min (used p) (pipe_buf - off)) in
    (
      record p {
        rd = (p.rd + len) % word;
        signals = if used p == pipe_buf then p.signals + 1 else p.signals;
      },
      copy_out p.buf off len,
    )

unfoldable pub read_loop : ℕ → Bool → Pipe → ℕ → List ℕ → Pipe × List ℕ × Stop
unfolding read_chunk
read_loop zero nonblock p size out = (p, out, failed eagain)
read_loop (suc fuel) nonblock p size out =
    let (p', bytes) = read_chunk p size in
    let rest = read_loop fuel nonblock p' (size - length bytes) (out ++ bytes) in
    if size == 0
    then (p, out, finished)
    else if used p == 0
    then (
      p,
      out,
      if (p.write_fds == 0) || not (length out == 0)
          then finished
          else if nonblock
          then failed eagain
          else waits,
    )
    else rest

-- The pipe, the bytes read, how the loop ends, and what the call returns.
unfoldable pub pipe_read : Bool → Pipe → ℕ → Pipe × List ℕ × Stop × Option Status
unfolding read_loop transfer_result
pipe_read nonblock p size =
    let (p', out, stop) = read_loop (suc size) nonblock p size [] in
    (p', out, stop, transfer_result (length out) stop)
