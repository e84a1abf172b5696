-- ===== src/Base/Status.antt =====
-- Results of kernel functions: an `int` that is a count or a negated error number
-- (sys/include/errno.h and the C library's error numbers, by name).
use Prim.Native.Nat.{ℕ}
use mathlib.Core.Bool.{Bool, true, false}

pub data Errno : Type 0 where
  eaddrinuse eagain edeadlk efault einval eintr enomem enosys enotsup enxio eoverflow eperm epipe
        esrch etimedout :
      Errno

-- `ok n` is the value n, `err e` the value -e.
pub data Status : Type 0 where
  ok : ℕ → Status
  err : Errno → Status

abbrev pub failed : Status → Bool
failed (ok n) = false
failed (err e) = true
