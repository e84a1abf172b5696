-- ===== src/Signal/Sets.antt =====
-- Signal sets, sys/kern/sig.cpp and sys/include/types.h: a `k_sigset_t` is an array of two words of
-- 32 bits, and a set is its bits, by number. Signal `n` is bit `n - 1`. The signals' numbers and
-- SIG_* are the C library's.
use apex.Base.{
  ℕ, zero, suc, ◌+◌, Bool, true, false, not, ◌&&◌, ◌||◌, Option, none, some, ltb, if◌then◌else◌,
  update,
}

abbrev pub nsig : ℕ
nsig = 65

-- The bits of `__bits[NSIG / 8 / sizeof(long)]`.
abbrev pub set_bits : ℕ
set_bits = 64

abbrev pub sigkill : ℕ
sigkill = 9

abbrev pub sigchld : ℕ
sigchld = 17

abbrev pub sigcont : ℕ
sigcont = 18

abbrev pub sigstop : ℕ
sigstop = 19

abbrev pub sigtstp : ℕ
sigtstp = 20

abbrev pub sigttin : ℕ
sigttin = 21

abbrev pub sigttou : ℕ
sigttou = 22

abbrev pub sigurg : ℕ
sigurg = 23

abbrev pub sigwinch : ℕ
sigwinch = 28

abbrev pub sigsys : ℕ
sigsys = 31

abbrev pub Sigset : Type 0
Sigset = ℕ → Bool

unfoldable pub ksigandnset : Sigset → Sigset → Sigset
ksigandnset l r n = l n && not (r n)

unfoldable pub ksigorset : Sigset → Sigset → Sigset
ksigorset l r n = l n || r n

-- `none`: the word that is written lies behind the array. A signal is not 0.
unfoldable pub put_bit : Bool → Sigset → ℕ → Option Sigset
put_bit v s zero = none
put_bit v s (suc n) = if ltb n set_bits then some (update s n v) else none

unfoldable pub ksigaddset : Sigset → ℕ → Option Sigset
unfolding put_bit
ksigaddset s sig = put_bit true s sig

unfoldable pub ksigdelset : Sigset → ℕ → Option Sigset
unfolding put_bit
ksigdelset s sig = put_bit false s sig

-- The set without SIGSTOP and SIGKILL, for which `ksigdelset` stays inside the array.
unfoldable pub unblockable_out : Sigset → Sigset
unblockable_out s = update (update s 18 false) 8 false

-- `s[1]` as bits; the bits of `s[0]` are the lowest 32 of the set's.
abbrev pub second_word : Sigset → Sigset
second_word s n = s (32 + n)

-- Whether one of the lowest bits is set, and `countr_zero` from a bit on.
unfoldable pub nonzero : ℕ → Sigset → Bool
nonzero zero w = false
nonzero (suc n) w = nonzero n w || w n

unfoldable pub countr_zero : ℕ → ℕ → Sigset → ℕ
countr_zero zero i w = i
countr_zero (suc n) i w = let rest = countr_zero n (i + 1) w in if w i then i else rest

unfoldable pub ksigfirst : Sigset → ℕ
unfolding nonzero countr_zero
ksigfirst s =
    if nonzero 32 s
    then countr_zero 32 0 s + 1
    else if nonzero 32 (second_word s)
    then countr_zero 32 0 (second_word s) + 1 + 32
    else 0

unfoldable pub ksigisemptyset : Sigset → Bool
unfolding nonzero
ksigisemptyset s = not (nonzero 32 s) && not (nonzero 32 (second_word s))

unfoldable pub ksigallset : Sigset
ksigallset n = true
