-- ===== src/Pipe/Contents.antt =====
-- The bytes that a pipe holds, oldest first.
use apex.Base.{
  ℕ, zero, suc, ◌+◌, ◌%◌, ◌≤◌, ◌<◌, ◌≡◌, ◌≢◌, refl, ap, ◌∙◌, sym, List, [], ◌∷◌, ◌++◌, append-nil,
  append_assoc, arith, update, length,
}
use mathlib.Core.Path.{ap₂}
use apex.Pipe.{Pipe, pipe_buf, used, copy_in, copy_out}

-- `n` bytes of the buffer from position `h` on, taken round its end.
abbrev pub window : (ℕ → ℕ) → ℕ → ℕ → List ℕ
window buf h zero = []
window buf h (suc n) = buf (h % pipe_buf) ∷ window buf (h + 1) n

abbrev pub contents : Pipe → List ℕ
contents p = window p.buf p.rd (used p)

pub length-window : (buf : ℕ → ℕ) (h n : ℕ) → length (window buf h n) ≡ n
length-window buf h zero = refl
length-window buf h (suc n) = ap suc (length-window buf (h + 1) n)

-- A machine word wraps at a multiple of the buffer's size.
pub window-wrap :
    (buf : ℕ → ℕ) (h k n : ℕ) → h % pipe_buf ≡ k % pipe_buf → window buf h n ≡ window buf k n
window-wrap buf h k zero e = refl
window-wrap buf h k (suc n) e = ap₂ ◌∷◌ (ap buf e) (window-wrap buf (h + 1) (k + 1) n (omega arith))

-- A write outside a window leaves it as it was.
window-outside :
    (buf : ℕ → ℕ) (h n i x : ℕ)
    → n < pipe_buf
    → i ≡ (h + n) % pipe_buf
    → window (update buf i x) h n ≡ window buf h n
window-outside buf h zero i x lt e = refl
window-outside buf h (suc n) i x lt e =
    ap₂ ◌∷◌ (ground (arith, off)) (window-outside buf (h + 1) n i x (omega arith) (omega arith))
  where
    off : h % pipe_buf ≢ i
    off k = omega arith

pub window-append :
    (buf : ℕ → ℕ) (h m n k : ℕ)
    → m + n ≡ k
    → window buf h k ≡ window buf h m ++ window buf (h + m) n
window-append buf h zero n k e =
    ap (λ j. window buf h j) (omega arith) ∙ window-wrap buf h (h + 0) n (omega arith)
window-append buf h (suc m) n zero e = absurd (omega arith)
window-append buf h (suc m) n (suc k) e = ap (◌∷◌ (buf (h % pipe_buf))) (
    window-append buf (h + 1) m n k (omega arith)
    ∙ ap (◌++◌ (window buf (h + 1) m)) (window-wrap buf (h + 1 + m) (h + suc m) n (omega arith)))

-- One byte written behind a window that leaves room.
window-extend :
    (buf : ℕ → ℕ) (h n i x : ℕ)
    → n < pipe_buf
    → i ≡ (h + n) % pipe_buf
    → window (update buf i x) h (suc n) ≡ window buf h n ++ x ∷ []
window-extend buf h n i x lt e =
    window-append (update buf i x) h n 1 (suc n) (omega arith)
    ∙ ap₂ ◌++◌ (window-outside buf h n i x lt e) (ap (λ (y : ℕ). y ∷ []) (ground arith))

-- A `memcpy` behind a window, within the free space and short of the buffer's end, adds just the
-- bytes that it copies.
pub window-copy_in :
    (xs : List ℕ) (buf : ℕ → ℕ) (h n off k : ℕ)
    → k ≡ n + length xs
    → k ≤ pipe_buf
    → off + length xs ≤ pipe_buf
    → off % pipe_buf ≡ (h + n) % pipe_buf
    → window (copy_in buf off xs) h k ≡ window buf h n ++ xs
unfolding copy_in
window-copy_in [] buf h n off k e fits inside at =
    ap (λ j. window buf h j) (omega arith) ∙ sym (append-nil (window buf h n))
window-copy_in (x ∷ xs) buf h n off k e fits inside at =
    window-copy_in xs (update buf off x) h (suc n) (off + 1) k (omega arith) fits (omega arith)
      (omega arith)
    ∙ ap (λ l. l ++ xs) (window-extend buf h n off x (omega arith) (omega arith))
    ∙ append_assoc (window buf h n) (x ∷ []) xs

-- A `memcpy` out of the buffer, short of its end, reads a window.
pub copy_out-window :
    (n : ℕ) (buf : ℕ → ℕ) (off h : ℕ)
    → off + n ≤ pipe_buf
    → off % pipe_buf ≡ h % pipe_buf
    → copy_out buf off n ≡ window buf h n
unfolding copy_out
copy_out-window zero buf off h inside at = refl
copy_out-window (suc n) buf off h inside at =
    ap₂ ◌∷◌ (ap buf (omega arith))
      (copy_out-window n buf (off + 1) (h + 1) (omega arith) (omega arith))
