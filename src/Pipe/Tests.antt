-- ===== src/Pipe/Tests.antt =====
-- Pipes at concrete states: tests, and the theorems at inputs that meet their hypotheses.
use apex.Base.{◌≡◌, refl, [], ◌∷◌, arith, true, false}
use apex.Pipe.{Pipe, pipe_write, pipe_read, copy_in, copy_out}
use apex.Pipe.Transfer.{IsValid, WroteAll, write_returns, pipe_write-WroteAll}
use apex.Pipe.Reading.{ReadAll, read_returns, pipe_read-ReadAll}
use apex.Pipe.Users.{pipe_read-write}

-- The counters are about to wrap, and stand two bytes before the buffer's end.
abbrev late : Pipe
late = record {
  read_fds = 1;
  write_fds = 1;
  wr = 4_294_967_294;
  rd = 4_294_967_294;
  buf = λ i. 0;
  signals = 0;
}

late-IsValid : IsValid late
late-IsValid = omega arith

write_wraps : (pipe_write true late (1 ∷ 2 ∷ 3 ∷ [])).0.wr ≡ 1
unfolding pipe_write
write_wraps = refl

read_runs : (pipe_read true (pipe_write true late (1 ∷ 2 ∷ 3 ∷ [])).0 2).1 ≡ 1 ∷ 2 ∷ []
unfolding pipe_write pipe_read copy_in copy_out
read_runs = refl

pipe_write-WroteAll_example :
    let (p', written, stop, returned) = pipe_write true late (1 ∷ 2 ∷ 3 ∷ []) in
    WroteAll true late (1 ∷ 2 ∷ 3 ∷ []) 0 (p', written, stop)
    × (returned ≡ write_returns true late (1 ∷ 2 ∷ 3 ∷ []))
pipe_write-WroteAll_example =
    pipe_write-WroteAll true late (1 ∷ 2 ∷ 3 ∷ []) (λ e. omega arith) late-IsValid

pipe_read-ReadAll_example :
    let (p', out, stop, returned) = pipe_read false late 5 in
    ReadAll false late 5 [] (p', out, stop) × (returned ≡ read_returns false late 5)
pipe_read-ReadAll_example = pipe_read-ReadAll false late 5 late-IsValid

pipe_read-write_example :
    (pipe_read false (pipe_write true late (1 ∷ 2 ∷ 3 ∷ [])).0 3).1 ≡ 1 ∷ 2 ∷ 3 ∷ []
pipe_read-write_example =
    pipe_read-write true false late (1 ∷ 2 ∷ 3 ∷ []) (λ e. omega arith) refl (omega arith)
      late-IsValid

abbrev last_reader : Pipe
last_reader = record late { write_fds = 0 }
