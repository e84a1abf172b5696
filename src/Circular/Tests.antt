-- ===== src/Circular/Tests.antt =====
-- Circular buffers at concrete states: tests, and the theorems at inputs that meet their hypotheses.
use apex.Base.{ℕ, ◌≡◌, refl, List, [], ◌∷◌, ◌++◌, take, drop, some, arith}
use apex.Circular.{CircularBuffer, add, get, insert_range, erase_range, linear, data_of}
use apex.Circular.Contents.{contents, IsBuffer}
use apex.Circular.Editing.{Inserted, insert_range-Inserted, erase_range-contents}
use apex.Circular.Pieces.{read, data_of-contents}

-- Five of eight places hold items; the counters are about to wrap, and so are the places.
abbrev five : CircularBuffer ℕ
five = record { capacity = 8; b = λ i. i; begin = 4_294_967_293; end = 2 }

five-IsBuffer : IsBuffer five
five-IsBuffer = record {
  pos = omega arith;
  fits = refl;
  below = omega arith;
  begin_in = omega arith;
  end_in = omega arith;
  room = omega arith;
}

contents_run : contents five ≡ 5 ∷ 6 ∷ 7 ∷ 0 ∷ 1 ∷ []
unfolding get
contents_run = refl

insert_runs :
    contents (insert_range (add five.begin 2) (20 ∷ 30 ∷ []) five).1
    ≡ 5 ∷ 6 ∷ 20 ∷ 30 ∷ 7 ∷ 0 ∷ 1 ∷ []
unfolding get insert_range
insert_runs = refl

erase_runs :
    contents (erase_range (add five.begin 3) (add five.begin 4) five).1 ≡ 5 ∷ 6 ∷ 7 ∷ 1 ∷ []
unfolding get erase_range
erase_runs = refl

data_runs : data_of five ≡ some ((5, 3) ∷ (0, 2) ∷ [])
unfolding data_of linear
data_runs = refl

insert_range-Inserted_example :
    Inserted five 2
      (20 ∷ 30 ∷ [])
      (insert_range (add five.begin 2) (20 ∷ 30 ∷ []) five).0
      (insert_range (add five.begin 2) (20 ∷ 30 ∷ []) five).1
insert_range-Inserted_example =
    insert_range-Inserted five 2 (20 ∷ 30 ∷ []) five-IsBuffer (omega arith) (omega arith)

erase_range-contents_example :
    let (it, cb) = erase_range (add five.begin 1) (add five.begin 3) five in
    IsBuffer cb
    × (it ≡ add cb.begin 1)
    × (contents cb ≡ take 1 (contents five) ++ drop 3 (contents five))
erase_range-contents_example =
    erase_range-contents five 1 3 five-IsBuffer (omega arith) (omega arith)

data_of-contents_example :
    (ps : List (ℕ × ℕ)) × (data_of five ≡ some ps) × (read five.b ps ≡ contents five)
data_of-contents_example = data_of-contents five five-IsBuffer
