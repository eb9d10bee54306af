-- ===== src/FixedQueue/Tests.antt =====
-- A queue of three elements of two bytes, and runs of it.
use embedded_library.Prelude.{ℕ, ◌≡◌, refl, true, false, some, List, [], ◌∷◌, ◌++◌, arith}
use embedded_library.Foundation.{ok, overlaps}
use embedded_library.Fifo.{copy}
use embedded_library.FixedQueue.{
  FixedQueue, advance, check, valid_data, transfer, store_loop, fetch_loop, push_some,
}
use embedded_library.FixedQueue.Inv.{IsValid, contents}
use embedded_library.FixedQueue.Transfer.{IsAccepted, IsWritten, transfer-IsWritten}
use embedded_library.FixedQueue.Transfer.Read.{IsRead, transfer-IsRead}
use embedded_library.FixedQueue.Loops.{elements_of}
use embedded_library.FixedQueue.History.{Event, puts, takes, run, read, written, AreLarge, run-read}
use Prim.{tt}

-- One element held, in the last slot.
abbrev one_held : FixedQueue
one_held = record {
  storage = 4096;
  element_size = 2;
  capacity = 3;
  head = 2;
  size = 1;
  rejected_count = 0;
  high_water_mark = 1;
  bytes = 0 ∷ 0 ∷ 0 ∷ 0 ∷ 5 ∷ 6 ∷ [];
}

one_held-IsValid : IsValid one_held
one_held-IsValid = record {
  storage_set = omega arith;
  sized = omega arith;
  slots = omega arith;
  fits = omega arith;
  holds = omega arith;
  size_in = omega arith;
  head_in = omega arith;
  bounded = omega arith;
}

abbrev three : List ℕ
three = 1 ∷ 2 ∷ 3 ∷ 4 ∷ 7 ∷ 8 ∷ []

accepted : IsAccepted 512 one_held 8192 3 1024
unfolding valid_data overlaps
accepted = record {
  counted = omega arith;
  data_valid = refl;
  result_set = omega arith;
  result_valid = refl;
  apart = refl;
}

-- Two of three elements fit, and the request is counted.
abbrev wrapped : FixedQueue
wrapped = record one_held {
  size = 3;
  rejected_count = 1;
  high_water_mark = 3;
  bytes = 1 ∷ 2 ∷ 3 ∷ 4 ∷ 5 ∷ 6 ∷ [];
}

two_fit : push_some 512 (some one_held) 8192 three 3 1024 ≡ (ok, some wrapped, three, some 2)
unfolding transfer check valid_data overlaps store_loop advance copy
two_fit = refl

three_held : contents wrapped ≡ (5 ∷ 6 ∷ []) ∷ (1 ∷ 2 ∷ []) ∷ (3 ∷ 4 ∷ []) ∷ []
unfolding contents advance
three_held = refl

transfer-IsWritten_example :
    IsWritten one_held three 3 2 (transfer 512 (some one_held) 8192 three 3 1024 true) false
transfer-IsWritten_example =
    transfer-IsWritten 512 one_held 8192 three 3 1024 one_held-IsValid accepted

transfer-IsRead_example :
    IsRead one_held three 1 (transfer 512 (some one_held) 8192 three 3 1024 false) false
transfer-IsRead_example =
    transfer-IsRead 512 one_held 8192 three 3 1024 one_held-IsValid accepted (omega arith)

output_accepted : valid_data 512 one_held 8192 2 ≡ true
unfolding valid_data overlaps
output_accepted = refl

-- Two elements are written behind the one held, then two are read.
abbrev turn : List Event
turn = puts 8192 three 3 1024 ∷ takes 8192 three 2 1024 ∷ []

turn_reads : read 512 one_held turn ≡ (5 ∷ 6 ∷ []) ∷ (1 ∷ 2 ∷ []) ∷ []
unfolding read transfer check valid_data overlaps store_loop fetch_loop advance copy elements_of
turn_reads = refl

turn_fits : AreLarge 512 one_held turn
unfolding AreLarge transfer check valid_data overlaps store_loop advance copy
turn_fits = (tt, (omega arith, tt))

run-read_example :
    IsValid (run 512 one_held turn)
    × (read 512 one_held turn ++ contents (run 512 one_held turn)
        ≡ contents one_held ++ written 512 one_held turn)
run-read_example = run-read 512 one_held turn one_held-IsValid turn_fits
