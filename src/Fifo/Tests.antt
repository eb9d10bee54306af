-- ===== src/Fifo/Tests.antt =====
-- Runs of mizu_fifo.c on a FIFO whose content goes round the end of the storage.
use embedded_library.Prelude.{ℕ, ◌≡◌, refl, ◌⊎◌, true, false, none, some, List, [], ◌∷◌, arith}
use embedded_library.Status.{ok, full, empty, not_initialized}
use embedded_library.Fifo.{
  Fifo, write, read, push, pop, written, fetched, used, free, advance, first_run, copy, check,
}
use embedded_library.Fifo.Queue
use embedded_library.Fifo.Inv.{IsValid}
use embedded_library.Fifo.Refine.{contents}
use embedded_library.Fifo.Run.{Op, put, get, run, run_queue, run_refines, failure_keeps}

abbrev wrapped : Fifo
wrapped = record {
  storage = some (8 ∷ 0 ∷ 0 ∷ 7 ∷ []);
  storage_size = 4;
  read_index = 3;
  write_index = 1;
  initialized = true;
}

abbrev blank : Fifo
blank = record {
  storage = none;
  storage_size = 0;
  read_index = 0;
  write_index = 0;
  initialized = false;
}

wrapped-IsValid : IsValid wrapped
wrapped-IsValid = record {
  live = refl;
  bound = refl;
  holds = omega arith;
  big = omega arith;
  small = omega arith;
  read_in = omega arith;
  write_in = omega arith;
}

contents-wrapped : contents wrapped ≡ 7 ∷ 8 ∷ []
unfolding contents used
contents-wrapped = refl

push-pop : (pop (push (some wrapped) 9).1 (some (0 ∷ []))).2 ≡ some (7 ∷ [])
unfolding push pop write read check used free written fetched first_run advance copy
push-pop = refl

write_full : (write (some wrapped) (some (1 ∷ 2 ∷ [])) 2).0 ≡ full
unfolding write check used free
write_full = refl

write-blank : (write (some blank) (some (1 ∷ 2 ∷ [])) 2).0 ≡ not_initialized
unfolding write check
write-blank = refl

abbrev script : List Op
script = get (0 ∷ []) ∷ put (1 ∷ 2 ∷ []) ∷ put (3 ∷ []) ∷ get (0 ∷ 0 ∷ 0 ∷ []) ∷ get (0 ∷ []) ∷ []

script_replies :
    run_queue 3 (7 ∷ 8 ∷ []) script
    ≡ (ok, 7 ∷ []) ∷ (ok, 1 ∷ 2 ∷ []) ∷ (full, 3 ∷ []) ∷ (ok, 8 ∷ 1 ∷ 2 ∷ []) ∷ (empty, 0 ∷ []) ∷ []
unfolding run_queue Queue.write Queue.read
script_replies = refl

run_refines_example : run (some wrapped) script ≡ run_queue 3 (contents wrapped) script
run_refines_example = run_refines script wrapped-IsValid

abbrev cells : List ℕ
cells = 0 ∷ 0 ∷ 0 ∷ []

failure_keeps_example :
    (((write (some blank) none 1).0 ≡ ok) ⊎ ((write (some blank) none 1).1 ≡ some blank))
    × (((read (some blank) none 1).0 ≡ ok)
        ⊎ ((read (some blank) none 1).1 ≡ some blank) × ((read (some blank) none 1).2 ≡ none))
failure_keeps_example = failure_keeps (some blank) none 1
