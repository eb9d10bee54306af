-- ===== src/Pool/Tests.antt =====
-- A pool of two slots of eight bytes, and runs of it.
use embedded_library.Prelude.{ℕ, ◌<◌, ◌≡◌, refl, true, false, some, List, [], ◌∷◌, arith}
use embedded_library.Foundation.{ok, overlaps}
use embedded_library.Pool.{
  Pool, PoolConfig, new_pool, init, acquire, release, check, valid_output, lend, next_free,
  clear_states, is_misconfigured, is_overlapping,
}
use embedded_library.Pool.Inv.{new_pool-IsValid}
use embedded_library.Pool.Ledger.{IsTracked, occurrences, strike, lend-IsTracked}
use embedded_library.Pool.Calls.{IsAcquired, IsReleased, acquire_lem, release_lem}
use embedded_library.Pool.History.{
  Call, binding, acquiring, releasing, step, run, run-IsTracked, init_lem, IsIdle,
  new_pool-IsTracked,
}
use Prim.{tt}

abbrev two_slots : PoolConfig
two_slots = record {
  storage = 4096;
  storage_size = 16;
  states = 8192;
  states_size = 2;
  slot_size = 8;
  capacity = 2;
  alignment = 4;
  bytes = 7 ∷ 7 ∷ [];
}

abbrev fresh : Pool
fresh = new_pool two_slots

abbrev blank : Pool
blank = record {
  storage = 0;
  states = 0;
  slot_size = 0;
  capacity = 0;
  available = 0;
  lowest_free_index = 0;
  exhausted_count = 0;
  bytes = [];
}

blank_bound : init 512 (some blank) 256 (some two_slots) ≡ (ok, some fresh)
unfolding init is_misconfigured is_overlapping overlaps
blank_bound = refl

fresh-IsTracked : IsTracked fresh []
fresh-IsTracked = new_pool-IsTracked two_slots (
    new_pool-IsValid two_slots (omega arith) (omega arith) (omega arith) (omega arith) (omega arith)
      (omega arith))

abbrev calls : List Call
calls =
    binding 256 (some two_slots)
    ∷ acquiring 128 132
    ∷ acquiring 128 132
    ∷ acquiring 128 132
    ∷ binding 256 (some two_slots)
    ∷ releasing 4096
    ∷ releasing 4096
    ∷ []

one_left : (run 512 (fresh, []) calls).1 ≡ 4104 ∷ []
unfolding run step init is_misconfigured is_overlapping acquire release valid_output overlaps check
    next_free strike clear_states
one_left = refl

run-IsTracked_example :
    IsTracked (run 512 (fresh, []) calls).0 (run 512 (fresh, []) calls).1
    × ((a : ℕ) → occurrences a (run 512 (fresh, []) calls).1 < 2)
run-IsTracked_example =
    run-IsTracked 512 fresh [] calls fresh-IsTracked (omega arith, (omega arith, tt))

fresh_bound : init 512 (some fresh) 256 (some two_slots) ≡ (ok, some fresh)
unfolding init is_misconfigured is_overlapping overlaps clear_states
fresh_bound = refl

init_lem_example : IsIdle blank × IsTracked fresh []
init_lem_example = init_lem blank fresh two_slots 512 256 (omega arith) blank_bound

result_accepted : valid_output 512 fresh 128 4 ≡ true
unfolding valid_output overlaps
result_accepted = refl

index_accepted : valid_output 512 fresh 132 4 ≡ true
unfolding valid_output overlaps
index_accepted = refl

outputs_apart : overlaps 128 4 132 4 ≡ false
unfolding overlaps
outputs_apart = refl

acquire_lem_example : IsAcquired fresh [] (acquire 512 (some fresh) 128 132) true
acquire_lem_example =
    acquire_lem fresh [] 512 128 132 fresh-IsTracked result_accepted index_accepted outputs_apart

lent-IsTracked : IsTracked (lend fresh) (4096 ∷ [])
lent-IsTracked = lend-IsTracked fresh-IsTracked (omega arith)

release_lem_example :
    IsReleased (lend fresh) (4096 ∷ []) 4096 (release (some (lend fresh)) 4096) true
unfolding occurrences
release_lem_example = release_lem (lend fresh) (4096 ∷ []) 4096 lent-IsTracked
