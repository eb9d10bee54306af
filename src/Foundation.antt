-- ===== src/Foundation.antt =====
-- What the archived libraries share: `foundation_status_t` of
-- libraries/foundation_status/include/foundation_status.h in archive/legacy_src, and the helpers that
-- several sources declare for themselves. An address is a number of the flat 32-bit space, and 0 is NULL.
use embedded_library.Prelude.{ℕ, ◌-◌, Bool, true, false, ◌||◌, ◌==◌, if◌then◌else◌, leb, ltb}

-- `foundation_status_t` of libraries/foundation_status/include/foundation_status.h.
pub data Foundation : Type 0 where
  ok invalid_argument not_initialized invalid_state out_of_range empty : Foundation
  full buffer_too_small invalid_data overflow busy timeout io_error : Foundation
  unavailable not_found cancelled internal_error invalid_context unsupported : Foundation

abbrev pub is_fine : Foundation → Bool
is_fine ok = true
is_fine _ = false

-- `overlaps` of object_pool.c, fixed_queue.c and snapshot_buffer.c.
unfoldable pub overlaps : ℕ → ℕ → ℕ → ℕ → Bool
overlaps left left_size right right_size =
    if left_size == 0 || right_size == 0
    then false
    else if leb left right
    then ltb (right - left) left_size
    else ltb (left - right) right_size
