-- ===== src/Status.antt =====
-- `mizu_status_t` of libraries/mizu_status/mizu_status.h, the result type of every operation.
use embedded_library.Prelude.{Bool, true, false}

pub data Status : Type 0 where
  ok invalid_argument invalid_state not_initialized out_of_range internal_error : Status
  full empty invalid_data overflow busy : Status

abbrev pub is_ok : Status → Bool
is_ok ok = true
is_ok _ = false
