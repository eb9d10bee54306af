-- ===== src/Menu/Timeout.antt =====
-- mizu_menu_process: the feedback line goes away after its time, also when the clock wraps around.
use embedded_library.Prelude.{ℕ, ◌+◌, ◌%◌, ◌^◌, ◌<◌, ◌≡◌, true, some, leb, if◌then◌else◌, arith}
use embedded_library.Status.{ok}
use embedded_library.Parameter.{Floats}
use embedded_library.Menu.{Menu, empty_feedback}
use embedded_library.Menu.Messages.{is_due, deadline, process}

due_lem :
    (t duration elapsed : ℕ)
    → t < 2 ^ 32
    → duration < 2 ^ 31
    → elapsed < 2 ^ 31 + duration
    → is_due ((t + duration) % 2 ^ 32) ((t + elapsed) % 2 ^ 32) ≡ leb duration elapsed
unfolding is_due
due_lem t duration elapsed a b c = ground arith

module _ {fp : Floats} {W : Type 0} where
  -- An initialised menu whose active feedback was given at time `t`: mizu_menu_process that is called
  -- `elapsed` milliseconds later, less than 2^31 ms after the deadline, clears the feedback exactly
  -- when the configured duration has passed, across the wrap-around of the clock; else it changes
  -- nothing.
  pub process_expires :
      (m : Menu fp W) (t elapsed : ℕ)
      → m.initialized ≡ true
      → m.feedback.active ≡ true
      → t < 2 ^ 32
      → m.config.feedback_duration_ms < 2 ^ 31
      → elapsed < 2 ^ 31 + m.config.feedback_duration_ms
      → m.feedback_deadline_ms ≡ deadline m t
      → process (some m) ((t + elapsed) % 2 ^ 32) ≡ (
        ok,
        some (
            if leb m.config.feedback_duration_ms elapsed
            then record m { feedback = empty_feedback }
            else m),
      )
  unfolding process deadline
  process_expires m t elapsed live active a b c e =
      let due = due_lem t m.config.feedback_duration_ms elapsed a b c in ground (arith, due)
