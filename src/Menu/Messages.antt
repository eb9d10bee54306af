-- ===== src/Menu/Messages.antt =====
-- The feedback of menu.c: the message of the last action, and its expiry in mizu_menu_process.
use embedded_library.Prelude.{
  ℕ, ◌+◌, ◌%◌, ◌^◌, ◌==◌, if◌then◌else◌, Bool, true, false, not, ◌&&◌, Option, none, some, ltb,
}
use embedded_library.Status.{Status, ok, invalid_argument, not_initialized}
use embedded_library.Parameter.{Floats, Value, Descriptor, u32_mod, sub_u32, eq_ℤ, same_bool}
use embedded_library.Command as CS
use embedded_library.Menu.{text_of, FeedbackKind, FeedbackReason, empty_feedback, Menu}

-- `(int32_t)(now_ms - deadline) >= 0`
unfoldable pub is_due : ℕ → ℕ → Bool
is_due deadline_ms now_ms = ltb (sub_u32 now_ms deadline_ms) (2 ^ 31)

module _ {fp : Floats} where
  unfoldable pub value_is_equal : Value fp → Value fp → Bool
  value_is_equal (Value.float_value l) (Value.float_value r) = fp.eq_float l r
  value_is_equal (Value.int32_value l) (Value.int32_value r) = eq_ℤ l r
  value_is_equal (Value.uint32_value l) (Value.uint32_value r) = l == r
  value_is_equal (Value.bool_value l) (Value.bool_value r) = same_bool l r
  value_is_equal _ _ = false

module _ {fp : Floats} {W : Type 0} where
  unfoldable pub deadline : Menu fp W → ℕ → ℕ
  deadline m now_ms = (now_ms + m.config.feedback_duration_ms) % u32_mod

  unfoldable pub set_parameter_feedback :
      Menu fp W → Descriptor fp W → FeedbackReason → Status → ℕ → Menu fp W
  set_parameter_feedback m d reason status now_ms = record m {
    feedback = record {
      kind = FeedbackKind.parameter_feedback;
      reason = reason;
      id = d.id;
      label = text_of d.name;
      status = status;
      active = true;
    };
    feedback_deadline_ms = deadline m now_ms;
  }

  unfoldable pub set_command_feedback : Menu fp W → CS.Descriptor W → Status → ℕ → Menu fp W
  set_command_feedback m c status now_ms = record m {
    feedback = record {
      kind = FeedbackKind.command_feedback;
      reason = FeedbackReason.result_reason;
      id = c.id;
      label = text_of c.name;
      status = status;
      active = true;
    };
    feedback_deadline_ms = deadline m now_ms;
  }

  unfoldable pub process : Option (Menu fp W) → ℕ → Status × Option (Menu fp W)
  process none now_ms = (invalid_argument, none)
  process (some m) now_ms =
      if not m.initialized
      then (not_initialized, some m)
      else if m.feedback.active && is_due m.feedback_deadline_ms now_ms
      then (ok, some (record m { feedback = empty_feedback }))
      else (ok, some m)
