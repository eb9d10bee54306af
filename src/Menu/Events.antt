-- ===== src/Menu/Events.antt =====
-- The event handlers of menu.c, one per state. The parameter `local` is what an
-- uninitialised local parameter value holds before a getter runs.
pub mod Handlers
use embedded_library.Prelude.{
  elements, ℕ, ◌==◌, if◌then◌else◌, Bool, true, false, not, ◌&&◌, ◌||◌, Option, none, some, set,
  or_else, ℤ, pos, negsuc, ltb_ℤ,
}
use embedded_library.Status.{Status, ok, invalid_argument, invalid_state, not_initialized, is_ok}
use embedded_library.Parameter.{Floats, Value, Descriptor, type_bool}
use embedded_library.Parameter.Adjust.{adjust_value, scale_step}
use embedded_library.Parameter.Service as PS
use embedded_library.Command as CS
use embedded_library.Menu.{
  Item, EventKind, Event, MenuState, FeedbackReason, Menu, page_of, is_group, current_root,
  current_group, current_item, cached_step,
}
use embedded_library.Menu.Index.{move_index}
use embedded_library.Menu.Messages.{value_is_equal, set_parameter_feedback, set_command_feedback}
use embedded_library.Menu.Steps.{find_step_index}

abbrev pub command_of : Item → ℕ
command_of (Item.command_item id _) = id
command_of (Item.parameter_item _) = 0

abbrev pub parameter_of : Item → ℕ
parameter_of (Item.parameter_item id) = id
parameter_of (Item.command_item _ _) = 0

abbrev pub is_adjust_step : EventKind → Bool
is_adjust_step EventKind.adjust_step = true
is_adjust_step _ = false

module _ {fp : Floats} {W : Type 0} where
  abbrev pub with_commands : Menu fp W → Option (CS.CommandService W) → Menu fp W
  with_commands m commands = record m { config = record m.config { commands = commands } }

  -- mizu_menu_execute_command after the search for the command, which returned `found`.
  unfoldable pub execute_found :
      Menu fp W → Status → Option (CS.Descriptor W) → ℕ → W → Status × Menu fp W × W
  execute_found m found none now_ms w = (found, m, w)
  execute_found m found (some c) now_ms w =
      let (status, commands, w') = CS.execute m.config.commands c.id w in
      let m' = record (with_commands m commands) { state = MenuState.group_state } in
      (ok, set_command_feedback m' c status now_ms, w')

  unfoldable pub execute_command : Menu fp W → ℕ → W → Status × Menu fp W × W
  execute_command m now_ms w =
      let (found, command) =
        CS.get_descriptor_by_id m.config.commands (command_of (current_item m)) false in
      execute_found m found command now_ms w

  -- The end of mizu_menu_enter_parameter_edit, after the search in the step cache.
  unfoldable pub enter_at : Menu fp W → Status → Option ℕ → Value fp → W → Status × Menu fp W × W
  enter_at m found none value w = (found, m, w)
  enter_at m found (some i) value w = (
    ok,
    record m {
      edit_value = value;
      original_value = value;
      step_cache_index = i;
      state = MenuState.parameter_edit_state;
    },
    w,
  )

  -- The same from the read of the parameter on.
  unfoldable pub enter_read :
      Menu fp W → Descriptor fp W → Status → Option (Value fp) → ℕ → W → Status × Menu fp W × W
  enter_read m d status none now_ms w = (status, m, w)
  enter_read m d status (some value) now_ms w =
      let (found, step) = find_step_index m.config.parameters d.id in
      if not (is_ok status)
      then (ok, set_parameter_feedback m d FeedbackReason.read_failed_reason status now_ms, w)
      else enter_at m found step value w

  unfoldable pub enter_found :
      Menu fp W → Status → Option (Descriptor fp W) → Value fp → ℕ → W → Status × Menu fp W × W
  enter_found m found none local now_ms w = (found, m, w)
  enter_found m found (some d) local now_ms w =
      let (status, value, w') = PS.get_by_id m.config.parameters d.id (some local) w in
      enter_read m d status value now_ms w'

  -- The registered parameter that the current item names.
  abbrev pub current_parameter : Menu fp W → Status × Option (Descriptor fp W)
  current_parameter m =
      PS.get_descriptor_by_id m.config.parameters (parameter_of (current_item m)) false

  unfoldable pub enter_parameter_edit : Menu fp W → Value fp → ℕ → W → Status × Menu fp W × W
  enter_parameter_edit m local now_ms w =
      let (found, parameter) = current_parameter m in enter_found m found parameter local now_ms w

  unfoldable pub handle_root : Menu fp W → Event → Status × Menu fp W
  handle_root m event = elim event.kind [
    | EventKind.move_selection ↦ (
      ok,
      record m { root_index = move_index m.root_index m.config.root_item_count event.amount },
    )
    | EventKind.activate ↦
        (if is_group (current_root m)
          then (ok, record m { item_index = 0; state = MenuState.group_state })
          else (ok, record m { display_subpage_index = 0; state = MenuState.display_page_state }))
    | _ ↦ (invalid_state, m)
  ]

  unfoldable pub activate_item : Menu fp W → Item → Value fp → ℕ → W → Status × Menu fp W × W
  activate_item m (Item.parameter_item id) local now_ms w = enter_parameter_edit m local now_ms w
  activate_item m (Item.command_item id requires_confirmation) local now_ms w =
      if requires_confirmation
      then (ok, record m { state = MenuState.command_confirm_state }, w)
      else execute_command m now_ms w

  unfoldable pub handle_group : Menu fp W → Event → Value fp → ℕ → W → Status × Menu fp W × W
  handle_group m event local now_ms w = elim event.kind [
    | EventKind.move_selection ↦ (
      ok,
      record m { item_index = move_index m.item_index (current_group m).item_count event.amount },
      w,
    )
    | EventKind.back ↦ (ok, record m { state = MenuState.root_state }, w)
    | EventKind.activate ↦ activate_item m (current_item m) local now_ms w
    | _ ↦ (invalid_state, m, w)
  ]

  -- The branch of mizu_menu_handle_parameter_edit for MIZU_MENU_EVENT_ADJUST_VALUE: `value` is what
  -- mizu_parameter_adjust_value leaves in the edited value.
  unfoldable pub adjust_edit : Menu fp W → Descriptor fp W → ℤ → ℕ → Menu fp W
  adjust_edit m d amount now_ms =
      let (status, adjusted) =
        adjust_value (some d) (some m.edit_value) (some (cached_step m)) amount false in
      if not (is_ok status)
      then set_parameter_feedback m d FeedbackReason.write_failed_reason status now_ms
      else record m { edit_value = or_else adjusted m.edit_value }

  -- The branch for MIZU_MENU_EVENT_ACTIVATE after the current value was read.
  unfoldable pub apply_edit :
      Menu fp W → Descriptor fp W → Status → Option (Value fp) → ℕ → W → Status × Menu fp W × W
  apply_edit m d status none now_ms w = (status, m, w)
  apply_edit m d status (some current) now_ms w =
      let (written, w') = PS.set_by_id m.config.parameters d.id (some m.edit_value) w in
      let refreshed = record m { edit_value = current; original_value = current } in
      if not (is_ok status)
      then (ok, set_parameter_feedback m d FeedbackReason.read_failed_reason status now_ms, w)
      else if not (value_is_equal current m.original_value)
      then (
        ok,
        set_parameter_feedback refreshed d FeedbackReason.conflict_reason invalid_state now_ms,
        w,
      )
      else if not (is_ok written)
      then (ok, set_parameter_feedback m d FeedbackReason.write_failed_reason written now_ms, w')
      else (
        ok,
        set_parameter_feedback (record m { state = MenuState.group_state }) d
            FeedbackReason.applied_reason ok now_ms,
        w',
      )

  unfoldable pub edit_event :
      Menu fp W → Descriptor fp W → Event → Value fp → ℕ → W → Status × Menu fp W × W
  edit_event m d event local now_ms w =
      let (status, current, w') = PS.get_by_id m.config.parameters d.id (some local) w in
      elim event.kind [
        | EventKind.adjust_value_event ↦ (ok, adjust_edit m d event.amount now_ms, w)
        | EventKind.open_step_editor ↦
            (if d.type == type_bool || value_is_equal d.minimum d.maximum
              then (invalid_state, m, w)
              else (
                ok,
                record m { original_step = cached_step m; state = MenuState.step_edit_state },
                w,
              ))
        | EventKind.back ↦ (ok, record m { state = MenuState.group_state }, w)
        | EventKind.activate ↦ apply_edit m d status current now_ms w'
        | _ ↦ (invalid_state, m, w)
      ]

  unfoldable pub edit_found :
      Menu fp W
      → Status
      → Option (Descriptor fp W)
      → Event
      → Value fp
      → ℕ
      → W
      → Status × Menu fp W × W
  edit_found m found none event local now_ms w = (found, m, w)
  edit_found m found (some d) event local now_ms w = edit_event m d event local now_ms w
