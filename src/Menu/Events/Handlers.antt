-- ===== src/Menu/Events/Handlers.antt =====
-- The handlers of menu.c from the parameter edit on, and mizu_menu_handle_event.
use embedded_library.Prelude.{
  elements, ℕ, if◌then◌else◌, false, not, ◌&&◌, ◌||◌, Option, none, some, set, or_else, pos, negsuc,
  ltb_ℤ,
}
use embedded_library.Status.{Status, ok, invalid_argument, invalid_state, not_initialized}
use embedded_library.Parameter.{Floats, Value, Descriptor}
use embedded_library.Parameter.Adjust.{scale_step}
use embedded_library.Menu.{EventKind, Event, MenuState, Menu, page_of, current_root, cached_step}
use embedded_library.Menu.Index.{move_index}
use embedded_library.Menu.Events.{
  current_parameter, edit_found, execute_command, handle_group, handle_root, is_adjust_step,
}

module _ {fp : Floats} {W : Type 0} where
  unfoldable pub handle_parameter_edit :
      Menu fp W → Event → Value fp → ℕ → W → Status × Menu fp W × W
  handle_parameter_edit m event local now_ms w =
      let (found, parameter) = current_parameter m in
      edit_found m found parameter event local now_ms w

  -- `menu->config.step_cache[menu->step_cache_index] = step`
  abbrev pub cache_step : Menu fp W → Value fp → Menu fp W
  cache_step m step = record m {
    config = record m.config {
      step_cache = some (set (elements m.config.step_cache) m.step_cache_index step);
    };
  }

  unfoldable pub step_event : Menu fp W → Descriptor fp W → Event → Status × Menu fp W
  step_event m d event =
      let (status, scaled) = scale_step (some d) (some (cached_step m)) event.amount false in
      elim event.kind [
        | EventKind.adjust_step ↦ (status, cache_step m (or_else scaled (cached_step m)))
        | EventKind.activate ↦ (ok, record m { state = MenuState.parameter_edit_state })
        | EventKind.back ↦
            (ok, record (cache_step m m.original_step) { state = MenuState.parameter_edit_state })
        | _ ↦ (invalid_state, m)
      ]

  unfoldable pub step_found :
      Menu fp W → Status → Option (Descriptor fp W) → Event → Status × Menu fp W
  step_found m found none event = (found, m)
  step_found m found (some d) event = step_event m d event

  unfoldable pub handle_step_edit : Menu fp W → Event → Status × Menu fp W
  handle_step_edit m event =
      let (found, parameter) = current_parameter m in
      if is_adjust_step event.kind && (ltb_ℤ event.amount (negsuc 0) || ltb_ℤ (pos 1) event.amount)
      then (invalid_argument, m)
      else step_found m found parameter event

  unfoldable pub handle_command_confirm : Menu fp W → Event → ℕ → W → Status × Menu fp W × W
  handle_command_confirm m event now_ms w = elim event.kind [
    | EventKind.activate ↦ execute_command m now_ms w
    | EventKind.back ↦ (ok, record m { state = MenuState.group_state }, w)
    | _ ↦ (invalid_state, m, w)
  ]

  unfoldable pub handle_display_page : Menu fp W → Event → Status × Menu fp W
  handle_display_page m event = elim event.kind [
    | EventKind.move_page ↦ (
      ok,
      record m {
        display_subpage_index =
            move_index m.display_subpage_index (page_of (current_root m)).page_count event.amount;
      },
    )
    | EventKind.back ↦ (ok, record m { state = MenuState.root_state })
    | _ ↦ (invalid_state, m)
  ]

  abbrev pub beside : W → Status × Menu fp W → Status × Menu fp W × W
  beside w (status, m) = (status, m, w)

  -- The switch of mizu_menu_handle_event on the state.
  unfoldable pub dispatch :
      MenuState → Menu fp W → Event → Value fp → ℕ → W → Status × Menu fp W × W
  dispatch MenuState.root_state m event local now_ms w = beside w (handle_root m event)
  dispatch MenuState.group_state m event local now_ms w = handle_group m event local now_ms w
  dispatch MenuState.parameter_edit_state m event local now_ms w =
      handle_parameter_edit m event local now_ms w
  dispatch MenuState.step_edit_state m event local now_ms w = beside w (handle_step_edit m event)
  dispatch MenuState.command_confirm_state m event local now_ms w =
      handle_command_confirm m event now_ms w
  dispatch MenuState.display_page_state m event local now_ms w =
      beside w (handle_display_page m event)

  abbrev pub present : Status × Menu fp W × W → Status × Option (Menu fp W) × W
  present (status, m, w) = (status, some m, w)

  unfoldable pub handle_event :
      Option (Menu fp W) → Option Event → Value fp → ℕ → W → Status × Option (Menu fp W) × W
  handle_event none event local now_ms w = (invalid_argument, none, w)
  handle_event (some m) none local now_ms w = (invalid_argument, some m, w)
  handle_event (some m) (some event) local now_ms w =
      if not m.initialized
      then (not_initialized, some m, w)
      else present (dispatch m.state m event local now_ms w)
