-- ===== src/Menu/View/Query.antt =====
-- mizu_menu_query_view itself: the checks, the page of the state, and the components of the page.
use embedded_library.Prelude.{
  is_null, elements, ℕ, ◌-◌, ◌*◌, ◌/◌, ◌==◌, if◌then◌else◌, ltb, ◌||◌, Bool, true, false, not,
  Option, none, some, List, set, get_or,
}
use embedded_library.Status.{Status, ok, invalid_argument, not_initialized, out_of_range, is_ok}
use embedded_library.Parameter.{Floats}
use embedded_library.Menu.{MenuText, MenuState, Menu, page_of, current_root, current_group}
use embedded_library.Menu.View.{Component, View, page_count, zero_component, common_view}
use embedded_library.Menu.View.Rows.{validate_page, fill_page, fill_single}

module _ {fp : Floats} {W : Type 0} where
  unfoldable pub display_view : Menu fp W → View
  display_view m =
      let page = page_of (current_root m) in
      record (common_view m) {
        title = page.title;
        display_page_id = page.id;
        display_subpage_index = m.display_subpage_index;
        display_subpage_count = page.page_count;
      }

  -- The answer for an editor or a confirmation.
  unfoldable pub query_single :
      Menu fp W
      → Bool
      → Option (List (Component fp))
      → ℕ
      → W
      → Status × Option View × Option (List (Component fp)) × W
  query_single m confirm components component_capacity w =
      let view = record (common_view m) { component_count = 1; total_count = 1; page_count = 1 } in
      let titled = record view { title = (current_group m).title } in
      let (status, component) =
        fill_single m confirm (get_or (elements components) 0 zero_component) in
      if is_null components || ltb component_capacity 1
      then (out_of_range, some view, components, w)
      else (status, some titled, some (set (elements components) 0 component), w)

  -- The view of a list with a cursor: the page that the cursor is on.
  unfoldable pub list_view : Menu fp W → MenuText → ℕ → ℕ → ℕ → View
  list_view m title total_count cursor visible_count =
      let first_index = cursor / visible_count * visible_count in
      record (common_view m) {
        title = title;
        total_count = total_count;
        page_count = page_count total_count visible_count;
        page_index = first_index / visible_count;
        component_count =
            if ltb (total_count - first_index) visible_count
            then total_count - first_index
            else visible_count;
      }

  -- The answer for the root list and for the items of a group.
  unfoldable pub query_list :
      Menu fp W
      → Bool
      → MenuText
      → ℕ
      → ℕ
      → ℕ
      → Option (List (Component fp))
      → ℕ
      → W
      → Status × Option View × Option (List (Component fp)) × W
  query_list m at_root title total_count cursor visible_count components component_capacity w =
      let view = list_view m title total_count cursor visible_count in
      let first_index = cursor / visible_count * visible_count in
      let checked = if at_root then ok else validate_page m view.component_count first_index in
      let (status, filled, w') =
        fill_page m at_root first_index view.component_count 0 (elements components) w in
      if is_null components || ltb component_capacity view.component_count
      then (out_of_range, some view, components, w)
      else if not (is_ok checked)
      then (checked, some view, components, w)
      else (status, some view, some filled, w')

  -- The cases of mizu_menu_query_view on the state.
  unfoldable pub query_state :
      MenuState
      → Menu fp W
      → ℕ
      → Option (List (Component fp))
      → ℕ
      → W
      → Status × Option View × Option (List (Component fp)) × W
  query_state MenuState.root_state m visible_count components component_capacity w =
      query_list m true m.config.root_title m.config.root_item_count m.root_index visible_count
        components component_capacity w
  query_state MenuState.group_state m visible_count components component_capacity w =
      query_list m false (current_group m).title (current_group m).item_count m.item_index
        visible_count components component_capacity w
  query_state MenuState.parameter_edit_state m visible_count components component_capacity w =
      query_single m false components component_capacity w
  query_state MenuState.step_edit_state m visible_count components component_capacity w =
      query_single m false components component_capacity w
  query_state MenuState.command_confirm_state m visible_count components component_capacity w =
      query_single m true components component_capacity w
  query_state MenuState.display_page_state m visible_count components component_capacity w =
      (ok, some (display_view m), components, w)

  -- `none` for an output object is NULL.
  unfoldable pub query_view :
      Option (Menu fp W)
      → ℕ
      → Option (List (Component fp))
      → ℕ
      → Option View
      → W
      → Status × Option View × Option (List (Component fp)) × W
  query_view none visible_count components component_capacity view w =
      (invalid_argument, view, components, w)
  query_view (some m) visible_count components component_capacity none w =
      (invalid_argument, none, components, w)
  query_view (some m) visible_count components component_capacity (some view) w =
      if visible_count == 0
      then (invalid_argument, some view, components, w)
      else if not m.initialized
      then (not_initialized, some view, components, w)
      else query_state m.state m visible_count components component_capacity w
