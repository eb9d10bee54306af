-- ===== src/Menu/View/Rows.antt =====
-- The components that mizu_menu_query_view fills, by the state of the menu.
use embedded_library.Prelude.{
  elements, or_else, ℕ, zero, suc, ◌+◌, Bool, true, false, not, ◌==◌, if◌then◌else◌, Option, none,
  some, List, set, get_or,
}
use embedded_library.Status.{Status, ok, is_ok}
use embedded_library.Parameter.{Floats, Descriptor}
use embedded_library.Menu.{text_of, Item, Menu, current_group, current_item, cached_step}
use embedded_library.Menu.Events.{current_parameter, command_of}
use embedded_library.Parameter.Service as PS
use embedded_library.Command as CS
use embedded_library.Menu.View.{
  Component, ComponentKind, no_flags, parameter_entry, root_entry, zero_component, zero_value,
}

module _ {fp : Floats} {W : Type 0} where
  -- What the calls of mizu_menu_fill_group_component write to the component before the search.
  abbrev pub selected_only : Menu fp W → ℕ → Component fp
  selected_only m index = record zero_component {
    flags = record no_flags { selected = index == m.item_index };
  }

  abbrev pub fill_parameter :
      Menu fp W → ℕ → Status → Option (Descriptor fp W) → W → Status × Component fp × W
  fill_parameter m index found none w = (found, selected_only m index, w)
  fill_parameter m index found (some d) w =
      let (status, value, w') = PS.get_by_id m.config.parameters d.id (some zero_value) w in
      (ok, parameter_entry m index d status (or_else value zero_value), w')

  abbrev pub fill_command :
      Menu fp W → ℕ → Bool → Status → Option (CS.Descriptor W) → Status × Component fp
  fill_command m index confirm found none = (found, selected_only m index)
  fill_command m index confirm found (some c) = (
    ok,
    record zero_component {
      kind = ComponentKind.command_component;
      id = c.id;
      label = text_of c.name;
      flags = record no_flags { selected = index == m.item_index; requires_confirmation = confirm };
    },
  )

  unfoldable pub fill_item : Menu fp W → ℕ → Item → W → Status × Component fp × W
  fill_item m index (Item.parameter_item id) w =
      let (found, d) = PS.get_descriptor_by_id m.config.parameters id false in
      fill_parameter m index found d w
  fill_item m index (Item.command_item id confirm) w =
      let (found, c) = CS.get_descriptor_by_id m.config.commands id false in
      let (status, component) = fill_command m index confirm found c in (status, component, w)

  abbrev pub item_at : Menu fp W → ℕ → Item
  item_at m index = get_or (elements (current_group m).items) index (Item.parameter_item 0)

  unfoldable pub item_status : Menu fp W → Item → Status
  item_status m (Item.parameter_item id) = (PS.get_descriptor_by_id m.config.parameters id false).0
  item_status m (Item.command_item id _) = (CS.get_descriptor_by_id m.config.commands id false).0

  -- The loop of mizu_menu_validate_group_page, over `n` items from `index` on.
  unfoldable pub validate_page : Menu fp W → ℕ → ℕ → Status
  validate_page m zero index = ok
  validate_page m (suc n) index =
      let rest = validate_page m n (suc index) in
      let status = item_status m (item_at m index) in if not (is_ok status) then status else rest

  -- The last loop of mizu_menu_query_view, over `n` components from `index` on.
  unfoldable pub fill_page :
      Menu fp W → Bool → ℕ → ℕ → ℕ → List (Component fp) → W → Status × List (Component fp) × W
  fill_page m at_root first_index zero index components w = (ok, components, w)
  fill_page m at_root first_index (suc n) index components w =
      let entry = first_index + index in
      let root_done = set components index (root_entry m entry) in
      let (status, component, w') = fill_item m entry (item_at m entry) w in
      let item_done = set components index component in
      let next_root = fill_page m at_root first_index n (suc index) root_done w in
      let next_item = fill_page m at_root first_index n (suc index) item_done w' in
      if at_root
      then next_root
      else if not (is_ok status)
      then (status, item_done, w')
      else next_item

  abbrev pub fill_editor :
      Menu fp W → Status → Option (Descriptor fp W) → Component fp → Status × Component fp
  fill_editor m found none old = (found, old)
  fill_editor m found (some d) old = (
    ok,
    record {
      kind = ComponentKind.editor_component;
      id = d.id;
      label = text_of d.name;
      flags = record no_flags { editable = true; editing = true };
      parameter = record {
        value = m.edit_value;
        minimum = d.minimum;
        maximum = d.maximum;
        default_step = d.step;
        current_step = cached_step m;
        unit = text_of d.unit;
        decimals = d.decimals;
        value_status = ok;
      };
    },
  )

  abbrev pub fill_confirmation :
      Menu fp W → Status → Option (CS.Descriptor W) → Component fp → Status × Component fp
  fill_confirmation m found none old = (found, old)
  fill_confirmation m found (some c) old = (
    ok,
    record zero_component {
      kind = ComponentKind.confirmation_component;
      id = c.id;
      label = text_of c.name;
      flags = record no_flags { editing = true; requires_confirmation = true };
    },
  )

  -- The component of an editor or of a confirmation.
  unfoldable pub fill_single : Menu fp W → Bool → Component fp → Status × Component fp
  fill_single m confirm old =
      let (found, d) = current_parameter m in
      let (found', c) =
        CS.get_descriptor_by_id m.config.commands (command_of (current_item m)) false in
      if confirm then fill_confirmation m found' c old else fill_editor m found d old
