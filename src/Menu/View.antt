-- ===== src/Menu/View.antt =====
-- mizu_menu_query_view: what the menu shows. The output objects are the caller's; a component that the C
-- code leaves unset in its union is given by `zero_component`.
pub mod Rows
pub mod Query
pub mod Pages
use embedded_library.Prelude.{
  elements, or_else, ℕ, zero, suc, ◌+◌, ◌-◌, ◌*◌, ◌/◌, ◌%◌, Bool, true, false, not, ◌&&◌, ◌||◌,
  ◌==◌, if◌then◌else◌, ltb, Option, none, some, List, [], ◌∷◌, set, get_or,
}
use embedded_library.Status.{
  Status, ok, invalid_argument, invalid_state, not_initialized, out_of_range, is_ok,
}
use embedded_library.Parameter.{Floats, Value, Descriptor}
use embedded_library.Parameter.Service as PS
use embedded_library.Command as CS
use embedded_library.Menu.{
  MenuText, text_of, Item, RootItem, MenuState, Feedback, Menu, group_of, page_of, is_group,
  is_parameter, current_root, current_group, current_item, cached_step,
}
use embedded_library.Menu.Events.{current_parameter, command_of, parameter_of}

pub data ComponentKind : Type 0 where
  root_component parameter_component command_component editor_component : ComponentKind
  confirmation_component : ComponentKind

pub record ComponentFlags : Type 0 where
  pub selected : Bool
  pub editable : Bool
  pub editing : Bool
  pub requires_confirmation : Bool
  pub value_valid : Bool

abbrev pub no_flags : ComponentFlags
no_flags = record {
  selected = false;
  editable = false;
  editing = false;
  requires_confirmation = false;
  value_valid = false;
}

-- The member `data.parameter` of a component.
pub record ParameterView (fp : Floats) : Type 0 where
  pub value : Value fp
  pub minimum : Value fp
  pub maximum : Value fp
  pub default_step : Value fp
  pub current_step : Value fp
  pub unit : MenuText
  pub decimals : ℕ
  pub value_status : Status

pub record Component (fp : Floats) : Type 0 where
  pub kind : ComponentKind
  pub id : ℕ
  pub label : MenuText
  pub flags : ComponentFlags
  pub parameter : ParameterView fp

pub record View : Type 0 where
  pub state : MenuState
  pub title : MenuText
  pub display_page_id : ℕ
  pub component_count : ℕ
  pub total_count : ℕ
  pub page_index : ℕ
  pub page_count : ℕ
  pub display_subpage_index : ℕ
  pub display_subpage_count : ℕ
  pub feedback : Feedback

abbrev pub zero_text : MenuText
zero_text = record { data_pointer = none; text_size = 0 }

unfoldable pub page_count : ℕ → ℕ → ℕ
page_count total_count visible_count =
    total_count / visible_count + (if total_count % visible_count == 0 then 0 else 1)

module _ {fp : Floats} where
  -- `{0}`
  abbrev pub zero_value : Value fp
  zero_value = Value.float_value fp.zero_float

  abbrev pub zero_parameter : ParameterView fp
  zero_parameter = record {
    value = zero_value;
    minimum = zero_value;
    maximum = zero_value;
    default_step = zero_value;
    current_step = zero_value;
    unit = zero_text;
    decimals = 0;
    value_status = ok;
  }

  abbrev pub zero_component : Component fp
  zero_component = record {
    kind = ComponentKind.root_component;
    id = 0;
    label = zero_text;
    flags = no_flags;
    parameter = zero_parameter;
  }

module _ {fp : Floats} {W : Type 0} where
  -- The members that mizu_menu_view_set_common writes, the others zero.
  unfoldable pub common_view : Menu fp W → View
  common_view m = record {
    state = m.state;
    title = zero_text;
    display_page_id = 0;
    component_count = 0;
    total_count = 0;
    page_index = 0;
    page_count = 0;
    display_subpage_index = 0;
    display_subpage_count = 0;
    feedback = m.feedback;
  }

  unfoldable pub root_entry : Menu fp W → ℕ → Component fp
  root_entry m index =
      let r = get_or (elements m.config.root_items) index (RootItem.page_root none) in
      record zero_component {
        id = if is_group r then (group_of r).id else (page_of r).id;
        label = if is_group r then (group_of r).title else (page_of r).title;
        flags = record no_flags { selected = index == m.root_index };
      }

  -- The component of a registered parameter, whose read has returned `status` and left `value`.
  unfoldable pub parameter_entry :
      Menu fp W → ℕ → Descriptor fp W → Status → Value fp → Component fp
  parameter_entry m index d status value = record {
    kind = ComponentKind.parameter_component;
    id = d.id;
    label = text_of d.name;
    flags = record no_flags {
      selected = index == m.item_index;
      editable = d.writable;
      value_valid = is_ok status;
    };
    parameter = record zero_parameter {
      value = value;
      minimum = d.minimum;
      maximum = d.maximum;
      default_step = d.step;
      unit = text_of d.unit;
      decimals = d.decimals;
      value_status = status;
    };
  }
