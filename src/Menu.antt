-- ===== src/Menu.antt =====
-- services/menu/menu.c: the menu's configuration and state. The objects behind the configuration's
-- pointers (the two services and the step cache) stand in the record as they are at that time; the
-- command service and the cache change with the calls. A root item or an item is a data type,
-- its kind with the member of the union that it selects.
pub mod Index
pub mod Steps
pub mod Messages
pub mod Events
pub mod Edit
pub mod Session
pub mod Shown
pub mod Observed
pub mod Navigation
pub mod Items
pub mod Trace
pub mod Init
pub mod View
pub mod Timeout
pub mod Tests
mod RunTests
use embedded_library.Prelude.{
  elements, ℕ, zero, suc, ◌+◌, ◌-◌, ◌%◌, ◌^◌, Bool, true, false, Option, none, some, List, [], ◌∷◌,
  get_or, ℤ,
}
use embedded_library.Status.{Status, ok}
use embedded_library.Registry.{Text, text_length}
use embedded_library.Parameter.{Floats, Value}
use embedded_library.Parameter.Service.{ParameterService}
use embedded_library.Command.{CommandService}

-- mizu_menu_text_t
pub record MenuText : Type 0 where
  pub data_pointer : Text
  pub text_size : ℕ

-- `{name, strlen(name)}`
abbrev pub text_of : Text → MenuText
text_of name = record { data_pointer = name; text_size = text_length name }

pub data Item : Type 0 where
  parameter_item : ℕ → Item
  -- The id, and whether the command asks for a confirmation.
  command_item : ℕ → Bool → Item

pub record MenuGroup : Type 0 where
  pub id : ℕ
  pub title : MenuText
  pub items : Option (List Item)
  pub item_count : ℕ

pub record DisplayPage : Type 0 where
  pub id : ℕ
  pub title : MenuText
  pub page_count : ℕ

pub data RootItem : Type 0 where
  group_root : Option MenuGroup → RootItem
  page_root : Option DisplayPage → RootItem

pub data EventKind : Type 0 where
  move_selection move_page activate back adjust_value_event open_step_editor adjust_step : EventKind

pub record Event : Type 0 where
  pub kind : EventKind
  pub amount : ℤ

pub data MenuState : Type 0 where
  root_state group_state parameter_edit_state step_edit_state command_confirm_state : MenuState
  display_page_state : MenuState

pub data FeedbackKind : Type 0 where
  no_feedback parameter_feedback command_feedback : FeedbackKind

pub data FeedbackReason : Type 0 where
  result_reason applied_reason conflict_reason read_failed_reason write_failed_reason :
      FeedbackReason

pub record Feedback : Type 0 where
  pub kind : FeedbackKind
  pub reason : FeedbackReason
  pub id : ℕ
  pub label : MenuText
  pub status : Status
  pub active : Bool

-- `{.kind = MIZU_MENU_FEEDBACK_NONE}`, the other members zero.
abbrev pub empty_feedback : Feedback
empty_feedback = record {
  kind = FeedbackKind.no_feedback;
  reason = FeedbackReason.result_reason;
  id = 0;
  label = record { data_pointer = none; text_size = 0 };
  status = ok;
  active = false;
}

pub record Config (fp : Floats) (W : Type 0) : Type 0 where
  pub root_title : MenuText
  pub root_items : Option (List RootItem)
  pub root_item_count : ℕ
  pub parameters : Option (ParameterService fp W)
  pub commands : Option (CommandService W)
  pub step_cache : Option (List (Value fp))
  pub step_cache_count : ℕ
  pub feedback_duration_ms : ℕ

pub record Menu (fp : Floats) (W : Type 0) : Type 0 where
  pub config : Config fp W
  pub feedback : Feedback
  pub edit_value : Value fp
  pub original_value : Value fp
  pub original_step : Value fp
  pub state : MenuState
  pub root_index : ℕ
  pub item_index : ℕ
  pub display_subpage_index : ℕ
  pub step_cache_index : ℕ
  pub feedback_deadline_ms : ℕ
  pub initialized : Bool

-- What the target of a root item of the other kind, or of a NULL pointer, stands for.
abbrev pub null_group : MenuGroup
null_group = record { id = 0; title = text_of none; items = none; item_count = 0 }

abbrev pub null_page : DisplayPage
null_page = record { id = 0; title = text_of none; page_count = 0 }

abbrev pub group_of : RootItem → MenuGroup
group_of (RootItem.group_root (some g)) = g
group_of _ = null_group

abbrev pub page_of : RootItem → DisplayPage
page_of (RootItem.page_root (some p)) = p
page_of _ = null_page

abbrev pub is_parameter : Item → Bool
is_parameter (Item.parameter_item _) = true
is_parameter (Item.command_item _ _) = false

abbrev pub is_group : RootItem → Bool
is_group (RootItem.group_root _) = true
is_group (RootItem.page_root _) = false

module _ {fp : Floats} {W : Type 0} where
  unfoldable pub current_root : Menu fp W → RootItem
  current_root m = get_or (elements m.config.root_items) m.root_index (RootItem.page_root none)

  unfoldable pub current_group : Menu fp W → MenuGroup
  current_group m = group_of (current_root m)

  unfoldable pub current_item : Menu fp W → Item
  current_item m = get_or (elements (current_group m).items) m.item_index (Item.parameter_item 0)

  abbrev pub cached_step : Menu fp W → Value fp
  cached_step m =
      get_or (elements m.config.step_cache) m.step_cache_index (Value.float_value fp.zero_float)
