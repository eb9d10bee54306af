-- ===== src/Menu/Tests.antt =====
-- Runs of the menu on a group of two items and a page of three sub-pages.
use embedded_library.Prelude.{
  ℕ, zero, suc, ◌-◌, ◌^◌, ◌<◌, ◌≡◌, refl, some, [], ◌∷◌, arith, true, ℤ, negsuc,
}
use embedded_library.Parameter.{Value}
use embedded_library.Parameter.Tests.{fixed, started}
use embedded_library.Command.Tests as CT
use embedded_library.Menu.{
  MenuText, text_of, Item, MenuGroup, DisplayPage, RootItem, EventKind, Event, MenuState,
  FeedbackKind, empty_feedback, Config, Menu,
}
use embedded_library.Menu.Index.{move_index, move_down}
use embedded_library.Menu.Messages.{deadline}
use embedded_library.Menu.Navigation.{IsValid, root_at, size_of}

abbrev pub title : MenuText
title = text_of (some (77 ∷ []))

abbrev pub group : MenuGroup
group = record {
  id = 1;
  title = title;
  items = some (Item.parameter_item 20 ∷ Item.command_item 10 true ∷ []);
  item_count = 2;
}

abbrev pub page : DisplayPage
page = record { id = 1; title = title; page_count = 3 }

abbrev pub config : Config fixed ℕ
config = record {
  root_title = title;
  root_items = some (RootItem.group_root (some group) ∷ RootItem.page_root (some page) ∷ []);
  root_item_count = 2;
  parameters = some started;
  commands = some CT.started;
  step_cache = some (Value.uint32_value 10 ∷ Value.uint32_value 10 ∷ []);
  step_cache_count = 2;
  feedback_duration_ms = 1500;
}

abbrev pub menu_at : MenuState → ℕ → Menu fixed ℕ
menu_at state root_index = record {
  config = config;
  feedback = record empty_feedback { kind = FeedbackKind.command_feedback; active = true };
  edit_value = Value.uint32_value 0;
  original_value = Value.uint32_value 0;
  original_step = Value.uint32_value 0;
  state = state;
  root_index = root_index;
  item_index = 0;
  display_subpage_index = 2;
  step_cache_index = 0;
  feedback_deadline_ms = 500;
  initialized = true;
}

abbrev pub event : EventKind → ℤ → Event
event kind amount = record { kind = kind; amount = amount }

roots_sound :
    (state : MenuState) (r i : ℕ)
    → i < 2
    → (0 < size_of (root_at (menu_at state r) i)) × (size_of (root_at (menu_at state r) i) < 2 ^ 32)
roots_sound state r zero l = (omega arith, omega arith)
roots_sound state r (suc zero) l = (omega arith, omega arith)
roots_sound state r (suc (suc i)) l = absurd (omega arith)

pub root-IsValid : IsValid (menu_at MenuState.root_state 1)
root-IsValid = record {
  live = refl;
  short = omega arith;
  sound = roots_sound MenuState.root_state 1;
  on_root = omega arith;
  placed = tt;
}

move_wraps : move_index 1 5 (negsuc 12) ≡ 3
unfolding move_index move_down
move_wraps = refl

-- The feedback was given 1000 ms before the clock wrapped around.
abbrev told : ℕ
told = 2 ^ 32 - 1000

told-deadline : 500 ≡ deadline (menu_at MenuState.root_state 1) told
unfolding deadline
told-deadline = refl
