-- ===== src/Menu/Init.antt =====
-- mizu_menu_init: the validation of the configuration, the initial step cache, and the object.
pub mod Accepts
use embedded_library.Prelude.{
  is_null, elements, ℕ, zero, suc, ◌+◌, ◌-◌, ◌^◌, Bool, true, false, not, ◌&&◌, ◌||◌, ◌==◌,
  if◌then◌else◌, ltb, size_max, Option, none, some, List, [], ◌∷◌, take, set,
}
use embedded_library.Status.{
  Status, ok, invalid_argument, invalid_state, out_of_range, overflow, is_ok,
}
use embedded_library.Registry.{Group, entries}
use embedded_library.Parameter.{Floats, Value, Descriptor}
use embedded_library.Parameter.Service as PS
use embedded_library.Parameter.Service.{ParameterService}
use embedded_library.Command as CS
use embedded_library.Menu.{
  MenuText, Item, MenuGroup, DisplayPage, RootItem, MenuState, empty_feedback, Config, Menu,
  group_of, page_of, is_group,
}

unfoldable pub text_is_valid : MenuText → Bool
text_is_valid text = not (is_null text.data_pointer) && ltb 0 text.text_size

-- One of the first `root_index` roots is a group with the id.
unfoldable pub group_id_exists : List RootItem → ℕ → ℕ → Bool
group_id_exists [] root_index id = false
group_id_exists (r ∷ roots) zero id = false
group_id_exists (r ∷ roots) (suc root_index) id =
    (is_group r && (group_of r).id == id) || group_id_exists roots root_index id

-- One of the first `root_index` roots is a page with the id.
unfoldable pub page_id_exists : List RootItem → ℕ → ℕ → Bool
page_id_exists [] root_index id = false
page_id_exists (r ∷ roots) zero id = false
page_id_exists (r ∷ roots) (suc root_index) id =
    (not (is_group r) && (page_of r).id == id) || page_id_exists roots root_index id

-- Two items of the same kind with the same id.
abbrev pub same_binding : Item → Item → Bool
same_binding (Item.parameter_item id) (Item.parameter_item id') = id == id'
same_binding (Item.command_item id _) (Item.command_item id' _) = id == id'
same_binding _ _ = false

-- The inner loop of mizu_menu_binding_exists, over the first `limit` items.
unfoldable pub item_exists : Item → ℕ → List Item → Bool
item_exists item zero items = false
item_exists item (suc limit) [] = false
item_exists item (suc limit) (i ∷ items) = same_binding i item || item_exists item limit items

-- An item before item `item_index` of root `root_index` has the same binding.
unfoldable pub binding_exists : Item → List RootItem → ℕ → ℕ → Bool
binding_exists item [] root_index item_index = false
binding_exists item (r ∷ roots) zero item_index =
    is_group r && item_exists item item_index (elements (group_of r).items)
binding_exists item (r ∷ roots) (suc root_index) item_index =
    (is_group r && item_exists item (group_of r).item_count (elements (group_of r).items))
    || binding_exists item roots root_index item_index

-- `*count == n`, for the number that a call has written.
abbrev pub is_some_of : Option ℕ → ℕ → Bool
is_some_of none n = false
is_some_of (some m) n = m == n

abbrev pub bind_command : {W : Type 0} → Status → Option (CS.Descriptor W) → Bool → Status
bind_command found none exists = found
bind_command found (some c) exists = if exists then invalid_argument else ok

module _ {fp : Floats} {W : Type 0} where
  -- What the search for the target of an item has returned, and whether the target can be bound.
  abbrev pub bind_parameter : Status → Option (Descriptor fp W) → Bool → Status
  bind_parameter found none exists = found
  bind_parameter found (some d) exists = if not d.writable || exists then invalid_argument else ok

  unfoldable pub validate_item : Config fp W → ℕ → ℕ → Item → Status
  validate_item config root_index item_index (Item.parameter_item id) =
      let (found, d) = PS.get_descriptor_by_id config.parameters id false in
      bind_parameter found d
        (binding_exists (Item.parameter_item id) (elements config.root_items) root_index item_index)
  validate_item config root_index item_index (Item.command_item id confirm) =
      let (found, c) = CS.get_descriptor_by_id config.commands id false in
      bind_command found c (
        binding_exists (Item.command_item id confirm) (elements config.root_items) root_index
          item_index)

  -- The loop over the items of a group that are left, from `item_index` on.
  unfoldable pub validate_items : Config fp W → ℕ → ℕ → List Item → Status
  validate_items config root_index item_index [] = ok
  validate_items config root_index item_index (item ∷ items) =
      let status = validate_item config root_index item_index item in
      let rest = validate_items config root_index (suc item_index) items in
      if not (is_ok status) then status else rest

  unfoldable pub validate_root : Config fp W → ℕ → RootItem → Status
  validate_root config root_index (RootItem.group_root none) = invalid_argument
  validate_root config root_index (RootItem.group_root (some g)) =
      if not (text_is_valid g.title)
        || (is_null g.items
            || (g.item_count == 0 || group_id_exists (elements config.root_items) root_index g.id))
      then invalid_argument
      else validate_items config root_index 0 (take g.item_count (elements g.items))
  validate_root config root_index (RootItem.page_root none) = invalid_argument
  validate_root config root_index (RootItem.page_root (some p)) =
      if not (text_is_valid p.title)
        || (p.page_count == 0 || page_id_exists (elements config.root_items) root_index p.id)
      then invalid_argument
      else ok

  -- The loop over the `n` roots that are left, from `root_index` on.
  unfoldable pub validate_roots : Config fp W → ℕ → ℕ → List RootItem → Status
  validate_roots config root_index zero roots = ok
  validate_roots config root_index (suc n) [] = ok
  validate_roots config root_index (suc n) (r ∷ roots) =
      let status = validate_root config root_index r in
      let rest = validate_roots config (suc root_index) n roots in
      if not (is_ok status) then status else rest

  -- The loop of mizu_menu_parameter_count over `n` groups, from `group_index` on.
  unfoldable pub count_groups : Option (ParameterService fp W) → ℕ → ℕ → ℕ → Status × Option ℕ
  count_groups s group_index zero total = (ok, some total)
  count_groups s group_index (suc n) total =
      let (status, group) = PS.get_group s group_index false in
      elim group [
        | none ↦ (status, none)
        | some g ↦
            let rest = count_groups s (suc group_index) n (total + g.item_count) in
            if ltb (size_max - total) g.item_count then (overflow, none) else rest
      ]

  unfoldable pub parameter_count : Option (ParameterService fp W) → Status × Option ℕ
  parameter_count s =
      let (status, count) = PS.get_group_count s false in
      elim count [ none ↦ (status, none) | some n ↦ count_groups s 0 n 0 ]

  -- The inner loop of mizu_menu_initialize_steps: the cache and the index after it.
  unfoldable pub write_steps : ℕ → List (Descriptor fp W) → List (Value fp) → ℕ × List (Value fp)
  write_steps cache_index [] cache = (cache_index, cache)
  write_steps cache_index (d ∷ parameters) cache =
      write_steps (suc cache_index) parameters (set cache cache_index d.step)

  unfoldable pub write_groups :
      Option (ParameterService fp W) → ℕ → ℕ → ℕ → List (Value fp) → List (Value fp)
  write_groups s group_index zero cache_index cache = cache
  write_groups s group_index (suc n) cache_index cache =
      let (_, group) = PS.get_group s group_index false in
      elim group [
        | none ↦ cache
        | some g ↦
            let (next, cache') = write_steps cache_index (entries g) cache in
            write_groups s (suc group_index) n next cache'
      ]

  unfoldable pub initialize_steps :
      Option (ParameterService fp W) → List (Value fp) → List (Value fp)
  initialize_steps s cache =
      let (_, count) = PS.get_group_count s false in
      elim count [ none ↦ cache | some n ↦ write_groups s 0 n 0 cache ]

  -- The object that init writes.
  abbrev pub fresh_menu : Config fp W → Menu fp W
  fresh_menu config = record {
    config = record config {
      step_cache = some (initialize_steps config.parameters (elements config.step_cache));
    };
    feedback = empty_feedback;
    edit_value = Value.float_value fp.zero_float;
    original_value = Value.float_value fp.zero_float;
    original_step = Value.float_value fp.zero_float;
    state = MenuState.root_state;
    root_index = 0;
    item_index = 0;
    display_subpage_index = 0;
    step_cache_index = 0;
    feedback_deadline_ms = 0;
    initialized = true;
  }

  abbrev pub is_incomplete : Config fp W → Bool
  is_incomplete config =
      not (text_is_valid config.root_title)
      || (is_null config.root_items
          || (config.root_item_count == 0
              || (is_null config.parameters
                  || (is_null config.commands
                      || (is_null config.step_cache
                          || (config.feedback_duration_ms == 0
                              || ltb (2 ^ 31 - 1) config.feedback_duration_ms))))))

  -- The checks of init, in their order, up to the roots; `n` is the count of the parameters.
  unfoldable pub validate_config : Config fp W → Status
  validate_config config =
      let (counted, n) = parameter_count config.parameters in
      let (commanded, _) = CS.get_group_count config.commands false in
      if is_incomplete config
      then invalid_argument
      else if not (is_ok counted)
      then counted
      else if not (is_ok commanded)
      then commanded
      else if not (is_some_of n config.step_cache_count)
      then out_of_range
      else validate_roots config 0 config.root_item_count (elements config.root_items)

  unfoldable pub init : Option (Menu fp W) → Option (Config fp W) → Status × Option (Menu fp W)
  init none config = (invalid_argument, none)
  init (some m) none = if m.initialized then (invalid_state, some m) else (invalid_argument, some m)
  init (some m) (some config) =
      if m.initialized
      then (invalid_state, some m)
      else if not (is_ok (validate_config config))
      then (validate_config config, some m)
      else (ok, some (fresh_menu config))
