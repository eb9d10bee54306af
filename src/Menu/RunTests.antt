-- ===== src/Menu/RunTests.antt =====
-- Runs of the menu from its initialisation on, over the configuration of the tests.
use embedded_library.Prelude.{
  elements, ℕ, zero, suc, ◌^◌, ◌<◌, ◌≡◌, refl, none, some, List, [], ◌∷◌, get_or, arith, false, pos,
  negsuc, inl,
}
use embedded_library.Status.{ok}
use embedded_library.Registry.{find_item, find_entry}
use embedded_library.Parameter.{
  Value, Descriptor, value_is_valid, value_in_range, compare_values, validate_descriptor,
  type_is_valid, validate_step,
}
use embedded_library.Parameter.Adjust.{adjust_value, adjust_uint32, adjust_checked, adjust_switch}
use embedded_library.Parameter.Service as PS
use embedded_library.Parameter.Tests.{fixed}
use embedded_library.Menu.{
  RootItem, EventKind, Event, MenuState, Menu, current_root, current_group, current_item,
}
use embedded_library.Menu.Events.{
  handle_root, handle_group, activate_item, enter_parameter_edit, enter_found, enter_read, enter_at,
  edit_found, edit_event, adjust_edit, apply_edit, current_parameter,
}
use embedded_library.Menu.Events.Handlers.{dispatch, handle_parameter_edit, handle_event}
use embedded_library.Menu.Messages.{
  value_is_equal, set_parameter_feedback, deadline, process, is_due,
}
use embedded_library.Menu.Steps.{find_step_index, step_in_groups, step_in_group}
use embedded_library.Menu.Session.{Session, Round, handling, processing, advance, advance_all}
use embedded_library.Menu.Edit.{IsDecided, handle_event-IsDecided}
use embedded_library.Menu.Tests.{config, menu_at, event, root-IsValid}
use embedded_library.Menu.Navigation.{IsValid, size_of}
use embedded_library.Menu.Init.{
  initialize_steps, write_groups, write_steps, fresh_menu, init, validate_config, text_is_valid,
  parameter_count, count_groups, validate_roots, validate_root, group_id_exists, validate_items,
  validate_item, binding_exists, item_exists, page_id_exists,
}
use embedded_library.Parameter.Service.{get_group_count, get_group, find}
use embedded_library.Command as CS
use embedded_library.Menu.Init.Accepts.{AreUsable, init-IsValid}
use embedded_library.Menu.Trace.{backs, handle_all, handle_all-IsValid, backs_return}
use embedded_library.Menu.View.{View, common_view}
use embedded_library.Menu.View.Query.{query_view}
use embedded_library.Menu.View.Pages.{HoldsCursor, query_view_shows}

abbrev blank : Menu fixed ℕ
blank = record (menu_at MenuState.root_state 0) { initialized = false }

abbrev started : Menu fixed ℕ
started = fresh_menu config

init_accepts : init (some blank) (some config) ≡ (ok, some started)
unfolding init validate_config text_is_valid parameter_count get_group_count count_groups get_group
    CS.get_group_count validate_roots validate_root group_id_exists validate_items validate_item
    find find_item find_entry binding_exists CS.find CS.get_descriptor_by_id item_exists
    page_id_exists
init_accepts = refl

sizes : (i : ℕ) → size_of (get_or (elements config.root_items) i (RootItem.page_root none)) < 2 ^ 32
sizes zero = omega arith
sizes (suc zero) = omega arith
sizes (suc (suc i)) = omega arith

init-IsValid_example :
    IsValid started
    × (started.state ≡ MenuState.root_state)
    × AreUsable config 2 (elements config.root_items)
    × (started.config.feedback_duration_ms < 2 ^ 31)
init-IsValid_example =
    init-IsValid blank started config (omega arith) (omega arith) sizes init_accepts

started-IsValid : IsValid started
started-IsValid =
    (init-IsValid blank started config (omega arith) (omega arith) sizes init_accepts).0

abbrev script : List (Event × ℕ)
script =
    (event EventKind.activate (pos 0), 5)
    ∷ (event EventKind.activate (pos 0), 6)
    ∷ (event EventKind.adjust_value_event (pos 3), 7)
    ∷ (event EventKind.activate (pos 0), 8)
    ∷ (event EventKind.move_selection (negsuc 0), 9)
    ∷ []

abbrev junk : Value fixed
junk = Value.bool_value false

handle_all-IsValid_example :
    (m' : Menu fixed ℕ) × (w' : ℕ) × (handle_all (some started) junk script 100 ≡ (some m', w'))
    × IsValid m'
handle_all-IsValid_example = handle_all-IsValid started junk script 100 started-IsValid

backs_return_example :
    (m' : Menu fixed ℕ) × (handle_all (some started) junk (backs (1 ∷ 2 ∷ 3 ∷ [])) 100
      ≡ (some m', 100))
    × (m'.state ≡ MenuState.root_state)
    × IsValid m'
backs_return_example = backs_return started junk (1 ∷ 2 ∷ 3 ∷ []) 100 started-IsValid (omega arith)

query_view_shows_example :
    (view : View) × ((query_view
        (some (menu_at MenuState.root_state 1))
        1
        none
        0
        (some (common_view started))
        100).1
      ≡ some view)
    × HoldsCursor view 2 1 1
query_view_shows_example =
    query_view_shows (menu_at MenuState.root_state 1) 1 none 0 (common_view started) 100
      root-IsValid (inl refl) (omega arith)

abbrev nothing : ℕ → ℕ
nothing w = w

-- The editor is opened on 100 and the value moved to 130; the parameter becomes 200, and ACTIVATE tells of
-- the conflict; the value is moved to 210, and the message goes.
abbrev rounds : List (Round fixed ℕ)
rounds =
    handling (event EventKind.activate (pos 0)) junk 5 nothing
    ∷ handling (event EventKind.activate (pos 0)) junk 6 nothing
    ∷ handling (event EventKind.adjust_value_event (pos 3)) junk 7 nothing
    ∷ handling (event EventKind.activate (pos 0)) junk 8 (λ w. 200)
    ∷ handling (event EventKind.adjust_value_event (pos 1)) junk 9 nothing
    ∷ processing 3000
    ∷ []

abbrev visit : Session fixed ℕ
visit = advance_all (started, junk, 100) rounds

in_editor :
    (visit.0.state ≡ MenuState.parameter_edit_state)
    × (visit.0.edit_value ≡ Value.uint32_value 210)
    × (visit.1 ≡ Value.uint32_value 200)
unfolding advance_all advance handle_event dispatch handle_root handle_group activate_item
    enter_parameter_edit enter_found enter_read enter_at handle_parameter_edit edit_found edit_event
    adjust_edit apply_edit process is_due current_root current_group current_item find_step_index
    PS.get_by_id PS.find find_item find_entry PS.read_current PS.call_getter value_is_valid
    value_in_range compare_values value_is_equal set_parameter_feedback deadline adjust_value
    adjust_uint32 get_group_count step_in_groups get_group step_in_group adjust_checked
    validate_descriptor type_is_valid validate_step initialize_steps write_groups write_steps
    adjust_switch
in_editor = (refl, refl, refl)

handle_event-IsDecided_example :
    (d : Descriptor fixed ℕ) × ((current_parameter visit.0).1 ≡ some d)
    × (m' : Menu fixed ℕ) × (after : ℕ) × (handle_event
          (some visit.0)
          (some (event EventKind.activate (pos 0)))
          junk
          3001
          visit.2
        ≡ (ok, some m', after))
    × IsDecided visit.0 visit.1 d
        (PS.get_by_id visit.0.config.parameters d.id (some junk) visit.2)
        (m', after)
handle_event-IsDecided_example =
    handle_event-IsDecided started visit.0 junk visit.1 100 visit.2 rounds started-IsValid refl refl
      in_editor.0 junk (pos 0) 3001 visit.2
