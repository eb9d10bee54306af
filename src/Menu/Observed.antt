-- ===== src/Menu/Observed.antt =====
-- The observer of Menu/Shown and `original_value`, through every event of mizu_menu_handle_event.
use embedded_library.Prelude.{
  ℕ, ◌≡◌, subst, ◌||◌, ◌&&◌, Option, none, some, ℤ, if_elim, pos, negsuc, ltb_ℤ,
}
use Prim.{tt}
use embedded_library.Status.{Status}
use embedded_library.Parameter.{Floats, Value, Descriptor}
use embedded_library.Command as CS
use embedded_library.Menu.{EventKind, Event, MenuState, Menu, current_root, is_group}
use embedded_library.Menu.Events.{execute_found, execute_command, handle_root, is_adjust_step}
use embedded_library.Menu.Events.Handlers.{
  step_event, step_found, handle_step_edit, handle_command_confirm, handle_display_page, dispatch,
  handle_parameter_edit,
}
use embedded_library.Menu.Navigation.{IsPlaced}
use embedded_library.Menu.Messages.{set_command_feedback}
use embedded_library.Menu.Shown.{Agrees, Knows, Follows, handle_group-Follows, edit_found-Follows}

module _ {fp : Floats} {W : Type 0} where
  module _ (m : Menu fp W) (shown : Value fp) where
    step_event-Knows :
        (d : Descriptor fp W) (kind : EventKind) (amount : ℤ)
        → m.original_value ≡ shown
        → Knows m shown
        → Knows (step_event m d (record { kind = kind; amount = amount })).1 shown
    unfolding step_event
    step_event-Knows d EventKind.adjust_step amount known k = k
    step_event-Knows d EventKind.activate amount known k = known
    step_event-Knows d EventKind.back amount known k = known
    step_event-Knows d EventKind.move_selection amount known k = k
    step_event-Knows d EventKind.move_page amount known k = k
    step_event-Knows d EventKind.adjust_value_event amount known k = k
    step_event-Knows d EventKind.open_step_editor amount known k = k

    step_found-Knows :
        (found : Status) (d : Option (Descriptor fp W)) (event : Event)
        → m.original_value ≡ shown
        → Knows m shown
        → Knows (step_found m found d event).1 shown
    unfolding step_found
    step_found-Knows found none event known k = k
    step_found-Knows found (some d) event known k =
        step_event-Knows d event.kind event.amount known k

    handle_step_edit-Knows :
        (event : Event)
        → m.original_value ≡ shown
        → Knows m shown
        → Knows (handle_step_edit m event).1 shown
    unfolding handle_step_edit
    handle_step_edit-Knows event known k =
        if_elim (λ (r : Status × Menu fp W). Knows r.1 shown)
          (is_adjust_step event.kind
            && (ltb_ℤ event.amount (negsuc 0) || ltb_ℤ (pos 1) event.amount))
          (λ _. k) (λ _. step_found-Knows _ _ event known k)

    confirm_found-Knows :
        (found : Status) (c : Option (CS.Descriptor W)) (now_ms : ℕ) (w : W)
        → Knows m shown
        → Knows (execute_found m found c now_ms w).1 shown
    unfolding execute_found set_command_feedback
    confirm_found-Knows found none now_ms w k = k
    confirm_found-Knows found (some c) now_ms w k = tt

    handle_command_confirm-Knows :
        (kind : EventKind) (amount : ℤ) (now_ms : ℕ) (w : W)
        → Knows m shown
        → Knows
            (handle_command_confirm m (record { kind = kind; amount = amount }) now_ms w).1
            shown
    unfolding handle_command_confirm execute_command
    handle_command_confirm-Knows EventKind.activate amount now_ms w k =
        confirm_found-Knows _ _ now_ms w k
    handle_command_confirm-Knows EventKind.back amount now_ms w k = tt
    handle_command_confirm-Knows EventKind.move_selection amount now_ms w k = k
    handle_command_confirm-Knows EventKind.move_page amount now_ms w k = k
    handle_command_confirm-Knows EventKind.adjust_value_event amount now_ms w k = k
    handle_command_confirm-Knows EventKind.open_step_editor amount now_ms w k = k
    handle_command_confirm-Knows EventKind.adjust_step amount now_ms w k = k

    handle_display_page-Knows :
        (kind : EventKind) (amount : ℤ)
        → Knows m shown
        → Knows (handle_display_page m (record { kind = kind; amount = amount })).1 shown
    unfolding handle_display_page
    handle_display_page-Knows EventKind.move_page amount k = k
    handle_display_page-Knows EventKind.back amount k = tt
    handle_display_page-Knows EventKind.activate amount k = k
    handle_display_page-Knows EventKind.move_selection amount k = k
    handle_display_page-Knows EventKind.adjust_value_event amount k = k
    handle_display_page-Knows EventKind.open_step_editor amount k = k
    handle_display_page-Knows EventKind.adjust_step amount k = k

    handle_root-Knows :
        (kind : EventKind) (amount : ℤ)
        → Knows m shown
        → Knows (handle_root m (record { kind = kind; amount = amount })).1 shown
    unfolding handle_root
    handle_root-Knows EventKind.activate amount k =
        if_elim (λ (r : Status × Menu fp W). Knows r.1 shown) (is_group (current_root m)) (λ _. tt)
          (λ _. tt)
    handle_root-Knows EventKind.move_selection amount k = k
    handle_root-Knows EventKind.move_page amount k = k
    handle_root-Knows EventKind.back amount k = k
    handle_root-Knows EventKind.adjust_value_event amount k = k
    handle_root-Knows EventKind.open_step_editor amount k = k
    handle_root-Knows EventKind.adjust_step amount k = k

    -- Every event of a menu whose cursors are in place keeps the agreement.
    pub dispatch-Follows :
        (s : MenuState) (event : Event) (local : Value fp) (now_ms : ℕ) (w : W)
        → IsPlaced m s
        → m.state ≡ s
        → Knows m shown
        → Follows m shown s event.kind (dispatch s m event local now_ms w)
    unfolding dispatch handle_parameter_edit
    dispatch-Follows MenuState.root_state event local now_ms w p e k =
        handle_root-Knows event.kind event.amount k
    dispatch-Follows MenuState.group_state event local now_ms w p e k =
        handle_group-Follows m shown event.kind event.amount local now_ms w e
    dispatch-Follows MenuState.parameter_edit_state event local now_ms w p e k =
        edit_found-Follows m shown _ _ event local now_ms w p.2 e
          (subst (λ s. Agrees s m.original_value shown) e k)
    dispatch-Follows MenuState.step_edit_state event local now_ms w p e k =
        handle_step_edit-Knows event (subst (λ s. Agrees s m.original_value shown) e k) k
    dispatch-Follows MenuState.command_confirm_state event local now_ms w p e k =
        handle_command_confirm-Knows event.kind event.amount now_ms w k
    dispatch-Follows MenuState.display_page_state event local now_ms w p e k =
        handle_display_page-Knows event.kind event.amount k
