-- ===== src/Menu/Items.antt =====
-- The navigation invariant through the handlers of the states below a group.
use embedded_library.Prelude.{
  or_else, ℕ, ◌^◌, ◌<◌, ◌≡◌, refl, sym, subst, ap, true, false, Option, none, some, ℤ, if_elim, not,
  ◌==◌, ◌||◌, ◌&&◌, ltb_ℤ, pos, negsuc,
}
use embedded_library.Status.{Status, is_ok}
use embedded_library.Parameter.{Floats, Value, Descriptor, type_bool}
use embedded_library.Parameter.Adjust.{adjust_value}
use embedded_library.Parameter.Service as PS
use embedded_library.Command as CS
use embedded_library.Menu.{
  Item, EventKind, Event, MenuState, Menu, is_parameter, current_root, current_group, current_item,
  cached_step,
}
use embedded_library.Menu.Index.{move_index, move_index_lem}
use embedded_library.Menu.Events.{
  execute_found, execute_command, enter_at, enter_read, enter_found, enter_parameter_edit,
  activate_item, handle_group, adjust_edit, apply_edit, edit_event, edit_found, current_parameter,
  is_adjust_step,
}
use embedded_library.Menu.Events.Handlers.{
  step_event, step_found, handle_step_edit, handle_command_confirm,
}
use embedded_library.Menu.Messages.{set_command_feedback, set_parameter_feedback, value_is_equal}
use embedded_library.Menu.Navigation.{
  IsValid, IsPlaced, IsOnItem, IsOnParameter, here, group_size, rebuild, in_state,
}

module _ {fp : Floats} {W : Type 0} where
  -- The menu of a handler's result is valid.
  abbrev pub IsSafe : Status × Menu fp W × W → Type 0
  IsSafe r = IsValid r.1

  module _ (m : Menu fp W) (v : IsValid m) where
    -- A menu with the same configuration and cursors, in a state that they fit.
    stay :
        (m' : Menu fp W) {s : MenuState}
        → m'.initialized ≡ m.initialized
        → m'.config.root_items ≡ m.config.root_items
        → m'.config.root_item_count ≡ m.config.root_item_count
        → m'.root_index ≡ m.root_index
        → m'.state ≡ s
        → IsPlaced m' s
        → IsValid m'
    stay m' a b c d e p = rebuild m m' a b c d v (subst (IsPlaced m') (sym e) p)

    execute_found-IsSafe :
        (found : Status) (c : Option (CS.Descriptor W)) (now_ms : ℕ) (w : W)
        → IsOnItem m
        → IsSafe (execute_found m found c now_ms w)
    unfolding execute_found set_command_feedback current_root current_group
    execute_found-IsSafe found none now_ms w p = v
    execute_found-IsSafe found (some c) now_ms w p = rebuild m _ refl refl refl refl v p

    enter_at-IsSafe :
        (found : Status) (i : Option ℕ) (value : Value fp) (w : W)
        → IsOnParameter m
        → IsSafe (enter_at m found i value w)
    unfolding enter_at current_root current_group current_item
    enter_at-IsSafe found none value w p = v
    enter_at-IsSafe found (some i) value w p = rebuild m _ refl refl refl refl v p

    enter_read-IsSafe :
        (d : Descriptor fp W) (status : Status) (value : Option (Value fp)) (now_ms : ℕ) (w : W)
        → m.state ≡ MenuState.group_state
        → IsOnParameter m
        → IsSafe (enter_read m d status value now_ms w)
    unfolding enter_read set_parameter_feedback current_root current_group current_item
    enter_read-IsSafe d status none now_ms w e p = v
    enter_read-IsSafe d status (some value) now_ms w e p =
        if_elim IsSafe (not (is_ok status)) (λ _. stay _ refl refl refl refl e p.0)
          (λ _. enter_at-IsSafe _ _ value w p)

    enter_found-IsSafe :
        (o : Status × Option (Descriptor fp W)) (local : Value fp) (now_ms : ℕ) (w : W)
        → m.state ≡ MenuState.group_state
        → current_parameter m ≡ o
        → IsOnItem m
        → is_parameter (current_item m) ≡ true
        → IsSafe (enter_found m o.0 o.1 local now_ms w)
    unfolding enter_found
    enter_found-IsSafe (found, none) local now_ms w e q p k = v
    enter_found-IsSafe (found, some d) local now_ms w e q p k =
        enter_read-IsSafe d _ _ now_ms _ e (p, k, rw q refl)

    enter_parameter_edit-IsSafe :
        (local : Value fp) (now_ms : ℕ) (w : W)
        → m.state ≡ MenuState.group_state
        → is_parameter (current_item m) ≡ true
        → IsSafe (enter_parameter_edit m local now_ms w)
    unfolding enter_parameter_edit
    enter_parameter_edit-IsSafe local now_ms w e k =
        enter_found-IsSafe (current_parameter m) local now_ms w e refl (in_state v e) k

    execute_command-IsSafe : (now_ms : ℕ) (w : W) → IsOnItem m → IsSafe (execute_command m now_ms w)
    unfolding execute_command
    execute_command-IsSafe now_ms w p = execute_found-IsSafe _ _ now_ms w p

    activate_item-IsSafe :
        (item : Item) (local : Value fp) (now_ms : ℕ) (w : W)
        → m.state ≡ MenuState.group_state
        → current_item m ≡ item
        → IsSafe (activate_item m item local now_ms w)
    unfolding activate_item current_root current_group current_item
    activate_item-IsSafe (Item.parameter_item id) local now_ms w e q =
        enter_parameter_edit-IsSafe local now_ms w e (ap is_parameter q)
    activate_item-IsSafe (Item.command_item id requires_confirmation) local now_ms w e q =
        if_elim IsSafe requires_confirmation
          (λ _. rebuild m _ refl refl refl refl v (in_state v e, ap is_parameter q))
          (λ _. execute_command-IsSafe now_ms w (in_state v e))

    pub handle_group-IsSafe :
        (kind : EventKind) (amount : ℤ) (local : Value fp) (now_ms : ℕ) (w : W)
        → m.state ≡ MenuState.group_state
        → IsSafe (handle_group m (record { kind = kind; amount = amount }) local now_ms w)
    unfolding handle_group current_root current_group
    handle_group-IsSafe EventKind.move_selection amount local now_ms w e =
        let (g, below) = in_state v e in
        let (filled, short) = here m v in
        let small = subst (λ n. n < 2 ^ 32) (group_size (current_root m) g filled) short in
        let count = (current_group m).item_count in
        let m' = record m { item_index = move_index m.item_index count amount } in
        stay m' refl refl refl refl e (g, (move_index_lem m.item_index count amount below small).0)
    handle_group-IsSafe EventKind.back amount local now_ms w e =
        rebuild m _ refl refl refl refl v tt
    handle_group-IsSafe EventKind.activate amount local now_ms w e =
        activate_item-IsSafe (current_item m) local now_ms w e refl
    handle_group-IsSafe EventKind.move_page amount local now_ms w e = v
    handle_group-IsSafe EventKind.adjust_value_event amount local now_ms w e = v
    handle_group-IsSafe EventKind.open_step_editor amount local now_ms w e = v
    handle_group-IsSafe EventKind.adjust_step amount local now_ms w e = v

    adjust_edit-IsValid :
        (d : Descriptor fp W) (amount : ℤ) (now_ms : ℕ)
        → m.state ≡ MenuState.parameter_edit_state
        → IsValid (adjust_edit m d amount now_ms)
    unfolding adjust_edit set_parameter_feedback current_root current_group current_item
    adjust_edit-IsValid d amount now_ms e =
        let r = adjust_value (some d) (some m.edit_value) (some (cached_step m)) amount false in
        if_elim IsValid (not (is_ok r.0)) (λ _. stay _ refl refl refl refl e (in_state v e))
          (λ _.
            stay (record m { edit_value = or_else r.1 m.edit_value }) refl refl refl refl e
              (in_state v e))

    apply_edit-IsSafe :
        (d : Descriptor fp W) (status : Status) (current : Option (Value fp)) (now_ms : ℕ) (w : W)
        → m.state ≡ MenuState.parameter_edit_state
        → IsSafe (apply_edit m d status current now_ms w)
    unfolding apply_edit set_parameter_feedback current_root current_group current_item
    apply_edit-IsSafe d status none now_ms w e = v
    apply_edit-IsSafe d status (some current) now_ms w e =
        let p = in_state v e in
        let written = PS.set_by_id m.config.parameters d.id (some m.edit_value) w in
        if_elim IsSafe (not (is_ok status)) (λ _. stay _ refl refl refl refl e p)
          (λ _.
            if_elim IsSafe (not (value_is_equal current m.original_value))
              (λ _. stay _ refl refl refl refl e p)
              (λ _.
                if_elim IsSafe (not (is_ok written.0)) (λ _. stay _ refl refl refl refl e p)
                  (λ _. rebuild m _ refl refl refl refl v p.0)))

    edit_event-IsSafe :
        (d : Descriptor fp W) (kind : EventKind) (amount : ℤ) (local : Value fp) (now_ms : ℕ)
        (w : W)
        → m.state ≡ MenuState.parameter_edit_state
        → IsSafe (edit_event m d (record { kind = kind; amount = amount }) local now_ms w)
    unfolding edit_event current_root current_group current_item
    edit_event-IsSafe d EventKind.adjust_value_event amount local now_ms w e =
        adjust_edit-IsValid d amount now_ms e
    edit_event-IsSafe d EventKind.open_step_editor amount local now_ms w e =
        if_elim IsSafe (d.type == type_bool || value_is_equal d.minimum d.maximum) (λ _. v)
          (λ _. rebuild m _ refl refl refl refl v (in_state v e))
    edit_event-IsSafe d EventKind.back amount local now_ms w e =
        rebuild m _ refl refl refl refl v (in_state v e).0
    edit_event-IsSafe d EventKind.activate amount local now_ms w e =
        apply_edit-IsSafe d _ _ now_ms _ e
    edit_event-IsSafe d EventKind.move_selection amount local now_ms w e = v
    edit_event-IsSafe d EventKind.move_page amount local now_ms w e = v
    edit_event-IsSafe d EventKind.adjust_step amount local now_ms w e = v

    pub edit_found-IsSafe :
        (found : Status) (d : Option (Descriptor fp W)) (event : Event) (local : Value fp)
        (now_ms : ℕ) (w : W)
        → m.state ≡ MenuState.parameter_edit_state
        → IsSafe (edit_found m found d event local now_ms w)
    unfolding edit_found
    edit_found-IsSafe found none event local now_ms w e = v
    edit_found-IsSafe found (some d) event local now_ms w e =
        edit_event-IsSafe d event.kind event.amount local now_ms w e

    step_event-IsValid :
        (d : Descriptor fp W) (kind : EventKind) (amount : ℤ)
        → m.state ≡ MenuState.step_edit_state
        → IsValid (step_event m d (record { kind = kind; amount = amount })).1
    unfolding step_event current_root current_group current_item
    step_event-IsValid d EventKind.adjust_step amount e =
        stay _ refl refl refl refl e (in_state v e)
    step_event-IsValid d EventKind.activate amount e =
        rebuild m _ refl refl refl refl v (in_state v e)
    step_event-IsValid d EventKind.back amount e = rebuild m _ refl refl refl refl v (in_state v e)
    step_event-IsValid d EventKind.move_selection amount e = v
    step_event-IsValid d EventKind.move_page amount e = v
    step_event-IsValid d EventKind.adjust_value_event amount e = v
    step_event-IsValid d EventKind.open_step_editor amount e = v

    step_found-IsValid :
        (found : Status) (d : Option (Descriptor fp W)) (event : Event)
        → m.state ≡ MenuState.step_edit_state
        → IsValid (step_found m found d event).1
    unfolding step_found
    step_found-IsValid found none event e = v
    step_found-IsValid found (some d) event e = step_event-IsValid d event.kind event.amount e

    pub handle_step_edit-IsValid :
        (event : Event) → m.state ≡ MenuState.step_edit_state → IsValid (handle_step_edit m event).1
    unfolding handle_step_edit
    handle_step_edit-IsValid event e =
        if_elim (λ (r : Status × Menu fp W). IsValid r.1)
          (is_adjust_step event.kind
            && (ltb_ℤ event.amount (negsuc 0) || ltb_ℤ (pos 1) event.amount))
          (λ _. v) (λ _. step_found-IsValid _ _ event e)

    pub handle_command_confirm-IsSafe :
        (kind : EventKind) (amount : ℤ) (now_ms : ℕ) (w : W)
        → m.state ≡ MenuState.command_confirm_state
        → IsSafe (handle_command_confirm m (record { kind = kind; amount = amount }) now_ms w)
    unfolding handle_command_confirm current_root current_group
    handle_command_confirm-IsSafe EventKind.activate amount now_ms w e =
        execute_command-IsSafe now_ms w (in_state v e).0
    handle_command_confirm-IsSafe EventKind.back amount now_ms w e =
        rebuild m _ refl refl refl refl v (in_state v e).0
    handle_command_confirm-IsSafe EventKind.move_selection amount now_ms w e = v
    handle_command_confirm-IsSafe EventKind.move_page amount now_ms w e = v
    handle_command_confirm-IsSafe EventKind.adjust_value_event amount now_ms w e = v
    handle_command_confirm-IsSafe EventKind.open_step_editor amount now_ms w e = v
    handle_command_confirm-IsSafe EventKind.adjust_step amount now_ms w e = v
