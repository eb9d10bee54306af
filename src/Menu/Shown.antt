-- ===== src/Menu/Shown.antt =====
-- What the user of the value editor of menu.c has been shown, by an observer of the events, and the
-- editor's own record of it, `original_value`, through the group list and the editor.
use embedded_library.Prelude.{
  is_null, ℕ, ◌≡◌, refl, sym, subst, false, not, ◌||◌, Option, none, some, ℤ, if_elim, Option-cases,
  inl, inr, ◌==◌,
}
use Prim.{Unit, tt}
use embedded_library.Status.{Status, is_ok}
use embedded_library.Parameter.{Floats, Value, Descriptor, type_bool}
use embedded_library.Parameter.Adjust.{adjust_value}
use embedded_library.Parameter.Service as PS
use embedded_library.Command as CS
use embedded_library.Menu.{
  Item, EventKind, Event, MenuState, FeedbackReason, Menu, current_item, cached_step,
}
use embedded_library.Menu.Events.{
  execute_found, execute_command, enter_at, enter_read, enter_found, enter_parameter_edit,
  activate_item, handle_group, adjust_edit, apply_edit, edit_event, edit_found,
}
use embedded_library.Menu.Messages.{set_command_feedback, set_parameter_feedback, value_is_equal}

module _ {fp : Floats} where
  -- The value on the display when an event of the group list has opened the editor.
  abbrev pub opened : MenuState → Value fp → Value fp → Value fp
  opened MenuState.parameter_edit_state displayed shown = displayed
  opened _ displayed shown = shown

  -- The value on the display when ACTIVATE has been answered by the message of a conflict.
  abbrev pub warned : FeedbackReason → Value fp → Value fp → Value fp
  warned FeedbackReason.conflict_reason displayed shown = displayed
  warned _ displayed shown = shown

  -- What the editor remembers is what the user was shown, in the editor and in the step editor above it.
  abbrev pub Agrees : MenuState → Value fp → Value fp → Type 0
  Agrees MenuState.parameter_edit_state original shown = original ≡ shown
  Agrees MenuState.step_edit_state original shown = original ≡ shown
  Agrees _ original shown = Unit

module _ {fp : Floats} {W : Type 0} where
  -- The value read from the parameter that the user was shown last: the one on the display when the
  -- editor opened, or the one on the display when a conflict was announced. The arguments are the state
  -- before the event, the event's kind, and the menu after it.
  abbrev pub shown_after : MenuState → EventKind → Menu fp W → Value fp → Value fp
  shown_after MenuState.group_state kind m shown = opened m.state m.edit_value shown
  shown_after MenuState.parameter_edit_state EventKind.activate m shown =
      warned m.feedback.reason m.edit_value shown
  shown_after _ kind m shown = shown

  abbrev pub Knows : Menu fp W → Value fp → Type 0
  Knows m shown = Agrees m.state m.original_value shown

  -- Whatever a read answers, the buffer holds a value after it.
  pub get_by_id-some :
      (s : Option (PS.ParameterService fp W)) (id : ℕ) (local : Value fp) (w : W)
      → (current : Value fp) × ((PS.get_by_id s id (some local) w).1 ≡ some current)
  unfolding PS.get_by_id
  get_by_id-some s id local w = elim (Option-cases (PS.find s id false).1) [
    | inl absent ↦ (local, rw (PS.get_by_id, absent) refl)
    | inr (d, found) ↦ ((PS.read_current d local w).1, rw (PS.get_by_id, found) refl)
  ]

  module _ (m : Menu fp W) (shown : Value fp) where
    -- The handler's result keeps the agreement with what the observer says.
    abbrev pub Follows : MenuState → EventKind → Status × Menu fp W × W → Type 0
    Follows s kind r = Knows r.1 (shown_after s kind r.1 shown)

    -- A menu in the state of the group list, or one below it that is no editor.
    group_stays :
        (m' : Menu fp W)
        → m'.state ≡ MenuState.group_state
        → Agrees m'.state m'.original_value (opened m'.state m'.edit_value shown)
    group_stays m' e =
        subst (λ s. Agrees s m'.original_value (opened s m'.edit_value shown)) (sym e) tt

    enter_at-Follows :
        (found : Status) (i : Option ℕ) (value : Value fp) (w : W)
        → m.state ≡ MenuState.group_state
        → Follows MenuState.group_state EventKind.activate (enter_at m found i value w)
    unfolding enter_at
    enter_at-Follows found none value w e = group_stays m e
    enter_at-Follows found (some i) value w e = refl

    enter_read-Follows :
        (d : Descriptor fp W) (status : Status) (value : Option (Value fp)) (now_ms : ℕ) (w : W)
        → m.state ≡ MenuState.group_state
        → Follows MenuState.group_state EventKind.activate (enter_read m d status value now_ms w)
    unfolding enter_read set_parameter_feedback
    enter_read-Follows d status none now_ms w e = group_stays m e
    enter_read-Follows d status (some value) now_ms w e =
        if_elim (Follows MenuState.group_state EventKind.activate) (not (is_ok status))
          (λ _. group_stays m e) (λ _. enter_at-Follows _ _ value w e)

    enter_found-Follows :
        (found : Status) (d : Option (Descriptor fp W)) (local : Value fp) (now_ms : ℕ) (w : W)
        → m.state ≡ MenuState.group_state
        → Follows MenuState.group_state EventKind.activate (enter_found m found d local now_ms w)
    unfolding enter_found
    enter_found-Follows found none local now_ms w e = group_stays m e
    enter_found-Follows found (some d) local now_ms w e = enter_read-Follows d _ _ now_ms _ e

    execute_found-Follows :
        (found : Status) (c : Option (CS.Descriptor W)) (now_ms : ℕ) (w : W)
        → m.state ≡ MenuState.group_state
        → Follows MenuState.group_state EventKind.activate (execute_found m found c now_ms w)
    unfolding execute_found set_command_feedback
    execute_found-Follows found none now_ms w e = group_stays m e
    execute_found-Follows found (some c) now_ms w e = tt

    activate_item-Follows :
        (item : Item) (local : Value fp) (now_ms : ℕ) (w : W)
        → m.state ≡ MenuState.group_state
        → Follows MenuState.group_state EventKind.activate (activate_item m item local now_ms w)
    unfolding activate_item enter_parameter_edit execute_command
    activate_item-Follows (Item.parameter_item id) local now_ms w e =
        enter_found-Follows _ _ local now_ms w e
    activate_item-Follows (Item.command_item id requires_confirmation) local now_ms w e =
        if_elim (Follows MenuState.group_state EventKind.activate) requires_confirmation (λ _. tt)
          (λ _. execute_found-Follows _ _ now_ms w e)

    pub handle_group-Follows :
        (kind : EventKind) (amount : ℤ) (local : Value fp) (now_ms : ℕ) (w : W)
        → m.state ≡ MenuState.group_state
        → Follows MenuState.group_state kind
            (handle_group m (record { kind = kind; amount = amount }) local now_ms w)
    unfolding handle_group
    handle_group-Follows EventKind.activate amount local now_ms w e =
        activate_item-Follows (current_item m) local now_ms w e
    handle_group-Follows EventKind.back amount local now_ms w e = tt
    handle_group-Follows EventKind.move_selection amount local now_ms w e = group_stays m e
    handle_group-Follows EventKind.move_page amount local now_ms w e = group_stays m e
    handle_group-Follows EventKind.adjust_value_event amount local now_ms w e = group_stays m e
    handle_group-Follows EventKind.open_step_editor amount local now_ms w e = group_stays m e
    handle_group-Follows EventKind.adjust_step amount local now_ms w e = group_stays m e

    apply_edit-Follows :
        (d : Descriptor fp W) (status : Status) (current : Value fp) (now_ms : ℕ) (w : W)
        → m.state ≡ MenuState.parameter_edit_state
        → m.original_value ≡ shown
        → Follows MenuState.parameter_edit_state EventKind.activate
            (apply_edit m d status (some current) now_ms w)
    unfolding apply_edit set_parameter_feedback
    apply_edit-Follows d status current now_ms w e known =
        let P = Follows MenuState.parameter_edit_state EventKind.activate in
        let written = PS.set_by_id m.config.parameters d.id (some m.edit_value) w in
        let kept = subst (λ s. Agrees s m.original_value shown) (sym e) known in
        if_elim P (not (is_ok status)) (λ _. kept)
          (λ _.
            if_elim P (not (value_is_equal current m.original_value))
              (λ _. subst (λ s. Agrees s current current) (sym e) refl)
              (λ _. if_elim P (not (is_ok written.0)) (λ _. kept) (λ _. tt)))

    adjust_edit-Knows :
        (d : Descriptor fp W) (amount : ℤ) (now_ms : ℕ)
        → Knows m shown
        → Knows (adjust_edit m d amount now_ms) shown
    unfolding adjust_edit set_parameter_feedback
    adjust_edit-Knows d amount now_ms k =
        let r = adjust_value (some d) (some m.edit_value) (some (cached_step m)) amount false in
        if_elim (λ (m' : Menu fp W). Knows m' shown) (not (is_ok r.0)) (λ _. k) (λ _. k)

    edit_event-Follows :
        (d : Descriptor fp W) (kind : EventKind) (amount : ℤ) (local : Value fp) (now_ms : ℕ)
        (w : W)
        → m.state ≡ MenuState.parameter_edit_state
        → m.original_value ≡ shown
        → Follows MenuState.parameter_edit_state kind
            (edit_event m d (record { kind = kind; amount = amount }) local now_ms w)
    unfolding edit_event
    edit_event-Follows d EventKind.adjust_value_event amount local now_ms w e known =
        adjust_edit-Knows d amount now_ms
          (subst (λ s. Agrees s m.original_value shown) (sym e) known)
    edit_event-Follows d EventKind.open_step_editor amount local now_ms w e known =
        if_elim (Follows MenuState.parameter_edit_state EventKind.open_step_editor)
          (d.type == type_bool || value_is_equal d.minimum d.maximum)
          (λ _. subst (λ s. Agrees s m.original_value shown) (sym e) known) (λ _. known)
    edit_event-Follows d EventKind.back amount local now_ms w e known = tt
    edit_event-Follows d EventKind.activate amount local now_ms w e known =
        let r = PS.get_by_id m.config.parameters d.id (some local) w in
        let (current, same) = get_by_id-some m.config.parameters d.id local w in
        subst
          (λ o.
            Follows MenuState.parameter_edit_state EventKind.activate
              (apply_edit m d r.0 o now_ms r.2))
          (sym same) (apply_edit-Follows d r.0 current now_ms r.2 e known)
    edit_event-Follows d EventKind.move_selection amount local now_ms w e known =
        subst (λ s. Agrees s m.original_value shown) (sym e) known
    edit_event-Follows d EventKind.move_page amount local now_ms w e known =
        subst (λ s. Agrees s m.original_value shown) (sym e) known
    edit_event-Follows d EventKind.adjust_step amount local now_ms w e known =
        subst (λ s. Agrees s m.original_value shown) (sym e) known

    pub edit_found-Follows :
        (found : Status) (d : Option (Descriptor fp W)) (event : Event) (local : Value fp)
        (now_ms : ℕ) (w : W)
        → is_null d ≡ false
        → m.state ≡ MenuState.parameter_edit_state
        → m.original_value ≡ shown
        → Follows MenuState.parameter_edit_state event.kind
            (edit_found m found d event local now_ms w)
    unfolding edit_found
    edit_found-Follows found none event local now_ms w n e known = cc
    edit_found-Follows found (some d) event local now_ms w n e known =
        edit_event-Follows d event.kind event.amount local now_ms w e known
