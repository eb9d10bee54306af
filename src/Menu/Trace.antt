-- ===== src/Menu/Trace.antt =====
-- mizu_menu_handle_event over sequences of events: the invariant, and the way back to the root.
use embedded_library.Prelude.{
  is_null, ℕ, ◌-◌, ◌≤◌, ◌≡◌, refl, ◌∙◌, ap, false, Option, none, some, List, [], ◌∷◌, length, pos,
  arith,
}
use embedded_library.Status.{Status}
use embedded_library.Parameter.{Floats, Value, Descriptor}
use embedded_library.Menu.{EventKind, Event, MenuState, Menu}
use embedded_library.Menu.Events.{handle_root, handle_group, edit_found, edit_event}
use embedded_library.Menu.Events.Handlers.{
  handle_display_page, handle_parameter_edit, handle_step_edit, handle_command_confirm, step_found,
  step_event, dispatch, handle_event,
}
use embedded_library.Menu.Navigation.{
  IsValid, IsPlaced, handle_root-IsValid, handle_display_page-IsValid,
}
use embedded_library.Menu.Items.{
  IsSafe, handle_group-IsSafe, edit_found-IsSafe, handle_step_edit-IsValid,
  handle_command_confirm-IsSafe,
}

-- How many steps a state is below the root list.
abbrev pub depth : MenuState → ℕ
depth MenuState.root_state = 0
depth MenuState.group_state = 1
depth MenuState.display_page_state = 1
depth MenuState.parameter_edit_state = 2
depth MenuState.command_confirm_state = 2
depth MenuState.step_edit_state = 3

abbrev pub back_event : Event
back_event = record { kind = EventKind.back; amount = pos 0 }

-- BACK at each of the times.
abbrev pub backs : List ℕ → List (Event × ℕ)
backs [] = []
backs (now_ms ∷ times) = (back_event, now_ms) ∷ backs times

depth_zero : (s : MenuState) → depth s ≡ 0 → s ≡ MenuState.root_state
depth_zero MenuState.root_state e = refl
depth_zero MenuState.group_state e = absurd (omega arith)
depth_zero MenuState.display_page_state e = absurd (omega arith)
depth_zero MenuState.parameter_edit_state e = absurd (omega arith)
depth_zero MenuState.command_confirm_state e = absurd (omega arith)
depth_zero MenuState.step_edit_state e = absurd (omega arith)

module _ {fp : Floats} {W : Type 0} where
  pub dispatch-IsSafe :
      (m : Menu fp W) (s : MenuState) (event : Event) (local : Value fp) (now_ms : ℕ) (w : W)
      → IsValid m
      → m.state ≡ s
      → IsSafe (dispatch s m event local now_ms w)
  unfolding dispatch handle_parameter_edit
  dispatch-IsSafe m MenuState.root_state event local now_ms w v e = handle_root-IsValid m event v e
  dispatch-IsSafe m MenuState.group_state event local now_ms w v e =
      handle_group-IsSafe m v event.kind event.amount local now_ms w e
  dispatch-IsSafe m MenuState.parameter_edit_state event local now_ms w v e =
      edit_found-IsSafe m v _ _ event local now_ms w e
  dispatch-IsSafe m MenuState.step_edit_state event local now_ms w v e =
      handle_step_edit-IsValid m v event e
  dispatch-IsSafe m MenuState.command_confirm_state event local now_ms w v e =
      handle_command_confirm-IsSafe m v event.kind event.amount now_ms w e
  dispatch-IsSafe m MenuState.display_page_state event local now_ms w v e =
      handle_display_page-IsValid m event v e

  -- The events of a list, each with the time of its call, one after the other.
  unfoldable pub handle_all :
      Option (Menu fp W) → Value fp → List (Event × ℕ) → W → Option (Menu fp W) × W
  handle_all m local [] w = (m, w)
  handle_all m local ((event, now_ms) ∷ events) w =
      let (status, m', w') = handle_event m (some event) local now_ms w in
      handle_all m' local events w'

  -- On a valid menu the event reaches the handler of its state.
  pub handle_event_valid :
      (m : Menu fp W) (event : Event) (local : Value fp) (now_ms : ℕ) (w : W)
      → IsValid m
      → let r = dispatch m.state m event local now_ms w in
        handle_event (some m) (some event) local now_ms w ≡ (r.0, some r.1, r.2)
  unfolding handle_event
  handle_event_valid m event local now_ms w v = simp (v.live)

  handle_all_step :
      (m : Menu fp W) (event : Event) (local : Value fp) (now_ms : ℕ) (events : List (Event × ℕ))
      (w : W)
      → IsValid m
      → let r = dispatch m.state m event local now_ms w in
        handle_all (some m) local ((event, now_ms) ∷ events) w
        ≡ handle_all (some r.1) local events r.2
  unfolding handle_all
  handle_all_step m event local now_ms events w v =
      simp (handle_event_valid m event local now_ms w v)

  -- Whatever events a valid menu is given, at whatever times, and whatever the getters, the setters and
  -- the command handlers do: the menu is valid afterwards, so that its cursors stand on entries that
  -- exist, an editor on a registered parameter, and a confirmation on a command.
  pub handle_all-IsValid :
      (m : Menu fp W) (local : Value fp) (events : List (Event × ℕ)) (w : W)
      → IsValid m
      → (m' : Menu fp W) × (w' : W) × (handle_all (some m) local events w ≡ (some m', w'))
        × IsValid m'
  unfolding handle_all
  handle_all-IsValid m local [] w v = (m, w, refl, v)
  handle_all-IsValid m local ((event, now_ms) ∷ events) w v =
      let r = dispatch m.state m event local now_ms w in
      let safe = dispatch-IsSafe m m.state event local now_ms w v refl in
      let (m', w', e, v') = handle_all-IsValid r.1 local events r.2 safe in
      (m', w', handle_all_step m event local now_ms events w v ∙ e, v')

  module _ (m : Menu fp W) (local : Value fp) (now_ms : ℕ) (w : W) where
    edit_back :
        (found : Status) (d : Option (Descriptor fp W))
        → is_null d ≡ false
        → let r = edit_found m found d back_event local now_ms w in
          (r.1.state ≡ MenuState.group_state) × (r.2 ≡ w)
    unfolding edit_found edit_event
    edit_back found none n = cc
    edit_back found (some d) n = (refl, refl)

    step_back :
        (found : Status) (d : Option (Descriptor fp W))
        → is_null d ≡ false
        → (step_found m found d back_event).1.state ≡ MenuState.parameter_edit_state
    unfolding step_found step_event
    step_back found none n = cc
    step_back found (some d) n = refl

    back_step :
        (s : MenuState)
        → IsPlaced m s
        → m.state ≡ s
        → let r = dispatch s m back_event local now_ms w in
          (depth r.1.state ≡ depth s - 1) × (r.2 ≡ w)
    unfolding dispatch handle_parameter_edit handle_root handle_group handle_step_edit
        handle_command_confirm handle_display_page
    back_step MenuState.root_state p e = (ap depth e, refl)
    back_step MenuState.group_state p e = (refl, refl)
    back_step MenuState.display_page_state p e = (refl, refl)
    back_step MenuState.command_confirm_state p e = (refl, refl)
    back_step MenuState.parameter_edit_state p e =
        let (home, same) = edit_back _ _ p.2 in (ap depth home, same)
    back_step MenuState.step_edit_state p e = (ap depth (step_back _ _ p.2), refl)

  -- From any state of a valid menu, BACK leads home: after as many BACK events as the state is steps
  -- below the root list, so after any three, or after more, the menu is valid and shows the root list,
  -- and nothing outside the menu has been called.
  pub backs_return :
      (m : Menu fp W) (local : Value fp) (times : List ℕ) (w : W)
      → IsValid m
      → depth m.state ≤ length times
      → (m' : Menu fp W) × (handle_all (some m) local (backs times) w ≡ (some m', w))
        × (m'.state ≡ MenuState.root_state)
        × IsValid m'
  unfolding handle_all
  backs_return m local [] w v l = (m, refl, depth_zero m.state (omega arith), v)
  backs_return m local (now_ms ∷ times) w v l =
      let r = dispatch m.state m back_event local now_ms w in
      let safe = dispatch-IsSafe m m.state back_event local now_ms w v refl in
      let (up, same) = back_step m local now_ms w m.state v.placed refl in
      let (m', e, home, v') = backs_return r.1 local times r.2 safe (omega (arith, up)) in
      (
        m',
        handle_all_step m back_event local now_ms (backs times) w v
            ∙ e
            ∙ ap (λ x. (some m', x)) same,
        home,
        v',
      )
