-- ===== src/Menu/Session.antt =====
-- Any history of calls of mizu_menu_handle_event and mizu_menu_process, with what the user was shown.
use embedded_library.Prelude.{
  ℕ, refl, sym, subst, not, Option, some, List, [], ◌∷◌, or_else, if_elim, ◌&&◌,
}
use embedded_library.Status.{Status}
use embedded_library.Parameter.{Floats, Value}
use embedded_library.Menu.{Event, Menu, empty_feedback, current_root, current_group, current_item}
use embedded_library.Menu.Events.Handlers.{handle_event}
use embedded_library.Menu.Messages.{process, is_due}
use embedded_library.Menu.Navigation.{IsValid, rebuild}
use embedded_library.Menu.Trace.{dispatch-IsSafe, handle_event_valid}
use embedded_library.Menu.Observed.{dispatch-Follows}
use embedded_library.Menu.Shown.{Knows, shown_after}

-- A call on the menu: mizu_menu_handle_event with its event, what the uninitialised local value holds,
-- the time, and what happened outside the menu before the call; or mizu_menu_process with its time.
pub data Round (fp : Floats) (W : Type 0) : Type 0 where
  handling : Event → Value fp → ℕ → (W → W) → Round fp W
  processing : ℕ → Round fp W

-- The menu, the value that the user was shown last, and the state outside the menu.
abbrev pub Session : Floats → Type 0 → Type 0
Session fp W = Menu fp W × Value fp × W

module _ {fp : Floats} {W : Type 0} where
  unfoldable pub advance : Session fp W → Round fp W → Session fp W
  advance (m, shown, w) (handling event local now_ms outside) =
      let (status, m', w') = handle_event (some m) (some event) local now_ms (outside w) in
      let after = or_else m' m in (after, shown_after m.state event.kind after shown, w')
  advance (m, shown, w) (processing now_ms) = (or_else (process (some m) now_ms).1 m, shown, w)

  unfoldable pub advance_all : Session fp W → List (Round fp W) → Session fp W
  advance_all session [] = session
  advance_all session (round ∷ rounds) = advance_all (advance session round) rounds

  -- The menu is valid, and its editor knows what was shown.
  abbrev pub IsSound : Session fp W → Type 0
  IsSound (m, shown, w) = IsValid m × Knows m shown

  process-IsSound :
      (m : Menu fp W) (shown : Value fp) (w : W) (now_ms : ℕ)
      → IsSound (m, shown, w)
      → IsSound (or_else (process (some m) now_ms).1 m, shown, w)
  unfolding process current_root current_group current_item
  process-IsSound m shown w now_ms s =
      let P : Status × Option (Menu fp W) → Type 0 = λ r. IsSound (or_else r.1 m, shown, w) in
      if_elim P (not m.initialized) (λ _. s)
        (λ _.
          if_elim P (m.feedback.active && is_due m.feedback_deadline_ms now_ms)
            (λ _. (
              rebuild m (record m { feedback = empty_feedback }) refl refl refl refl s.0 s.0.placed,
              s.1,
            ))
            (λ _. s))

  advance-IsSound :
      (session : Session fp W) (round : Round fp W)
      → IsSound session
      → IsSound (advance session round)
  unfolding advance
  advance-IsSound (m, shown, w) (handling event local now_ms outside) (v, k) =
      let w1 = outside w in
      let done = handle_event_valid m event local now_ms w1 v in
      subst
        (λ r.
          let after = or_else r.1 m in
          IsSound (after, shown_after m.state event.kind after shown, r.2))
        (sym done)
        (
          dispatch-IsSafe m m.state event local now_ms w1 v refl,
          dispatch-Follows m shown m.state event local now_ms w1 v.placed refl k,
        )
  advance-IsSound (m, shown, w) (processing now_ms) s = process-IsSound m shown w now_ms s

  pub advance_all-IsSound :
      (session : Session fp W) (rounds : List (Round fp W))
      → IsSound session
      → IsSound (advance_all session rounds)
  unfolding advance_all
  advance_all-IsSound session [] s = s
  advance_all-IsSound session (round ∷ rounds) s =
      advance_all-IsSound (advance session round) rounds (advance-IsSound session round s)
