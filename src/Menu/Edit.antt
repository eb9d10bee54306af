-- ===== src/Menu/Edit.antt =====
-- The end of an edit: ACTIVATE in the value editor of menu.c, after any history of calls.
use embedded_library.Prelude.{
  ℕ, ◌≡◌, refl, sym, ◌∙◌, ap, subst, false, true, not, if◌then◌else◌, Option, none, some, List, ℤ,
  pos, negsuc, if_elim, ◌⊎◌, inl, inr, is_null, arith,
}
use Prim.{tt}
use embedded_library.Status.{Status, ok, is_ok}
use embedded_library.Parameter.{
  Floats, Value, Descriptor, float_value, int32_value, uint32_value, bool_value, eq_ℤ,
}
use embedded_library.Parameter.Service as PS
use embedded_library.Menu.{EventKind, Event, MenuState, FeedbackReason, Menu}
use embedded_library.Menu.Events.{apply_edit, edit_found, edit_event, current_parameter}
use embedded_library.Menu.Events.Handlers.{dispatch, handle_parameter_edit, handle_event}
use embedded_library.Menu.Messages.{value_is_equal, set_parameter_feedback}
use embedded_library.Menu.Navigation.{IsValid, in_state}
use embedded_library.Menu.Trace.{handle_event_valid}
use embedded_library.Menu.Session.{IsSound, Round, advance_all, advance_all-IsSound}
use embedded_library.Menu.Shown.{Agrees, get_by_id-some}

same_int : (l r : ℤ) → eq_ℤ l r ≡ true → l ≡ r
same_int (pos a) (pos b) h = ap pos (ground arith)
same_int (negsuc a) (negsuc b) h = ap negsuc (ground arith)
same_int (pos a) (negsuc b) h = absurd (ground arith)
same_int (negsuc a) (pos b) h = absurd (ground arith)

eq_itself : (l r : ℤ) → l ≡ r → eq_ℤ l r ≡ true
eq_itself l r e = rw e (ground arith)

module _ {fp : Floats} where
  -- Two values of one type are the same: equal, or, on floats, equal by the platform's `==`.
  abbrev pub IsSame : Value fp → Value fp → Type 0
  IsSame (float_value l) (float_value r) = fp.eq_float l r ≡ true
  IsSame (int32_value l) (int32_value r) = l ≡ r
  IsSame (uint32_value l) (uint32_value r) = l ≡ r
  IsSame (bool_value l) (bool_value r) = l ≡ r
  IsSame _ _ = ⊥

  equal-IsSame : (l r : Value fp) → value_is_equal l r ≡ true → IsSame l r
  unfolding value_is_equal
  equal-IsSame (float_value l) (float_value r) h = h
  equal-IsSame (int32_value l) (int32_value r) h = same_int l r h
  equal-IsSame (uint32_value l) (uint32_value r) h = ground arith
  equal-IsSame (bool_value true) (bool_value r) h = sym h
  equal-IsSame (bool_value false) (bool_value false) h = refl
  equal-IsSame (bool_value false) (bool_value true) h = h
  equal-IsSame _ _ h = absurd (ground arith)

  IsSame-equal : (l r : Value fp) → IsSame l r → value_is_equal l r ≡ true
  unfolding value_is_equal
  IsSame-equal (float_value l) (float_value r) h = h
  IsSame-equal (int32_value l) (int32_value r) h = eq_itself l r h
  IsSame-equal (uint32_value l) (uint32_value r) h = ground arith
  IsSame-equal (bool_value true) (bool_value r) h = sym h
  IsSame-equal (bool_value false) (bool_value r) h = rw (sym h) refl
  IsSame-equal _ _ h = absurd h

module _ {fp : Floats} {W : Type 0} where
  -- What ACTIVATE may do in the editor on the parameter `d`, with the menu before it, the value shown, the
  -- answer of a read of the parameter with the world after it, and the menu and the world at the end.
  -- Either the read failed, and the editor stays and nothing is written; or the value read is not the one
  -- shown, and the editor stays, displays the value read with the message of a conflict, and writes
  -- nothing; or it is the one shown, and the edited value is written by one call of the parameter
  -- service, and the editor is left exactly if that call returned OK.
  abbrev pub IsDecided :
      Menu fp W
      → Value fp
      → Descriptor fp W
      → Status × Option (Value fp) × W
      → Menu fp W × W
      → Type 0
  IsDecided m shown d (status, none, w) r = ⊥
  IsDecided m shown d (status, some current, w) (m', w') =
      let write = PS.set_by_id m.config.parameters d.id (some m.edit_value) w in
      ((is_ok status ≡ false) × (m'.state ≡ MenuState.parameter_edit_state) × (w' ≡ w))
      ⊎ ((is_ok status ≡ true)
          × ¬ IsSame current shown
          × (m'.state ≡ MenuState.parameter_edit_state)
          × (m'.edit_value ≡ current)
          × (m'.feedback.reason ≡ FeedbackReason.conflict_reason)
          × (w' ≡ w))
      ⊎ ((is_ok status ≡ true)
          × IsSame current shown
          × (m'.state
              ≡ (if is_ok write.0 then MenuState.group_state else MenuState.parameter_edit_state))
          × (w' ≡ write.1))

  module _ (m : Menu fp W) (shown : Value fp) (now_ms : ℕ) where
    -- A result that returns OK and is one of those.
    abbrev Decides :
        Descriptor fp W → Status × Option (Value fp) × W → Status × Menu fp W × W → Type 0
    Decides d reading r = (r.0 ≡ ok) × IsDecided m shown d reading (r.1, r.2)

    apply_edit-Decides :
        (d : Descriptor fp W) (status : Status) (current : Value fp) (w : W)
        → m.state ≡ MenuState.parameter_edit_state
        → m.original_value ≡ shown
        → Decides d (status, some current, w) (apply_edit m d status (some current) now_ms w)
    unfolding apply_edit set_parameter_feedback
    apply_edit-Decides d status current w e known =
        let P = Decides d (status, some current, w) in
        let written = PS.set_by_id m.config.parameters d.id (some m.edit_value) w in
        if_elim P (not (is_ok status)) (λ bad. (refl, inl (ground arith, e, refl)))
          (λ read.
            if_elim P (not (value_is_equal current m.original_value))
              (λ other.
                let differs = λ (same : IsSame current shown).
                  let equal =
                    IsSame-equal current m.original_value
                      (subst (IsSame current) (sym known) same) in
                  absurd (ground arith) in
                (refl, inr (inl (ground arith, differs, e, refl, refl, refl))))
              (λ unchanged.
                let same =
                  subst (IsSame current) known
                    (equal-IsSame current m.original_value (ground arith)) in
                if_elim P (not (is_ok written.0))
                  (λ failed. (refl, inr (inr (ground arith, same, ground (arith, e), refl))))
                  (λ fine. (refl, inr (inr (ground arith, same, ground arith, refl))))))

    edit_found-Decides :
        (found : Status) (parameter : Option (Descriptor fp W)) (amount : ℤ) (local : Value fp)
        (w : W)
        → is_null parameter ≡ false
        → m.state ≡ MenuState.parameter_edit_state
        → m.original_value ≡ shown
        → (d : Descriptor fp W) × (parameter ≡ some d)
          × Decides d (PS.get_by_id m.config.parameters d.id (some local) w) (
              edit_found m found parameter
                (record { kind = EventKind.activate; amount = amount })
                local
                now_ms
                w)
    unfolding edit_found edit_event
    edit_found-Decides found none amount local w n e known = cc
    edit_found-Decides found (some d) amount local w n e known =
        let r = PS.get_by_id m.config.parameters d.id (some local) w in
        let (current, same) = get_by_id-some m.config.parameters d.id local w in
        let decided = apply_edit-Decides d r.0 current r.2 e known in
        (
          d,
          refl,
          subst (λ o. Decides d (r.0, o, r.2) (apply_edit m d r.0 o now_ms r.2)) (sym same) decided,
        )

  -- From a valid menu on its root list, after any history of mizu_menu_handle_event and
  -- mizu_menu_process, whatever happens outside the menu between the calls: ACTIVATE in the value editor
  -- returns OK. It reads the parameter. If the read fails, nothing is written and the editor stays. If the
  -- value read is not the same as the one that the user was shown last, when the editor opened or when a
  -- conflict was announced, nothing is written, and the editor stays and displays the value read, with the
  -- message of a conflict. If it is the same (equal, on floats by the platform's ==), the edited value is
  -- written by one mizu_parameter_service_set_by_id, and the editor is left for the group list exactly if
  -- that returns OK.
  pub handle_event-IsDecided :
      (start m : Menu fp W) (first shown : Value fp) (before w : W) (rounds : List (Round fp W))
      → IsValid start
      → start.state ≡ MenuState.root_state
      → advance_all (start, first, before) rounds ≡ (m, shown, w)
      → m.state ≡ MenuState.parameter_edit_state
      → (local : Value fp) (amount : ℤ) (now_ms : ℕ) (here : W)
      → (d : Descriptor fp W) × ((current_parameter m).1 ≡ some d)
        × (m' : Menu fp W) × (after : W) × (handle_event
              (some m)
              (some (record { kind = EventKind.activate; amount = amount }))
              local
              now_ms
              here
            ≡ (ok, some m', after))
        × IsDecided m shown d (PS.get_by_id m.config.parameters d.id (some local) here) (m', after)
  unfolding dispatch handle_parameter_edit
  handle_event-IsDecided start m first shown before w rounds v root ran e local amount now_ms here =
      let fits = subst (λ s. Agrees s start.original_value first) (sym root) tt in
      let (valid, known) =
        subst IsSound ran (advance_all-IsSound (start, first, before) rounds (v, fits)) in
      let event : Event = record { kind = EventKind.activate; amount = amount } in
      let (d, found, (answer, decided)) =
        edit_found-Decides m shown now_ms (current_parameter m).0 (current_parameter m).1 amount
          local here (in_state valid e).2 e
          (subst (λ s. Agrees s m.original_value shown) e known) in
      let r = dispatch MenuState.parameter_edit_state m event local now_ms here in
      let handled = handle_event_valid m event local now_ms here valid in
      (
        d,
        found,
        r.1,
        r.2,
        handled
            ∙ ap (λ s. let r' = dispatch s m event local now_ms here in (r'.0, some r'.1, r'.2)) e
            ∙ ap (λ s. (s, some r.1, r.2)) answer,
        decided,
      )
