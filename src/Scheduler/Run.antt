-- ===== src/Scheduler/Run.antt =====
-- scheduler_run: which callbacks it calls, in which order, and what it records.
use embedded_library.Prelude.{
  ℕ, zero, suc, ◌≡◌, refl, inl, inr, ap, true, false, not, ◌&&◌, some, List, [], ◌∷◌, if◌then◌else◌,
  arith, Bool-cases, ltb,
}
use embedded_library.Status.{Status, ok, is_ok}
use embedded_library.Scheduler.{Slot, TaskConfig, config_at, u32_max, periodic, increment_counter}
use embedded_library.Scheduler.Api.{Scheduler, finish_slot, invoke, run_slots, run}

-- The ready slots among the first `n`, in the order of the array.
unfoldable pub ready_slots : ℕ → List Slot → List Slot
ready_slots zero slots = []
ready_slots (suc n) [] = []
ready_slots (suc n) (slot ∷ slots) =
    if slot.ready then slot ∷ ready_slots n slots else ready_slots n slots

-- The first status that is not OK.
unfoldable pub first_failure : List Status → Status
first_failure [] = ok
first_failure (s ∷ ss) = if is_ok s then first_failure ss else s

-- One more, up to the largest 32-bit number.
abbrev pub count_up : ℕ → ℕ
count_up n = if ltb n u32_max then suc n else u32_max

-- What a run of a slot's callback leaves in the slot: cleared, with the status of the callback, one more
-- run, and one more error unless the status is OK; its id, its ticks and its missed periods stay.
abbrev pub recorded : Slot → Status → Slot
recorded slot status = record {
  id = slot.id;
  elapsed_ticks = slot.elapsed_ticks;
  run_count = count_up slot.run_count;
  error_count = if is_ok status then slot.error_count else count_up slot.error_count;
  missed_count = slot.missed_count;
  last_status = status;
  last_trigger = periodic;
  ready = false;
}

increment_counter-one : (n : ℕ) → increment_counter n 1 ≡ count_up n
unfolding increment_counter
increment_counter-one n = ground arith

finish_slot-recorded :
    (slot : Slot) (status : Status) → finish_slot slot status ≡ recorded slot status
unfolding finish_slot
finish_slot-recorded slot status =
    rw (increment_counter-one slot.run_count, increment_counter-one slot.error_count) refl

-- Each ready slot among the first `n` takes the next status.
unfoldable pub finish_slots : ℕ → List Slot → List Status → List Slot
finish_slots zero slots ss = slots
finish_slots (suc n) [] ss = []
finish_slots (suc n) (slot ∷ slots) [] = slot ∷ finish_slots n slots []
finish_slots (suc n) (slot ∷ slots) (s ∷ ss) =
    let taken = recorded slot s ∷ finish_slots n slots ss in
    let skipped = slot ∷ finish_slots n slots (s ∷ ss) in if slot.ready then taken else skipped

finish_slots-nil : (n : ℕ) (slots : List Slot) → finish_slots n slots [] ≡ slots
unfolding finish_slots
finish_slots-nil zero slots = refl
finish_slots-nil (suc n) [] = refl
finish_slots-nil (suc n) (x ∷ slots) = ap (◌∷◌ x) (finish_slots-nil n slots)

finish_slots-take :
    (n : ℕ) (slot : Slot) (slots : List Slot) (s : Status) (ss : List Status)
    → slot.ready ≡ true
    → finish_slots (suc n) (slot ∷ slots) (s ∷ ss) ≡ recorded slot s ∷ finish_slots n slots ss
unfolding finish_slots
finish_slots-take n slot slots s ss e = rw e

finish_slots-skip :
    (n : ℕ) (slot : Slot) (slots : List Slot) (ss : List Status)
    → slot.ready ≡ false
    → finish_slots (suc n) (slot ∷ slots) ss ≡ slot ∷ finish_slots n slots ss
unfolding finish_slots
finish_slots-skip n slot slots [] e = refl
finish_slots-skip n slot slots (s ∷ ss) e = rw e

abbrev after_error : Status → List Status → Status
after_error e ss = if is_ok e then first_failure ss else e

after_first :
    (e s : Status) (ss : List Status)
    → after_error (if not (is_ok s) && is_ok e then s else e) ss ≡ after_error e (s ∷ ss)
unfolding first_failure
after_first e s ss = ground arith

module _ {W : Type 0} where
  -- The callbacks of the given slots, one after the other.
  unfoldable pub dispatch : List (TaskConfig W) → List Slot → W → List Status × W
  dispatch configs [] w = ([], w)
  dispatch configs (slot ∷ slots) w =
      let (s, w') = invoke (config_at configs slot.id) w in
      let (ss, w'') = dispatch configs slots w' in (s ∷ ss, w'')

  run_slots_lem :
      (configs : List (TaskConfig W)) (n : ℕ) (slots : List Slot) (e : Status) (w : W)
      → let (ss, w') = dispatch configs (ready_slots n slots) w in
        run_slots configs n slots e w ≡ (finish_slots n slots ss, after_error e ss, w')
  unfolding run_slots dispatch ready_slots first_failure
  run_slots_lem configs zero slots e w = ground (arith, finish_slots-nil 0 slots)
  run_slots_lem configs (suc n) [] e w = ground (arith, finish_slots-nil (suc n) [])
  run_slots_lem configs (suc n) (slot ∷ slots) e w = elim (Bool-cases slot.ready) [
    | inl r ↦
        let (s, w') = invoke (config_at configs slot.id) w in
        let (ss, w'') = dispatch configs (ready_slots n slots) w' in
        simp
          (
            r,
            run_slots_lem configs n slots (if not (is_ok s) && is_ok e then s else e) w',
            finish_slots-take n slot slots s ss r,
            finish_slot-recorded slot s,
          )
          (ap (λ x. (recorded slot s ∷ finish_slots n slots ss, x, w'')) (after_first e s ss))
    | inr r ↦ simp (r, run_slots_lem configs n slots e w, finish_slots-skip n slot slots _ r)
  ]

-- On an initialised scheduler, scheduler_run calls the callbacks of the ready slots in the order of
-- the slot array, each once; it returns the first status that is not OK, or OK; each ready slot
-- is cleared, has its own callback's status, one more run and, unless that status is OK, one more error,
-- the two counters staying at UINT32_MAX once there; and the other slots are as they were.
pub run_dispatches :
    {W : Type 0} (s : Scheduler W) (w : W)
    → s.initialized ≡ true
    → let (ss, w') = dispatch s.configs (ready_slots s.task_count s.slots) w in
      run (some s) w
      ≡ (first_failure ss, some (record s { slots = finish_slots s.task_count s.slots ss }), w')
unfolding run
run_dispatches s w h = rw (h, run_slots_lem s.configs s.task_count s.slots ok w)
