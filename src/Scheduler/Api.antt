-- ===== src/Scheduler/Api.antt =====
-- The public operations of services/scheduler/scheduler.c over the slots and the sort of its parent.
use embedded_library.Prelude.{
  is_null, elements, ℕ, zero, suc, ◌+◌, ◌-◌, ◌/◌, ◌%◌, ◌^◌, Bool, true, false, not, ◌&&◌, ◌||◌,
  Option, none, some, List, [], ◌∷◌, ltb, leb, ◌==◌, if◌then◌else◌,
}
use embedded_library.Status.{
  Status, ok, invalid_argument, invalid_state, not_initialized, out_of_range, internal_error, is_ok,
}
use embedded_library.Scheduler.{
  u32_mod, max_interval_ticks, periodic, Slot, TaskStats, fresh_slot, increment_counter, TaskConfig,
  config_at, sort_slots,
}

pub record Scheduler (W : Type 0) : Type 0 where
  pub slots : List Slot
  pub configs : List (TaskConfig W)
  pub task_count : ℕ
  pub last_tick : ℕ
  pub time_initialized : Bool
  pub initialized : Bool

-- `for (index = 0; index < n; ++index) slots[index] = fresh_slot(index)`, from `index` on.
unfoldable pub fill_slots : ℕ → ℕ → List Slot → List Slot
fill_slots index zero slots = slots
fill_slots index (suc n) [] = []
fill_slots index (suc n) (_ ∷ slots) = fresh_slot index ∷ fill_slots (suc index) n slots

-- One slot of the loop of scheduler_update.
unfoldable pub update_slot : ℕ → ℕ → Slot → Slot
update_slot period delta slot =
    let total = (slot.elapsed_ticks + delta) % u32_mod in
    let periods = total / period in
    let kept = record slot { elapsed_ticks = total % period } in
    if periods == 0
    then kept
    else if slot.ready
    then record kept { missed_count = increment_counter slot.missed_count periods }
    else record kept {
      ready = true;
      missed_count = increment_counter slot.missed_count (periods - 1);
    }

-- What scheduler_run writes to a ready slot whose callback returned `status`.
unfoldable pub finish_slot : Slot → Status → Slot
finish_slot slot status = record slot {
  ready = false;
  run_count = increment_counter slot.run_count 1;
  last_trigger = periodic;
  last_status = status;
  error_count = if is_ok status then slot.error_count else increment_counter slot.error_count 1;
}

-- `slots[index].id == id`, at the first such index.
unfoldable pub find_slot : ℕ → ℕ → List Slot → Option Slot
find_slot id zero slots = none
find_slot id (suc n) [] = none
find_slot id (suc n) (slot ∷ slots) = if slot.id == id then some slot else find_slot id n slots

unfoldable pub stats_of : Slot → TaskStats
stats_of slot = record {
  run_count = slot.run_count;
  error_count = slot.error_count;
  missed_count = slot.missed_count;
  last_status = slot.last_status;
  last_trigger = slot.last_trigger;
}

module _ {W : Type 0} where
  unfoldable pub validate_entries : ℕ → List (TaskConfig W) → Status
  validate_entries zero configs = ok
  validate_entries (suc n) [] = ok
  validate_entries (suc n) (config ∷ configs) =
      if is_null config.callback
      then invalid_argument
      else if config.period_ticks == 0 || ltb max_interval_ticks config.period_ticks
      then out_of_range
      else validate_entries n configs

  unfoldable pub validate_config : Option (List (TaskConfig W)) → ℕ → Status
  validate_config configs task_count =
      if ltb 0 task_count && is_null configs
      then invalid_argument
      else if ltb (2 ^ 16 - 1) task_count
      then out_of_range
      else validate_entries task_count (elements configs)

  -- `none` as a whole means that the fuel of the sort ran out. The slots are the caller's array, which
  -- the scheduler points to afterwards.
  unfoldable pub init :
      Option (Scheduler W)
      → Option (List Slot)
      → ℕ
      → Option (List (TaskConfig W))
      → ℕ
      → Option (Status × Option (Scheduler W))
  init none slots slot_capacity configs task_count = some (invalid_argument, none)
  init (some s) slots slot_capacity configs task_count =
      if s.initialized
      then some (invalid_state, some s)
      else if not (slot_capacity == task_count) || (ltb 0 task_count && is_null slots)
      then some (invalid_argument, some s)
      else if not (is_ok (validate_config configs task_count))
      then some (validate_config configs task_count, some s)
      else elim (sort_slots (elements configs) (fill_slots 0 task_count (elements slots))
          task_count) [
            | none ↦ none
            | some sorted ↦ some (
              ok,
              some (record {
                slots = sorted;
                configs = elements configs;
                task_count = task_count;
                last_tick = 0;
                time_initialized = false;
                initialized = true;
              }),
            )
          ]

  unfoldable pub update_slots : List (TaskConfig W) → ℕ → ℕ → List Slot → List Slot
  update_slots configs delta zero slots = slots
  update_slots configs delta (suc n) [] = []
  update_slots configs delta (suc n) (slot ∷ slots) =
      update_slot (config_at configs slot.id).period_ticks delta slot
      ∷ update_slots configs delta n slots

  -- Ticks since the last call, modulo 2 ^ 32.
  unfoldable pub tick_delta : Scheduler W → ℕ → ℕ
  tick_delta s now_tick = (now_tick + u32_mod - s.last_tick) % u32_mod

  unfoldable pub update : Option (Scheduler W) → ℕ → Status × Option (Scheduler W)
  update none now_tick = (not_initialized, none)
  update (some s) now_tick =
      if not s.initialized
      then (not_initialized, some s)
      else if not s.time_initialized
      then (ok, some (record s { last_tick = now_tick; time_initialized = true }))
      else if ltb max_interval_ticks (tick_delta s now_tick)
      then (out_of_range, some (record s { last_tick = now_tick }))
      else (
        ok,
        some (record s {
          last_tick = now_tick;
          slots = update_slots s.configs (tick_delta s now_tick) s.task_count s.slots;
        }),
      )

  -- A callback that is NULL cannot be called; scheduler_init admits none.
  unfoldable pub invoke : TaskConfig W → W → Status × W
  invoke config w = elim config.callback [
    | none ↦ (ok, w)
    | some call ↦ call config.context periodic w
  ]

  abbrev pub put_slot : Slot → List Slot × Status × W → List Slot × Status × W
  put_slot slot (slots, error, w) = (slot ∷ slots, error, w)

  -- The loop of scheduler_run over the slots that are left, with `first_error` and the outside state.
  unfoldable pub run_slots :
      List (TaskConfig W) → ℕ → List Slot → Status → W → List Slot × Status × W
  run_slots configs zero slots first_error w = (slots, first_error, w)
  run_slots configs (suc n) [] first_error w = ([], first_error, w)
  run_slots configs (suc n) (slot ∷ slots) first_error w =
      let skipped = put_slot slot (run_slots configs n slots first_error w) in
      let ran =
        let (status, w') = invoke (config_at configs slot.id) w in
        let error = if not (is_ok status) && is_ok first_error then status else first_error in
        put_slot (finish_slot slot status) (run_slots configs n slots error w') in
      if slot.ready then ran else skipped

  unfoldable pub run : Option (Scheduler W) → W → Status × Option (Scheduler W) × W
  run none w = (not_initialized, none, w)
  run (some s) w =
      if not s.initialized
      then (not_initialized, some s, w)
      else let (slots', error, w') = run_slots s.configs s.task_count s.slots ok w in
        (error, some (record s { slots = slots' }), w')

  -- The option is what goes through `stats` (`stats_null` says that the pointer is NULL).
  unfoldable pub get_stats : Option (Scheduler W) → ℕ → Bool → Status × Option TaskStats
  get_stats s id true = (invalid_argument, none)
  get_stats none id false = (not_initialized, none)
  get_stats (some s) id false =
      if not s.initialized
      then (not_initialized, none)
      else if leb s.task_count id
      then (out_of_range, none)
      else elim (find_slot id s.task_count s.slots) [
        | none ↦ (internal_error, none)
        | some slot ↦ (ok, some (stats_of slot))
      ]
