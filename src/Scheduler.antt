-- ===== src/Scheduler.antt =====
-- services/scheduler/scheduler.c: the cooperative scheduler. The caller's arrays of slots and task
-- configurations are lists, `none` is NULL, and a callback is a function on the state `W` of the
-- program around the scheduler. Counters and ticks are 32-bit words.
pub mod Api
pub mod Sort
pub mod Heap
pub mod Init
pub mod Time
pub mod Run
pub mod Kept
pub mod Trace
pub mod Stats
pub mod Start
mod Tests
use embedded_library.Prelude.{
  ℕ, zero, suc, ◌+◌, ◌-◌, ◌*◌, ◌/◌, ◌%◌, ◌^◌, Bool, true, false, not, ◌&&◌, ◌||◌, Option, none,
  some, List, [], ◌∷◌, length, get_or, set, ltb, leb, ◌==◌, if◌then◌else◌,
}
use embedded_library.Status.{
  Status, ok, invalid_argument, invalid_state, not_initialized, out_of_range, internal_error, is_ok,
}

abbrev pub u32_mod : ℕ
u32_mod = 2 ^ 32

abbrev pub u32_max : ℕ
u32_max = 2 ^ 32 - 1

-- SCHEDULER_MAX_INTERVAL_TICKS, which is INT32_MAX.
abbrev pub max_interval_ticks : ℕ
max_interval_ticks = 2 ^ 31 - 1

pub data Trigger : Type 0 where
  periodic : Trigger

pub record Slot : Type 0 where
  pub id : ℕ
  pub elapsed_ticks : ℕ
  pub run_count : ℕ
  pub error_count : ℕ
  pub missed_count : ℕ
  pub last_status : Status
  pub last_trigger : Trigger
  pub ready : Bool

pub record TaskStats : Type 0 where
  pub run_count : ℕ
  pub error_count : ℕ
  pub missed_count : ℕ
  pub last_status : Status
  pub last_trigger : Trigger

-- The slot that scheduler_init writes at an index.
abbrev pub fresh_slot : ℕ → Slot
fresh_slot index = record {
  id = index;
  elapsed_ticks = 0;
  run_count = 0;
  error_count = 0;
  missed_count = 0;
  last_status = ok;
  last_trigger = periodic;
  ready = false;
}

abbrev pub slot_at : List Slot → ℕ → Slot
slot_at slots i = get_or slots i (fresh_slot 0)

unfoldable pub increment_counter : ℕ → ℕ → ℕ
increment_counter counter amount =
    if ltb (u32_max - counter) amount then u32_max else (counter + amount) % u32_mod

unfoldable pub swap_slots : List Slot → ℕ → ℕ → List Slot
swap_slots slots left right = set (set slots left (slot_at slots right)) right (slot_at slots left)

pub record TaskConfig (W : Type 0) : Type 0 where
  pub callback : Option (ℕ → Trigger → W → Status × W)
  pub context : ℕ
  pub priority : ℕ
  pub period_ticks : ℕ

module _ {W : Type 0} where
  -- What a read past the end of the configuration table stands for; no proof reads it.
  abbrev pub null_config : TaskConfig W
  null_config = record { callback = none; context = 0; priority = 0; period_ticks = 0 }

  abbrev pub config_at : List (TaskConfig W) → ℕ → TaskConfig W
  config_at configs i = get_or configs i null_config

  unfoldable pub slot_follows : List (TaskConfig W) → ℕ → ℕ → Bool
  slot_follows configs left right =
      ltb (config_at configs right).priority (config_at configs left).priority
      || ((config_at configs left).priority == (config_at configs right).priority && ltb right left)

  -- The child of `root` that the heap keeps on top.
  unfoldable pub larger_child : List (TaskConfig W) → List Slot → ℕ → ℕ → ℕ
  larger_child configs slots root count =
      let child = root * 2 + 1 in
      if ltb (child + 1) count
        && slot_follows configs (slot_at slots (child + 1)).id (slot_at slots child).id
      then child + 1
      else child

  -- The loop of scheduler_sift_down; `none` means that the fuel ran out.
  unfoldable pub sift_loop : ℕ → List (TaskConfig W) → List Slot → ℕ → ℕ → Option (List Slot)
  sift_loop zero configs slots root count = none
  sift_loop (suc fuel) configs slots root count =
      let child = larger_child configs slots root count in
      let rest = sift_loop fuel configs (swap_slots slots root child) child count in
      if ltb root (count / 2)
      then (if not (slot_follows configs (slot_at slots child).id (slot_at slots root).id)
          then some slots
          else rest)
      else some slots

  unfoldable pub sift_down : List (TaskConfig W) → List Slot → ℕ → ℕ → Option (List Slot)
  sift_down configs slots root count = sift_loop (suc count) configs slots root count

  -- `for (start = n; start > 0; --start) sift_down(start - 1, count)`
  unfoldable pub heapify : List (TaskConfig W) → List Slot → ℕ → ℕ → Option (List Slot)
  heapify configs slots zero count = some slots
  heapify configs slots (suc start) count = elim (sift_down configs slots start count) [
    | none ↦ none
    | some slots' ↦ heapify configs slots' start count
  ]

  -- `for (end = n + 1; end > 1; --end) { swap(0, end - 1); sift_down(0, end - 1); }`
  unfoldable pub extract : List (TaskConfig W) → List Slot → ℕ → Option (List Slot)
  extract configs slots zero = some slots
  extract configs slots (suc n) = elim (sift_down configs (swap_slots slots 0 (suc n)) 0 (suc n)) [
    | none ↦ none
    | some slots' ↦ extract configs slots' n
  ]

  unfoldable pub sort_slots : List (TaskConfig W) → List Slot → ℕ → Option (List Slot)
  sort_slots configs slots task_count = elim (heapify configs slots (task_count / 2) task_count) [
    | none ↦ none
    | some slots' ↦ extract configs slots' (task_count - 1)
  ]
