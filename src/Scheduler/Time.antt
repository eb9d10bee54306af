-- ===== src/Scheduler/Time.antt =====
-- scheduler_update slot by slot: words do not wrap, and every period is accounted for.
use native.Mathlib.Nat.{div-add-mod}
use embedded_library.Prelude.{
  ℕ, zero, suc, ◌+◌, ◌-◌, ◌*◌, ◌/◌, ◌%◌, ◌≤◌, ◌<◌, ◌≡◌, refl, true, List, [], ◌∷◌, length,
  if◌then◌else◌, arith,
}
use embedded_library.Status.{Status}
use embedded_library.Scheduler.{
  u32_max, u32_mod, max_interval_ticks, Slot, TaskConfig, slot_at, config_at, increment_counter,
}
use embedded_library.Scheduler.Api.{update_slot, update_slots, finish_slot}

-- A counter below its ceiling was never capped.
pub increment_counter-lt :
    (counter amount : ℕ)
    → counter ≤ u32_max
    → increment_counter counter amount < u32_max
    → increment_counter counter amount ≡ counter + amount
unfolding increment_counter
increment_counter-lt counter amount c h = ground arith

pub increment_counter_bounds :
    (counter amount : ℕ)
    → counter ≤ u32_max
    → (counter ≤ increment_counter counter amount) × (increment_counter counter amount ≤ u32_max)
unfolding increment_counter
increment_counter_bounds counter amount h = ground arith

-- Periods that have ended for a slot: run, missed, or waiting to run.
abbrev pub triggers : Slot → ℕ
triggers slot = slot.run_count + slot.missed_count + (if slot.ready then 1 else 0)

-- The ticks that a slot accounts for.
abbrev pub accounted : ℕ → Slot → ℕ
accounted period slot = period * triggers slot + slot.elapsed_ticks

pub record IsTimed (period : ℕ) (slot : Slot) : Type 0 where
  pub positive : 0 < period
  pub short : period ≤ max_interval_ticks
  pub partial : slot.elapsed_ticks < period
  pub run_small : slot.run_count ≤ u32_max
  pub missed_small : slot.missed_count ≤ u32_max

abbrev pub IsUncapped : Slot → Type 0
IsUncapped slot = (slot.run_count < u32_max) × (slot.missed_count < u32_max)

pub update_slot-IsTimed :
    (period delta : ℕ) (slot : Slot)
    → IsTimed period slot
    → IsTimed period (update_slot period delta slot)
unfolding update_slot
update_slot-IsTimed period delta slot v =
    let total = (slot.elapsed_ticks + delta) % u32_mod in
    ground (
      arith,
      increment_counter_bounds slot.missed_count (total / period),
      increment_counter_bounds slot.missed_count (total / period - 1),
    )

elapsed-update_slot :
    (period delta : ℕ) (slot : Slot)
    → IsTimed period slot
    → delta ≤ max_interval_ticks
    → (update_slot period delta slot).elapsed_ticks ≡ (slot.elapsed_ticks + delta) % period
unfolding update_slot
elapsed-update_slot period delta slot v h = ground arith

triggers-update_slot :
    (period delta : ℕ) (slot : Slot)
    → IsTimed period slot
    → delta ≤ max_interval_ticks
    → IsUncapped (update_slot period delta slot)
    → triggers (update_slot period delta slot)
      ≡ triggers slot + (slot.elapsed_ticks + delta) / period
unfolding update_slot
triggers-update_slot period delta slot v h u =
    let total = (slot.elapsed_ticks + delta) % u32_mod in
    ground (
      arith,
      increment_counter-lt slot.missed_count (total / period),
      increment_counter-lt slot.missed_count (total / period - 1),
    )

pub update_slot-accounted :
    (period delta : ℕ) (slot : Slot)
    → IsTimed period slot
    → delta ≤ max_interval_ticks
    → IsUncapped (update_slot period delta slot)
    → accounted period (update_slot period delta slot) ≡ accounted period slot + delta
update_slot-accounted period delta slot v h u =
    rw (triggers-update_slot period delta slot v h u, elapsed-update_slot period delta slot v h)
      (omega (arith, div-add-mod (slot.elapsed_ticks + delta) period))

pub update_slot-le :
    (period delta : ℕ) (slot : Slot)
    → IsTimed period slot
    → (slot.missed_count ≤ (update_slot period delta slot).missed_count)
      × (slot.run_count ≡ (update_slot period delta slot).run_count)
      × (slot.id ≡ (update_slot period delta slot).id)
unfolding update_slot
update_slot-le period delta slot v =
    let total = (slot.elapsed_ticks + delta) % u32_mod in
    ground (
      arith,
      increment_counter_bounds slot.missed_count (total / period),
      increment_counter_bounds slot.missed_count (total / period - 1),
    )

-- Running a ready slot keeps what it accounts for.
pub finish_slot-accounted :
    (period : ℕ) (slot : Slot) (status : Status)
    → IsTimed period slot
    → slot.ready ≡ true
    → IsUncapped (finish_slot slot status)
    → accounted period (finish_slot slot status) ≡ accounted period slot
unfolding finish_slot
finish_slot-accounted period slot status v r u =
    ground (arith, increment_counter-lt slot.run_count 1)

pub finish_slot-IsTimed :
    (period : ℕ) (slot : Slot) (status : Status)
    → IsTimed period slot
    → IsTimed period (finish_slot slot status)
unfolding finish_slot
finish_slot-IsTimed period slot status v = ground (arith, increment_counter_bounds slot.run_count 1)

pub finish_slot-le :
    (period : ℕ) (slot : Slot) (status : Status)
    → IsTimed period slot
    → (slot.missed_count ≡ (finish_slot slot status).missed_count)
      × (slot.run_count ≤ (finish_slot slot status).run_count)
      × (slot.id ≡ (finish_slot slot status).id)
unfolding finish_slot
finish_slot-le period slot status v = ground (arith, increment_counter_bounds slot.run_count 1)

-- The loop of scheduler_update reaches each of the first `n` slots once.
module _ {W : Type 0} (configs : List (TaskConfig W)) (delta : ℕ) where
  pub slot_at-update_slots :
      (n : ℕ) (slots : List Slot) (i : ℕ)
      → i < n
      → i < length slots
      → slot_at (update_slots configs delta n slots) i
        ≡ update_slot (config_at configs (slot_at slots i).id).period_ticks delta (slot_at slots i)
  unfolding update_slots
  slot_at-update_slots zero slots i h l = absurd (omega arith)
  slot_at-update_slots (suc n) [] i h l = absurd (omega arith)
  slot_at-update_slots (suc n) (x ∷ slots) zero h l = refl
  slot_at-update_slots (suc n) (x ∷ slots) (suc i) h l =
      slot_at-update_slots n slots i (omega arith) (omega arith)

  pub length-update_slots :
      (n : ℕ) (slots : List Slot) → length (update_slots configs delta n slots) ≡ length slots
  unfolding update_slots
  length-update_slots zero slots = refl
  length-update_slots (suc n) [] = refl
  length-update_slots (suc n) (x ∷ slots) = omega (arith, length-update_slots n slots)
