-- ===== src/Scheduler/Init.antt =====
-- scheduler_init: what it accepts, and the order and completeness of the slots it leaves.
use mathlib.Core.List.{Perm}
use embedded_library.Prelude.{
  is_null, ℕ, zero, suc, ◌+◌, ◌^◌, ◌≤◌, ◌<◌, ◌≡◌, refl, ◌∙◌, ap, true, false, some, List, [], ◌∷◌,
  length, tabulate, tabulate_ext, length-tabulate, get_or-past, ge→ltb, ◌↔◌, ◌⊎◌, arith, dec_lt,
}
use embedded_library.Status.{ok}
use embedded_library.Scheduler.{
  Slot, TaskConfig, config_at, fresh_slot, slot_at, slot_follows, max_interval_ticks,
}
use embedded_library.Scheduler.Api.{Scheduler, fill_slots, validate_entries, validate_config, init}
use embedded_library.Scheduler.Heap.{IsBounded, slot_follows_lem}
use embedded_library.Scheduler.Sort.{sort_slots_sorts}

-- A task that the scheduler can run.
pub record IsRunnable {W : Type 0} (config : TaskConfig W) : Type 0 where
  pub callable : is_null config.callback ≡ false
  pub positive : 0 < config.period_ticks
  pub short : config.period_ticks ≤ max_interval_ticks

fill_slots_lem :
    (index n : ℕ) (slots : List Slot)
    → length slots ≡ n
    → fill_slots index n slots ≡ tabulate n (λ i. fresh_slot (index + i))
unfolding fill_slots
fill_slots_lem index zero [] h = refl
fill_slots_lem index zero (x ∷ slots) h = absurd (omega arith)
fill_slots_lem index (suc n) [] h = absurd (omega arith)
fill_slots_lem index (suc n) (x ∷ slots) h =
    let e : index ≡ index + 0 = omega arith in
    rw (fill_slots_lem (suc index) n slots (omega arith), ← e)
      (ap (◌∷◌ (fresh_slot index)) (
        tabulate_ext n _ _
          (λ i _. let e' : suc index + i ≡ index + suc i = omega arith in ap fresh_slot e')))

pub id_of_fresh :
    (n : ℕ) (f : ℕ → ℕ) (i : ℕ)
    → i < n
    → slot_at (tabulate n (λ k. fresh_slot (f k))) i ≡ fresh_slot (f i)
id_of_fresh zero f i h = absurd (omega arith)
id_of_fresh (suc n) f zero h = refl
id_of_fresh (suc n) f (suc i) h = id_of_fresh n (λ k. f (suc k)) i (omega arith)

module _ {W : Type 0} where
  validate_entries-IsRunnable :
      (n : ℕ) (configs : List (TaskConfig W))
      → n ≤ length configs
      → validate_entries n configs ≡ ok
      → (i : ℕ) → i < n
      → IsRunnable (config_at configs i)
  unfolding validate_entries
  validate_entries-IsRunnable zero configs l h i p = absurd (omega arith)
  validate_entries-IsRunnable (suc n) [] l h i p = absurd (omega arith)
  validate_entries-IsRunnable (suc n) (c ∷ configs) l h zero p = ground arith
  validate_entries-IsRunnable (suc n) (c ∷ configs) l h (suc i) p =
      validate_entries-IsRunnable n configs (omega arith) (ground arith) i (omega arith)

  runnable-validate_entries :
      (n : ℕ) (configs : List (TaskConfig W))
      → n ≤ length configs
      → ((i : ℕ) → i < n → IsRunnable (config_at configs i))
      → validate_entries n configs ≡ ok
  unfolding validate_entries
  runnable-validate_entries zero configs l h = refl
  runnable-validate_entries (suc n) [] l h = refl
  runnable-validate_entries (suc n) (c ∷ configs) l h =
      let first = h 0 (omega arith) in
      ground
        (arith, runnable-validate_entries n configs (omega arith) (λ i p. h (suc i) (omega arith)))

  validate_config-lt :
      (n : ℕ) (configs : List (TaskConfig W)) → validate_config (some configs) n ≡ ok → n < 2 ^ 16
  unfolding validate_config
  validate_config-lt n configs h = ground arith

  -- scheduler_validate_config accepts a table of `n` entries exactly when `n` is a 16-bit number and
  -- every entry has a callback and a period from 1 to INT32_MAX.
  pub validate_config_iff :
      (n : ℕ) (configs : List (TaskConfig W))
      → n ≤ length configs
      → (validate_config (some configs) n ≡ ok)
        ↔ (n < 2 ^ 16) × ((i : ℕ) → i < n → IsRunnable (config_at configs i))
  unfolding validate_config
  validate_config_iff n configs l = (
    λ h. (ground arith, validate_entries-IsRunnable n configs l (ground arith)),
    λ (s, r). ground (arith, runnable-validate_entries n configs l r),
  )

abbrev pub priority_of : {W : Type 0} → List (TaskConfig W) → Slot → ℕ
priority_of configs slot = (config_at configs slot.id).priority

-- The order that scheduler_run follows, the lowest priority number first.
abbrev pub InOrder : {W : Type 0} → List (TaskConfig W) → ℕ → List Slot → Type 0
InOrder configs n slots =
    (i j : ℕ)
    → i < j
    → j < n
    → let left = slot_at slots i in
      let right = slot_at slots j in
      (priority_of configs left < priority_of configs right)
      ⊎ (priority_of configs left ≡ priority_of configs right) × (left.id ≤ right.id)

-- What the comparison of scheduler.c decides when it denies that the left slot follows the right one.
unfollowed :
    {W : Type 0} (configs : List (TaskConfig W)) (left right : Slot)
    → slot_follows configs left.id right.id ≡ false
    → (priority_of configs left < priority_of configs right)
      ⊎ (priority_of configs left ≡ priority_of configs right) × (left.id ≤ right.id)
unfolding slot_follows
unfollowed configs left right h = ground arith

start-IsBounded : (n : ℕ) → n < 2 ^ 16 → IsBounded (tabulate n fresh_slot)
start-IsBounded n h i = elim (dec_lt i n) [
  | yes p ↦ rw (id_of_fresh n (λ k. k) i p) (omega arith)
  | no p ↦
      rw
        (get_or-past (tabulate n fresh_slot) i (fresh_slot 0)
          (omega (arith, length-tabulate n fresh_slot)))
        (omega arith)
]

fill_slots-start :
    (slots : List Slot) → fill_slots 0 (length slots) slots ≡ tabulate (length slots) fresh_slot
fill_slots-start slots =
    fill_slots_lem 0 (length slots) slots refl
    ∙ tabulate_ext (length slots) _ fresh_slot
        (λ i _. let e : 0 + i ≡ i = omega arith in ap fresh_slot e)

module _ {W : Type 0} (s : Scheduler W) (slots : List Slot) (configs : List (TaskConfig W))
    (fresh : s.initialized ≡ false)
    (valid : validate_config (some configs) (length slots) ≡ ok) where
  -- An object that is not initialised, with an array of as many slots as tasks and a table that
  -- scheduler_validate_config accepts: scheduler_init returns OK within the fuel of its sort, and the
  -- object is initialised with no time base and exactly one fresh slot for each task; of two slots, the
  -- earlier one has the lower priority number, or the same priority and the lower or equal id.
  pub init_sorts :
      (s' : Scheduler W) × (init (some s) (some slots) (length slots) (some configs) (length slots)
        ≡ some (ok, some s'))
      × (s'.initialized ≡ true)
      × (s'.time_initialized ≡ false)
      × (s'.configs ≡ configs)
      × (s'.task_count ≡ length slots)
      × (length s'.slots ≡ length slots)
      × Perm s'.slots (tabulate (length slots) fresh_slot)
      × InOrder configs (length slots) s'.slots
  unfolding init
  init_sorts =
      let small : length slots < 2 ^ 16 = validate_config-lt (length slots) configs valid in
      let start = tabulate (length slots) fresh_slot in
      let long = length-tabulate (length slots) fresh_slot in
      let (sorted, ran, r) =
        sort_slots_sorts configs (length slots) start (omega (arith, long))
          (start-IsBounded (length slots) small) in
      (
        record {
          slots = sorted;
          configs = configs;
          task_count = length slots;
          last_tick = 0;
          time_initialized = false;
          initialized = true;
        },
        rw (fresh, valid, fill_slots-start slots, ran) (ground arith),
        refl,
        refl,
        refl,
        refl,
        omega (arith, r.size, long),
        r.perm,
        λ i j p q. unfollowed configs (slot_at sorted i) (slot_at sorted j) (
            rw
              (slot_follows_lem configs (slot_at sorted i).id (slot_at sorted j).id (r.bounded i)
                (r.bounded j))
              (ge→ltb _ _ (r.holds i j p q))),
      )
