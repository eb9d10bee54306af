-- ===== src/Scheduler/Tests.antt =====
-- Runs of the scheduler with three tasks that log their context.
use mathlib.Core.List.{Perm}
use mathlib.Core.List.Perm
use embedded_library.Prelude.{
  ℕ, zero, suc, ◌+◌, ◌-◌, ◌^◌, ◌≤◌, ◌<◌, ◌≡◌, ◌↔◌, refl, true, false, some, List, [], ◌∷◌, ◌++◌,
  length, tabulate, arith, ◌==◌, if◌then◌else◌,
}
use embedded_library.Status.{Status, ok, busy}
use embedded_library.Scheduler.{
  Trigger, Slot, TaskConfig, config_at, fresh_slot, slot_at, sort_slots, heapify, extract,
  sift_down, sift_loop, larger_child, swap_slots, slot_follows, increment_counter,
}
use embedded_library.Scheduler.Api.{
  Scheduler, init, validate_config, validate_entries, fill_slots, update, update_slots, update_slot,
  tick_delta, run, run_slots, invoke,
}
use embedded_library.Scheduler.Time.{IsTimed, accounted}
use embedded_library.Scheduler.Init.{InOrder, IsRunnable, init_sorts, validate_config_iff}
use embedded_library.Scheduler.Run.{
  dispatch, ready_slots, first_failure, finish_slots, run_dispatches,
}
use embedded_library.Scheduler.Trace.{
  IsRunning, Step, Reach, accepted, period_at, no_period_lost, IsRunning-kept,
}
use embedded_library.Scheduler.Start.{init-IsRunning}

-- A callback that appends its context to the log and returns BUSY for context 7.
abbrev logs : ℕ → Trigger → List ℕ → Status × List ℕ
logs context trigger log = (if context == 7 then busy else ok, log ++ context ∷ [])

abbrev task : ℕ → ℕ → ℕ → TaskConfig (List ℕ)
task context priority period = record {
  callback = some logs;
  context = context;
  priority = priority;
  period_ticks = period;
}

abbrev table : List (TaskConfig (List ℕ))
table = task 5 2 10 ∷ task 6 1 20 ∷ task 7 1 30 ∷ []

abbrev blank : Scheduler (List ℕ)
blank = record {
  slots = [];
  configs = [];
  task_count = 0;
  last_tick = 0;
  time_initialized = false;
  initialized = false;
}

abbrev storage : List Slot
storage = fresh_slot 9 ∷ fresh_slot 9 ∷ fresh_slot 9 ∷ []

-- The slots in dispatch order: the two tasks of priority 1 first, by id.
abbrev started : Scheduler (List ℕ)
started = record {
  slots = fresh_slot 1 ∷ fresh_slot 2 ∷ fresh_slot 0 ∷ [];
  configs = table;
  task_count = 3;
  last_tick = 0;
  time_initialized = false;
  initialized = true;
}

init-started : init (some blank) (some storage) 3 (some table) 3 ≡ some (ok, some started)
unfolding init validate_config validate_entries fill_slots sort_slots heapify extract sift_down
    sift_loop larger_child swap_slots slot_follows
init-started = refl

table-ok : validate_config (some table) 3 ≡ ok
unfolding validate_config validate_entries
table-ok = refl

started-IsTimed : (i : ℕ) → i < 3 → IsTimed (period_at started i) (slot_at started.slots i)
started-IsTimed zero p = omega arith
started-IsTimed (suc zero) p = omega arith
started-IsTimed (suc (suc zero)) p = omega arith
started-IsTimed (suc (suc (suc i))) p = absurd (omega arith)

started-IsRunning : IsRunning started
started-IsRunning = record { live = refl; sized = refl; timed = started-IsTimed }

-- The time base is set, then 65 ticks pass, across the wrap of the counter.
abbrev based : Scheduler (List ℕ)
based = record started { last_tick = 2 ^ 32 - 5; time_initialized = true }

abbrev ticked : Scheduler (List ℕ)
ticked = record based {
  last_tick = 60;
  slots =
      record (fresh_slot 1) { elapsed_ticks = 5; missed_count = 2; ready = true }
      ∷ record (fresh_slot 2) { elapsed_ticks = 5; missed_count = 1; ready = true }
      ∷ record (fresh_slot 0) { elapsed_ticks = 5; missed_count = 5; ready = true }
      ∷ [];
}

update-based : (update (some started) (2 ^ 32 - 5)).1 ≡ some based
unfolding update
update-based = refl

update-ticked : (update (some based) 60).1 ≡ some ticked
unfolding update update_slots update_slot tick_delta increment_counter
update-ticked = refl

run-ticked : (run (some ticked) []).2 ≡ 6 ∷ 7 ∷ 5 ∷ []
unfolding run run_slots invoke
run-ticked = refl

run_dispatches_example :
    let (ss, w') = dispatch table (ready_slots 3 ticked.slots) [] in
    run (some ticked) []
    ≡ (first_failure ss, some (record ticked { slots = finish_slots 3 ticked.slots ss }), w')
run_dispatches_example = run_dispatches ticked [] refl

run_failure : (run (some ticked) []).0 ≡ busy
unfolding run run_slots invoke
run_failure = refl

validate_config_iff_example :
    (validate_config (some table) 3 ≡ ok)
    ↔ (3 < 2 ^ 16) × ((i : ℕ) → i < 3 → IsRunnable (config_at table i))
validate_config_iff_example = validate_config_iff 3 table (omega arith)

init_sorts_example :
    (s' : Scheduler (List ℕ)) × (init (some blank) (some storage) 3 (some table) 3
      ≡ some (ok, some s'))
    × (s'.initialized ≡ true)
    × (s'.time_initialized ≡ false)
    × (s'.configs ≡ table)
    × (s'.task_count ≡ 3)
    × (length s'.slots ≡ 3)
    × Perm s'.slots (tabulate 3 fresh_slot)
    × InOrder table 3 s'.slots
init_sorts_example = init_sorts blank storage table refl table-ok

init-IsRunning_example :
    (s' : Scheduler (List ℕ)) × (init (some blank) (some storage) 3 (some table) 3
      ≡ some (ok, some s'))
    × IsRunning s'
    × Perm s'.slots (tabulate s'.task_count fresh_slot)
init-IsRunning_example = init-IsRunning blank storage table refl table-ok (omega arith)

accepted-sum : 0 + accepted started (2 ^ 32 - 5) + accepted based 60 ≡ 65
unfolding accepted tick_delta
accepted-sum = refl

reached : Reach (started, []) (0 + accepted started (2 ^ 32 - 5) + accepted based 60) (ticked, [])
reached =
    Reach.next (Reach.next Reach.here (Step.ticked started based [] (2 ^ 32 - 5) update-based))
      (Step.ticked based ticked [] 60 update-ticked)

no_period_lost_example :
    accounted 10 (slot_at ticked.slots 2)
    ≡ accounted 10 (slot_at started.slots 2)
      + (0 + accepted started (2 ^ 32 - 5) + accepted based 60)
no_period_lost_example = no_period_lost 2 started-IsRunning reached (omega arith) (omega arith)

IsRunning-kept_example :
    IsRunning ticked
    × ((slot_at started.slots 2).id ≡ (slot_at ticked.slots 2).id)
    × (5 < 10)
    × (0 ≤ (slot_at ticked.slots 2).run_count)
    × (0 ≤ (slot_at ticked.slots 2).missed_count)
IsRunning-kept_example = IsRunning-kept 2 started-IsRunning reached (omega arith)

started-perm : Perm started.slots (tabulate 3 fresh_slot)
started-perm =
    Perm.trans (Perm.cons (fresh_slot 1) (Perm.swap (fresh_slot 0) (fresh_slot 2) []))
      (Perm.swap (fresh_slot 0) (fresh_slot 1) (fresh_slot 2 ∷ []))
