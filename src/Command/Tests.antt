-- ===== src/Command/Tests.antt =====
-- Runs of the command service on two groups with three commands, over a counter as the state around it.
use embedded_library.Prelude.{
  ℕ, ◌+◌, ◌≤◌, ◌≡◌, refl, some, List, [], ◌∷◌, length, arith, true, false,
}
use embedded_library.Status.{Status, ok, busy}
use embedded_library.Registry.{Group, Text, id_exists, group_id_exists, has_id}
use embedded_library.Command.{
  Descriptor, CommandService, id_of, max_commands, check_commands, check_group, check_groups, init,
  bound_service, execute,
}
use embedded_library.Command.Init.{IsRegistered, init-IsRegistered}
use embedded_library.Command.Execute.{commands_of, recorded, execute-registered}

abbrev label : Text
label = some (65 ∷ [])

abbrev add_context : ℕ → ℕ → Status × ℕ
add_context context w = (ok, w + context)

abbrev refuse : ℕ → ℕ → Status × ℕ
refuse context w = (busy, w)

abbrev adder : ℕ → ℕ → Descriptor ℕ
adder id context = record { id = id; name = label; handler = some add_context; context = context }

abbrev refuser : Descriptor ℕ
refuser = record { id = 11; name = label; handler = some refuse; context = 0 }

abbrev group : ℕ → List (Descriptor ℕ) → Group (Descriptor ℕ)
group id items = record { id = id; name = label; items = some items; item_count = length items }

abbrev table : List (Group (Descriptor ℕ))
table = group 1 (adder 10 3 ∷ refuser ∷ []) ∷ group 2 (adder 12 5 ∷ []) ∷ []

abbrev blank : CommandService ℕ
blank = record {
  groups = [];
  group_count = 0;
  command_count = 7;
  snapshot = record { command_id = 9; status = busy; sequence = 4; has_result = true };
  initialized = false;
}

abbrev pub started : CommandService ℕ
started = bound_service table 2 3

table-ok : init (some blank) (some table) 2 ≡ (ok, some started)
unfolding init check_groups check_group check_commands id_exists group_id_exists has_id
table-ok = refl

started-IsRegistered : IsRegistered started
unfolding has_id
started-IsRegistered = (init-IsRegistered blank started table 2 (omega arith) table-ok).0

init-IsRegistered_example :
    IsRegistered started
    × (started.groups ≡ table)
    × (started.group_count ≡ 2)
    × (started.command_count ≤ max_commands)
    × (started.snapshot.has_result ≡ false)
init-IsRegistered_example = init-IsRegistered blank started table 2 (omega arith) table-ok

execute-registered_example :
    execute (some started) 12 100 ≡ (ok, some (recorded started 12 ok), 105)
execute-registered_example =
    execute-registered started 2 (adder 12 5) add_context 100 started-IsRegistered refl refl

no_13 : has_id id_of 13 (commands_of started) ≡ false
unfolding has_id
no_13 = refl
