-- ===== src/Command.antt =====
-- services/command/command.c: the command service over a static registry. A handler is a function of
-- its context and of the state `W` of the program around the service.
pub mod Init
pub mod Execute
pub mod Tests
use embedded_library.Prelude.{
  is_null, elements, ℕ, zero, suc, ◌+◌, ◌-◌, ◌%◌, ◌^◌, Bool, true, false, not, ◌||◌, Option, none,
  some, List, [], ◌∷◌, length, ltb, leb, get_elem?, ◌==◌, if◌then◌else◌,
}
use embedded_library.Status.{
  Status, ok, invalid_argument, invalid_state, not_initialized, out_of_range, is_ok,
}
use embedded_library.Registry.{
  Text, is_blank, Group, entries, group_id_exists, find_item, id_exists,
}

abbrev pub max_groups : ℕ
max_groups = 16

abbrev pub max_commands : ℕ
max_commands = 64

pub record Descriptor (W : Type 0) : Type 0 where
  pub id : ℕ
  pub name : Text
  pub handler : Option (ℕ → W → Status × W)
  pub context : ℕ

pub record Snapshot : Type 0 where
  pub command_id : ℕ
  pub status : Status
  pub sequence : ℕ
  pub has_result : Bool

pub record CommandService (W : Type 0) : Type 0 where
  pub groups : List (Group (Descriptor W))
  pub group_count : ℕ
  pub command_count : ℕ
  pub snapshot : Snapshot
  pub initialized : Bool

module _ {W : Type 0} where
  abbrev pub id_of : Descriptor W → ℕ
  id_of c = c.id

  unfoldable pub find : CommandService W → ℕ → Option (Descriptor W)
  find s command_id = find_item id_of command_id s.group_count s.groups

  -- The loop over the commands of group `group_index` that are left, from `command_index` on.
  unfoldable pub check_commands : List (Group (Descriptor W)) → ℕ → ℕ → List (Descriptor W) → Status
  check_commands groups group_index command_index [] = ok
  check_commands groups group_index command_index (c ∷ commands) =
      if is_blank c.name || is_null c.handler
      then invalid_argument
      else if id_exists id_of groups group_index command_index c.id
      then invalid_argument
      else check_commands groups group_index (suc command_index) commands

  -- The checks of one group, before its commands.
  unfoldable pub check_group : List (Group (Descriptor W)) → ℕ → ℕ → Group (Descriptor W) → Status
  check_group groups group_index total g =
      if is_blank g.name || is_null g.items || g.item_count == 0
      then invalid_argument
      else if group_id_exists groups group_index g.id
      then invalid_argument
      else if ltb (max_commands - total) g.item_count
      then out_of_range
      else check_commands groups group_index 0 (entries g)

  -- The loop over the groups that are left, with the number of commands so far.
  unfoldable pub check_groups :
      List (Group (Descriptor W)) → ℕ → ℕ → ℕ → List (Group (Descriptor W)) → Status × ℕ
  check_groups groups group_index total zero rest = (ok, total)
  check_groups groups group_index total (suc n) [] = (ok, total)
  check_groups groups group_index total (suc n) (g ∷ rest) =
      let status = check_group groups group_index total g in
      let next = check_groups groups (suc group_index) (total + g.item_count) n rest in
      if is_ok status then next else (status, total)

  -- The object that init writes.
  abbrev pub bound_service : List (Group (Descriptor W)) → ℕ → ℕ → CommandService W
  bound_service groups group_count total = record {
    groups = groups;
    group_count = group_count;
    command_count = total;
    snapshot = record { command_id = 0; status = ok; sequence = 0; has_result = false };
    initialized = true;
  }

  unfoldable pub init :
      Option (CommandService W)
      → Option (List (Group (Descriptor W)))
      → ℕ
      → Status × Option (CommandService W)
  init none groups group_count = (invalid_argument, none)
  init (some s) groups group_count =
      if s.initialized
      then (invalid_state, some s)
      else if is_null groups || group_count == 0
      then (invalid_argument, some s)
      else if ltb max_groups group_count
      then (out_of_range, some s)
      else let (status, total) = check_groups (elements groups) 0 0 group_count (elements groups) in
        if not (is_ok status)
        then (status, some s)
        else (ok, some (bound_service (elements groups) group_count total))

  -- For the queries the option is what goes through the output pointer, and `null` says that this
  -- pointer is NULL.
  unfoldable pub get_group_count : Option (CommandService W) → Bool → Status × Option ℕ
  get_group_count none null = (invalid_argument, none)
  get_group_count (some s) null =
      if null
      then (invalid_argument, none)
      else if not s.initialized
      then (not_initialized, none)
      else (ok, some s.group_count)

  unfoldable pub get_group :
      Option (CommandService W) → ℕ → Bool → Status × Option (Group (Descriptor W))
  get_group none group_index null = (invalid_argument, none)
  get_group (some s) group_index null =
      if null
      then (invalid_argument, none)
      else if not s.initialized
      then (not_initialized, none)
      else if leb s.group_count group_index
      then (out_of_range, none)
      else (ok, get_elem? s.groups group_index)

  unfoldable pub get_descriptor_by_id :
      Option (CommandService W) → ℕ → Bool → Status × Option (Descriptor W)
  get_descriptor_by_id none command_id null = (invalid_argument, none)
  get_descriptor_by_id (some s) command_id null =
      if null
      then (invalid_argument, none)
      else if not s.initialized
      then (not_initialized, none)
      else elim (find s command_id) [ none ↦ (out_of_range, none) | some c ↦ (ok, some c) ]

  -- A handler that is NULL cannot be called; init admits none.
  unfoldable pub call_handler : Descriptor W → W → Status × W
  call_handler c w = elim c.handler [ none ↦ (ok, w) | some h ↦ h c.context w ]

  -- The status that execute returns and records, and the state after the handler.
  unfoldable pub outcome : CommandService W → ℕ → W → Status × W
  outcome s command_id w = elim (find s command_id) [
    | none ↦ (out_of_range, w)
    | some c ↦ call_handler c w
  ]

  unfoldable pub execute :
      Option (CommandService W) → ℕ → W → Status × Option (CommandService W) × W
  execute none command_id w = (invalid_argument, none, w)
  execute (some s) command_id w =
      if not s.initialized
      then (not_initialized, some s, w)
      else let (status, w') = outcome s command_id w in
        (
          status,
          some (record s {
            snapshot = record {
              command_id = command_id;
              status = status;
              sequence = (s.snapshot.sequence + 1) % 2 ^ 32;
              has_result = true;
            };
          }),
          w',
        )

  unfoldable pub get_snapshot : Option (CommandService W) → Bool → Status × Option Snapshot
  get_snapshot none null = (invalid_argument, none)
  get_snapshot (some s) null =
      if null
      then (invalid_argument, none)
      else if not s.initialized
      then (not_initialized, none)
      else (ok, some s.snapshot)
