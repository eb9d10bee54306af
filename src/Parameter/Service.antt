-- ===== src/Parameter/Service.antt =====
-- services/parameter/parameter.c: the service over a static registry of parameters. The parameter `local`
-- is what the uninitialised local variable `value` of the C function holds before the getter runs.
pub mod Init
pub mod Calls
use embedded_library.Prelude.{
  is_null, elements, ℕ, zero, suc, ◌+◌, ◌-◌, Bool, true, false, not, ◌&&◌, ◌||◌, Option, none, some,
  List, [], ◌∷◌, ltb, leb, ◌==◌, if◌then◌else◌, ℤ, get_elem?,
}
use embedded_library.Status.{
  Status, ok, invalid_argument, invalid_data, invalid_state, not_initialized, out_of_range, is_ok,
}
use embedded_library.Registry.{is_blank, Group, entries, group_id_exists, find_item, id_exists}
use embedded_library.Parameter.{
  Floats, Value, Descriptor, id_of, is_zero, type_float, type_of, finite_value, value_is_valid,
  value_in_range, validate_descriptor,
}
use embedded_library.Parameter.Adjust.{adjust_value}

abbrev pub max_groups : ℕ
max_groups = 16

abbrev pub max_parameters : ℕ
max_parameters = 64

pub record ParameterService (fp : Floats) (W : Type 0) : Type 0 where
  pub groups : List (Group (Descriptor fp W))
  pub group_count : ℕ
  pub parameter_count : ℕ
  pub initialized : Bool

pub record AdjustRequest : Type 0 where
  pub id : ℕ
  pub step_count : ℤ

module _ {fp : Floats} {W : Type 0} where
  -- Init admits no getter and no setter that is NULL where it is called.
  unfoldable pub call_getter : Descriptor fp W → Value fp → W → Status × Value fp × W
  call_getter d buffer w = elim d.getter [
    | none ↦ (ok, buffer, w)
    | some get ↦ get d.context buffer w
  ]

  unfoldable pub call_setter : Descriptor fp W → Value fp → W → Status × W
  call_setter d value w = elim d.setter [ none ↦ (ok, w) | some set ↦ set d.context value w ]

  -- Reads a parameter and judges what the getter returned: the buffer keeps what the getter wrote.
  unfoldable pub read_current : Descriptor fp W → Value fp → W → Status × Value fp × W
  read_current d buffer w =
      let (status, value, w') = call_getter d buffer w in
      if not (is_ok status)
      then (status, value, w')
      else if not (value_is_valid value d.type) || not (value_in_range d value)
      then (invalid_data, value, w')
      else (ok, value, w')

  unfoldable pub validate_current : Descriptor fp W → Value fp → W → Status × W
  validate_current d local w = let (status, _, w') = read_current d local w in (status, w')

  -- The loop over the parameters of group `group_index` that are left, from `parameter_index` on.
  unfoldable pub check_parameters :
      List (Group (Descriptor fp W)) → ℕ → Value fp → ℕ → List (Descriptor fp W) → W → Status × W
  check_parameters groups group_index local parameter_index [] w = (ok, w)
  check_parameters groups group_index local parameter_index (d ∷ parameters) w =
      let (status, w') = validate_current d local w in
      let rest = check_parameters groups group_index local (suc parameter_index) parameters w' in
      if not (is_ok (validate_descriptor d))
      then (validate_descriptor d, w)
      else if id_exists id_of groups group_index parameter_index d.id
      then (invalid_argument, w)
      else if not (is_ok status)
      then (status, w')
      else rest

  unfoldable pub check_group :
      List (Group (Descriptor fp W)) → Value fp → ℕ → ℕ → Group (Descriptor fp W) → W → Status × W
  check_group groups local group_index total g w =
      if is_blank g.name || is_null g.items || g.item_count == 0
      then (invalid_argument, w)
      else if group_id_exists groups group_index g.id
      then (invalid_argument, w)
      else if ltb (max_parameters - total) g.item_count
      then (out_of_range, w)
      else check_parameters groups group_index local 0 (entries g) w

  -- The loop over the groups that are left, with the number of parameters so far.
  unfoldable pub check_groups :
      List (Group (Descriptor fp W))
      → Value fp
      → ℕ
      → ℕ
      → ℕ
      → List (Group (Descriptor fp W))
      → W
      → Status × ℕ × W
  check_groups groups local group_index total zero rest w = (ok, total, w)
  check_groups groups local group_index total (suc n) [] w = (ok, total, w)
  check_groups groups local group_index total (suc n) (g ∷ rest) w =
      let (status, w') = check_group groups local group_index total g w in
      let next = check_groups groups local (suc group_index) (total + g.item_count) n rest w' in
      if is_ok status then next else (status, total, w')

  abbrev pub bound_service : List (Group (Descriptor fp W)) → ℕ → ℕ → ParameterService fp W
  bound_service groups group_count total = record {
    groups = groups;
    group_count = group_count;
    parameter_count = total;
    initialized = true;
  }

  unfoldable pub init :
      Option (ParameterService fp W)
      → Option (List (Group (Descriptor fp W)))
      → ℕ
      → Value fp
      → W
      → Status × Option (ParameterService fp W) × W
  init none groups group_count local w = (invalid_argument, none, w)
  init (some s) groups group_count local w =
      if s.initialized
      then (invalid_state, some s, w)
      else if is_null groups || group_count == 0
      then (invalid_argument, some s, w)
      else if ltb max_groups group_count
      then (out_of_range, some s, w)
      else let (status, total, w') =
          check_groups (elements groups) local 0 0 group_count (elements groups) w in
        if not (is_ok status)
        then (status, some s, w')
        else (ok, some (bound_service (elements groups) group_count total), w')

  unfoldable pub get_group_count : Option (ParameterService fp W) → Bool → Status × Option ℕ
  get_group_count none null = (invalid_argument, none)
  get_group_count (some s) null =
      if null
      then (invalid_argument, none)
      else if not s.initialized
      then (not_initialized, none)
      else (ok, some s.group_count)

  unfoldable pub get_group :
      Option (ParameterService fp W) → ℕ → Bool → Status × Option (Group (Descriptor fp W))
  get_group none group_index null = (invalid_argument, none)
  get_group (some s) group_index null =
      if null
      then (invalid_argument, none)
      else if not s.initialized
      then (not_initialized, none)
      else if leb s.group_count group_index
      then (out_of_range, none)
      else (ok, get_elem? s.groups group_index)

  -- `null` says that the output pointer is NULL.
  unfoldable pub find :
      Option (ParameterService fp W) → ℕ → Bool → Status × Option (Descriptor fp W)
  find none parameter_id null = (invalid_argument, none)
  find (some s) parameter_id null =
      if null
      then (invalid_argument, none)
      else if not s.initialized
      then (not_initialized, none)
      else elim (find_item id_of parameter_id s.group_count s.groups) [
        | none ↦ (out_of_range, none)
        | some d ↦ (ok, some d)
      ]

  abbrev pub get_descriptor_by_id :
      Option (ParameterService fp W) → ℕ → Bool → Status × Option (Descriptor fp W)
  get_descriptor_by_id s parameter_id null = find s parameter_id null

  -- The checks of mizu_parameter_service_set_by_id on a descriptor that was found, and the setter.
  unfoldable pub set_found : Descriptor fp W → Option (Value fp) → W → Status × W
  set_found d none w = if not d.writable then (invalid_state, w) else (invalid_argument, w)
  set_found d (some value) w =
      if not d.writable
      then (invalid_state, w)
      else if not (type_of value == d.type)
      then (invalid_argument, w)
      else if d.type == type_float && not (finite_value value)
      then (invalid_data, w)
      else if not (value_in_range d value)
      then (out_of_range, w)
      else call_setter d value w

  unfoldable pub set_by_id : Option (ParameterService fp W) → ℕ → Option (Value fp) → W → Status × W
  set_by_id s parameter_id value w =
      let (status, found) = find s parameter_id false in
      elim found [ none ↦ (status, w) | some d ↦ set_found d value w ]

  -- The buffer of the caller, `none` for NULL, as the call leaves it.
  unfoldable pub get_by_id :
      Option (ParameterService fp W) → ℕ → Option (Value fp) → W → Status × Option (Value fp) × W
  get_by_id s parameter_id none w = (invalid_argument, none, w)
  get_by_id s parameter_id (some buffer) w =
      let (status, found) = find s parameter_id false in
      elim found [
        | none ↦ (status, some buffer, w)
        | some d ↦ let (status', value, w') = read_current d buffer w in (status', some value, w')
      ]

  -- The end of mizu_parameter_service_adjust_by_id, after a read that returned OK.
  unfoldable pub adjust_read :
      Option (ParameterService fp W)
      → Descriptor fp W
      → AdjustRequest
      → Option (Value fp)
      → W
      → Status × W
  adjust_read s d request value w =
      let (status, adjusted) = adjust_value (some d) value (some d.step) request.step_count false in
      if not (is_ok status) then (status, w) else set_by_id s request.id adjusted w

  unfoldable pub adjust_found :
      Option (ParameterService fp W) → Descriptor fp W → AdjustRequest → Value fp → W → Status × W
  adjust_found s d request local w =
      let (status, value, w') = get_by_id s request.id (some local) w in
      if not d.writable
      then (invalid_state, w)
      else if is_zero request.step_count
      then (ok, w)
      else if not (is_ok status)
      then (status, w')
      else adjust_read s d request value w'

  unfoldable pub adjust_by_id :
      Option (ParameterService fp W) → Option AdjustRequest → Value fp → W → Status × W
  adjust_by_id s none local w = (invalid_argument, w)
  adjust_by_id s (some request) local w =
      let (status, found) = find s request.id false in
      elim found [ none ↦ (status, w) | some d ↦ adjust_found s d request local w ]
