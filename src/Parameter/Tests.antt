-- ===== src/Parameter/Tests.antt =====
-- Runs of the parameter service on one group with two parameters, over a number as the state around it.
-- The floats are fixed-point numbers with four decimals.
use embedded_library.Prelude.{
  ℕ, ◌+◌, ◌/◌, ◌^◌, ◌≤◌, ◌≡◌, refl, Option, none, some, List, [], ◌∷◌, arith, Bool, true, false,
  ◌⊎◌, ℤ, pos, negsuc, pos_part, ltb_ℤ, ◌+ℤ◌, ◌-ℤ◌, ◌*ℤ◌, not, get_or,
}
use embedded_library.Status.{Status, ok, busy, is_ok}
use embedded_library.Registry.{
  Group, Text, id_exists, group_id_exists, has_id, find_item, find_entry,
}
use embedded_library.Parameter.{
  Floats, Value, Descriptor, type_uint32, eq_ℤ, validate_descriptor, type_is_valid, value_is_valid,
  compare_values, validate_step, value_in_range,
}
use embedded_library.Parameter.Adjust.{adjust_uint32}
use embedded_library.Parameter.Range.{clamp, adjust_uint32_lem}
use embedded_library.Parameter.Service.{
  ParameterService, max_parameters, bound_service, init, check_groups, check_group,
  check_parameters, validate_current, read_current, call_getter, call_setter, find, set_found,
  get_by_id, set_by_id,
}
use embedded_library.Parameter.Service.Init.{IsRegistered, init-IsDescribed}
use embedded_library.Parameter.Service.Calls.{IsAllowed, set_by_id_lem}

abbrev pub fixed : Floats
fixed = record {
  Float = ℤ;
  Double = ℤ;
  is_finite = λ _. true;
  ltb_float = ltb_ℤ;
  leb_float = λ a b. not (ltb_ℤ b a);
  eq_float = eq_ℤ;
  sub_float = λ a b. a -ℤ b;
  div_float = λ a b. pos (pos_part a / (pos_part b / 10000));
  zero_float = pos 0;
  ten_float = pos 100000;
  minimum_steps = λ n. pos (get_or (10000 ∷ 1000 ∷ 100 ∷ 10 ∷ []) n 1);
  flt_max = pos (2 ^ 62);
  widen = λ a. a;
  narrow = λ a. a;
  of_int = λ a. a;
  ltb_double = ltb_ℤ;
  add_double = λ a b. a +ℤ b;
  sub_double = λ a b. a -ℤ b;
  mul_double = λ a b. a *ℤ b;
  ten_double = pos 10;
}

abbrev label : Text
label = some (66 ∷ [])

abbrev read_word : ℕ → Value fixed → ℕ → Status × Value fixed × ℕ
read_word context buffer w = (ok, Value.uint32_value (w + context), w)

abbrev write_word : ℕ → Value fixed → ℕ → Status × ℕ
write_word context (Value.uint32_value n) w = (ok, n)
write_word context _ w = (busy, w)

abbrev pub parameter : ℕ → ℕ → Bool → Descriptor fixed ℕ
parameter id context writable = record {
  id = id;
  name = label;
  unit = some [];
  type = type_uint32;
  minimum = Value.uint32_value 5;
  maximum = Value.uint32_value 500;
  step = Value.uint32_value 10;
  decimals = 0;
  writable = writable;
  getter = some read_word;
  setter = if_writable writable;
  context = context;
}
  where
    if_writable : Bool → Option (ℕ → Value fixed → ℕ → Status × ℕ)
    if_writable true = some write_word
    if_writable false = none

abbrev table : List (Group (Descriptor fixed ℕ))
table =
    record {
      id = 1;
      name = label;
      items = some (parameter 20 0 true ∷ parameter 21 7 false ∷ []);
      item_count = 2;
    }
    ∷ []

abbrev blank : ParameterService fixed ℕ
blank = record { groups = []; group_count = 0; parameter_count = 0; initialized = false }

abbrev junk : Value fixed
junk = Value.bool_value true

abbrev pub started : ParameterService fixed ℕ
started = bound_service table 1 2

table-ok : init (some blank) (some table) 1 junk 100 ≡ (ok, some started, 100)
unfolding init check_groups check_group group_id_exists check_parameters validate_descriptor
    type_is_valid value_is_valid compare_values validate_step id_exists has_id validate_current
    read_current call_getter value_in_range
table-ok = refl

started-IsRegistered : IsRegistered started
started-IsRegistered =
    (init-IsDescribed blank started table 1 junk 100 100 (omega arith) table-ok).0

init-IsDescribed_example :
    IsRegistered started
    × (started.groups ≡ table)
    × (started.group_count ≡ 1)
    × (started.parameter_count ≤ max_parameters)
init-IsDescribed_example =
    init-IsDescribed blank started table 1 junk 100 100 (omega arith) table-ok

set_by_id_lem_example :
    let (status, w') = set_by_id (some started) 20 (some (Value.uint32_value 250)) 100 in
    ((is_ok status ≡ false) × (w' ≡ 100))
    ⊎ (IsAllowed (parameter 20 0 true) (Value.uint32_value 250)
        × ((status, w') ≡ call_setter (parameter 20 0 true) (Value.uint32_value 250) 100))
set_by_id_lem_example =
    set_by_id_lem started 0 (parameter 20 0 true) (Value.uint32_value 250) 100 started-IsRegistered
      refl

set_runs : set_by_id (some started) 20 (some (Value.uint32_value 250)) 100 ≡ (ok, 250)
unfolding set_by_id find find_item find_entry set_found value_in_range compare_values call_setter
set_runs = refl

get_runs : get_by_id (some started) 21 (some junk) 100 ≡ (ok, some (Value.uint32_value 107), 100)
unfolding get_by_id find find_item find_entry read_current call_getter value_is_valid value_in_range
    compare_values
get_runs = refl

adjust_uint32_lem_example :
    (r : ℕ) × (adjust_uint32 5 500 480 10 (negsuc 2) ≡ (ok, some r))
    × (pos r ≡ clamp (pos 5) (pos 500) (pos 480 +ℤ pos 10 *ℤ negsuc 2))
adjust_uint32_lem_example =
    adjust_uint32_lem 5 500 480 10 (negsuc 2) (omega arith) (omega arith) (omega arith)
      (omega arith)
