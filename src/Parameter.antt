-- ===== src/Parameter.antt =====
-- services/parameter/parameter.c: values, descriptors and their validation. The floating-point arithmetic
-- of the platform is a parameter `fp`; int64_t and uint64_t are wide enough for every intermediate
-- result, so those are unbounded here, and uint32_t keeps its wrap-around.
pub mod Adjust
pub mod Range
pub mod Service
pub mod Tests
use embedded_library.Prelude.{
  is_null, ℕ, zero, suc, ◌+◌, ◌-◌, ◌*◌, ◌/◌, ◌%◌, ◌^◌, Bool, true, false, not, ◌&&◌, ◌||◌, Option,
  none, some, List, [], ◌∷◌, length, ltb, leb, ◌==◌, if◌then◌else◌, ℤ, pos, negsuc, ltb_ℤ, ◌-ℤ◌,
}
use embedded_library.Status.{Status, ok, invalid_argument, invalid_data, invalid_state}
use embedded_library.Registry.{Text, is_blank}

-- float and double of the platform, with the operations that parameter.c applies.
pub record Floats : Type 1 where
  pub Float : Type 0
  pub Double : Type 0
  pub is_finite : Float → Bool
  -- `<`, `<=` and `==` on float.
  pub ltb_float : Float → Float → Bool
  pub leb_float : Float → Float → Bool
  pub eq_float : Float → Float → Bool
  pub sub_float : Float → Float → Float
  pub div_float : Float → Float → Float
  pub zero_float : Float
  pub ten_float : Float
  -- The literals 1.0F, 0.1F, 0.01F, 0.001F and 0.0001F.
  pub minimum_steps : ℕ → Float
  pub flt_max : Float
  pub widen : Float → Double
  pub narrow : Double → Float
  pub of_int : ℤ → Double
  pub ltb_double : Double → Double → Bool
  pub add_double : Double → Double → Double
  pub sub_double : Double → Double → Double
  pub mul_double : Double → Double → Double
  pub ten_double : Double

abbrev pub type_float : ℕ
type_float = 0

abbrev pub type_int32 : ℕ
type_int32 = 1

abbrev pub type_uint32 : ℕ
type_uint32 = 2

abbrev pub type_bool : ℕ
type_bool = 3

abbrev pub max_decimals : ℕ
max_decimals = 4

abbrev pub u32_mod : ℕ
u32_mod = 2 ^ 32

-- `left - right` on uint32_t.
abbrev pub sub_u32 : ℕ → ℕ → ℕ
sub_u32 left right = (left + u32_mod - right) % u32_mod

-- `(left > right) - (left < right)`
abbrev pub sign_of : Bool → Bool → ℤ
sign_of greater less =
    if greater then (if less then pos 0 else pos 1) else (if less then negsuc 0 else pos 0)

abbrev pub eq_ℤ : ℤ → ℤ → Bool
eq_ℤ left right = not (ltb_ℤ left right) && not (ltb_ℤ right left)

abbrev pub is_positive : ℤ → Bool
is_positive n = ltb_ℤ (pos 0) n

abbrev pub is_negative : ℤ → Bool
is_negative n = ltb_ℤ n (pos 0)

abbrev pub is_zero : ℤ → Bool
is_zero n = not (is_negative n) && not (is_positive n)

abbrev pub same_bool : Bool → Bool → Bool
same_bool true right = right
same_bool false right = not right

abbrev pub ltb_bool : Bool → Bool → Bool
ltb_bool true right = false
ltb_bool false right = right

unfoldable pub type_is_valid : ℕ → Bool
type_is_valid type =
    type == type_float || (type == type_int32 || (type == type_uint32 || type == type_bool))

-- mizu_parameter_value_t, the tag with the member of the union that it selects.
pub data Value (fp : Floats) : Type 0 where
  float_value : fp.Float → Value fp
  int32_value : ℤ → Value fp
  uint32_value : ℕ → Value fp
  bool_value : Bool → Value fp

-- The callbacks take their context and the state of the program around the service. A getter also gets
-- what the output buffer holds, and returns what it holds afterwards.
pub record Descriptor (fp : Floats) (W : Type 0) : Type 0 where
  pub id : ℕ
  pub name : Text
  pub unit : Text
  pub type : ℕ
  pub minimum : Value fp
  pub maximum : Value fp
  pub step : Value fp
  pub decimals : ℕ
  pub writable : Bool
  pub getter : Option (ℕ → Value fp → W → Status × Value fp × W)
  pub setter : Option (ℕ → Value fp → W → Status × W)
  pub context : ℕ

module _ {fp : Floats} where
  -- `value->type`
  abbrev pub type_of : Value fp → ℕ
  type_of (float_value _) = type_float
  type_of (int32_value _) = type_int32
  type_of (uint32_value _) = type_uint32
  type_of (bool_value _) = type_bool

  abbrev pub finite_value : Value fp → Bool
  finite_value (float_value x) = fp.is_finite x
  finite_value (int32_value _) = true
  finite_value (uint32_value _) = true
  finite_value (bool_value _) = true

  unfoldable pub value_is_valid : Value fp → ℕ → Bool
  value_is_valid value type =
      if not (type_of value == type) then false else not (type == type_float) || finite_value value

  -- Every caller has checked that the two tags agree.
  unfoldable pub compare_values : Value fp → Value fp → ℤ
  compare_values (float_value l) (float_value r) = sign_of (fp.ltb_float r l) (fp.ltb_float l r)
  compare_values (int32_value l) (int32_value r) = sign_of (ltb_ℤ r l) (ltb_ℤ l r)
  compare_values (uint32_value l) (uint32_value r) = sign_of (ltb r l) (ltb l r)
  compare_values (bool_value l) (bool_value r) = sign_of (ltb_bool r l) (ltb_bool l r)
  compare_values _ _ = pos 0

  -- The switch of mizu_parameter_validate_descriptor, on the step, the minimum and the maximum.
  unfoldable pub validate_step : ℕ → Value fp → Value fp → Value fp → Status
  validate_step decimals (float_value step) (float_value low) (float_value high) =
      if fp.leb_float step fp.zero_float
        || (fp.ltb_float step (fp.minimum_steps decimals)
            || (not (fp.eq_float low high) && fp.ltb_float (fp.sub_float high low) step))
      then invalid_argument
      else ok
  validate_step decimals (int32_value step) (int32_value low) (int32_value high) =
      if not (decimals == 0)
        || (not (is_positive step) || (not (eq_ℤ low high) && ltb_ℤ (high -ℤ low) step))
      then invalid_argument
      else ok
  validate_step decimals (uint32_value step) (uint32_value low) (uint32_value high) =
      if not (decimals == 0) || (step == 0 || (not (low == high) && ltb (sub_u32 high low) step))
      then invalid_argument
      else ok
  validate_step decimals (bool_value step) (bool_value low) (bool_value high) =
      if not (decimals == 0) || not step then invalid_argument else ok
  validate_step decimals _ _ _ = invalid_argument

module _ {fp : Floats} {W : Type 0} where
  abbrev pub id_of : Descriptor fp W → ℕ
  id_of d = d.id

  unfoldable pub value_in_range : Descriptor fp W → Value fp → Bool
  value_in_range d value =
      not (is_negative (compare_values value d.minimum))
      && not (is_positive (compare_values value d.maximum))

  -- The caller has checked that the pointer is not NULL.
  unfoldable pub validate_descriptor : Descriptor fp W → Status
  validate_descriptor d =
      if is_blank d.name
        || (is_null d.unit
            || (is_null d.getter
                || (not (same_bool d.writable (not (is_null d.setter)))
                    || (not (type_is_valid d.type) || ltb max_decimals d.decimals))))
      then invalid_argument
      else if not (value_is_valid d.minimum d.type)
          || (not (value_is_valid d.maximum d.type) || not (value_is_valid d.step d.type))
      then invalid_data
      else if is_positive (compare_values d.minimum d.maximum)
      then invalid_argument
      else validate_step d.decimals d.step d.minimum d.maximum
