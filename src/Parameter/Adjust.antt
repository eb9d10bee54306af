-- ===== src/Parameter/Adjust.antt =====
-- mizu_parameter_adjust_value and mizu_parameter_scale_step: the arithmetic on drafts, without a service.
use embedded_library.Prelude.{
  ℕ, suc, ◌+◌, ◌-◌, ◌*◌, ◌/◌, ◌%◌, ◌^◌, Bool, true, false, not, ◌&&◌, ◌||◌, Option, none, some, ltb,
  leb, ◌==◌, if◌then◌else◌, ℤ, pos, negsuc, neg_part, pos_part, ltb_ℤ, ◌-ℤ◌, ◌+ℤ◌, ◌*ℤ◌,
}
use embedded_library.Status.{
  Status, ok, invalid_argument, invalid_data, invalid_state, out_of_range, is_ok,
}
use embedded_library.Parameter.{
  Floats, Value, Descriptor, u32_mod, sub_u32, is_positive, is_negative, is_zero, type_float,
  type_bool, type_of, finite_value, value_is_valid, compare_values, value_in_range,
  validate_descriptor,
}

-- The option is what goes through `adjusted`.
unfoldable pub adjust_int32 : ℤ → ℤ → ℤ → ℤ → ℤ → Status × Option ℤ
adjust_int32 low high value step step_count =
    let result = value +ℤ step *ℤ step_count in
    if not (is_positive step)
    then (invalid_argument, none)
    else if ltb_ℤ result low
    then (ok, some low)
    else if ltb_ℤ high result
    then (ok, some high)
    else (ok, some result)

unfoldable pub adjust_uint32 : ℕ → ℕ → ℕ → ℕ → ℤ → Status × Option ℕ
adjust_uint32 low high value step step_count =
    if step == 0
    then (invalid_argument, none)
    else if is_negative step_count
    then (
      ok,
      some (
          if leb (sub_u32 value low) (step * neg_part step_count)
          then low
          else sub_u32 value ((step * neg_part step_count) % u32_mod)),
    )
    else (
      ok,
      some (
          if leb (sub_u32 high value) (step * pos_part step_count)
          then high
          else (value + (step * pos_part step_count) % u32_mod) % u32_mod),
    )

unfoldable pub adjust_bool : Bool → Bool → ℤ → Status × Option Bool
adjust_bool value step step_count =
    if not step
    then (invalid_argument, none)
    else if is_positive step_count
    then (ok, some true)
    else if is_negative step_count
    then (ok, some false)
    else (ok, some value)

-- `n / 10` on int32_t, which rounds towards zero.
abbrev pub tenth : ℤ → ℤ
tenth (pos n) = pos (n / 10)
tenth (negsuc n) = pos 0 -ℤ pos (suc n / 10)

abbrev pub int32_max : ℤ
int32_max = pos (2 ^ 31 - 1)

-- The int32 case of mizu_parameter_scale_step; `range` is the width of the parameter's range.
unfoldable pub scale_int32 : ℤ → ℤ → ℤ → ℤ
scale_int32 range step direction =
    let maximum = if ltb_ℤ int32_max range then int32_max else range in
    if is_negative direction
    then (if ltb_ℤ (tenth step) (pos 1) then pos 1 else tenth step)
    else if is_positive direction
    then (if ltb_ℤ maximum (step *ℤ pos 10) then maximum else step *ℤ pos 10)
    else step

unfoldable pub scale_uint32 : ℕ → ℕ → ℤ → ℕ
scale_uint32 maximum step direction =
    if is_negative direction
    then (if step / 10 == 0 then 1 else step / 10)
    else if is_positive direction
    then (if ltb maximum (step * 10) then maximum else (step * 10) % u32_mod)
    else step

module _ (fp : Floats) where
  unfoldable pub adjust_float :
      fp.Float → fp.Float → fp.Float → fp.Float → ℤ → Status × Option fp.Float
  adjust_float low high value step step_count =
      let result =
        fp.add_double (fp.widen value) (fp.mul_double (fp.widen step) (fp.of_int step_count)) in
      if fp.leb_float step fp.zero_float
      then (invalid_argument, none)
      else if fp.ltb_double result (fp.widen low)
      then (ok, some low)
      else if fp.ltb_double (fp.widen high) result
      then (ok, some high)
      else (ok, some (fp.narrow result))

  -- The width of a float range, as a double that is no more than FLT_MAX.
  unfoldable pub float_range : fp.Float → fp.Float → fp.Double
  float_range low high =
      let range = fp.sub_double (fp.widen high) (fp.widen low) in
      if fp.ltb_double (fp.widen fp.flt_max) range then fp.widen fp.flt_max else range

  unfoldable pub scale_float : ℕ → fp.Double → fp.Float → ℤ → fp.Float
  scale_float decimals maximum step direction =
      let minimum = fp.minimum_steps decimals in
      let candidate = fp.mul_double (fp.widen step) fp.ten_double in
      if is_negative direction
      then (if fp.ltb_float (fp.div_float step fp.ten_float) minimum
          then minimum
          else fp.div_float step fp.ten_float)
      else if is_positive direction
      then (if fp.ltb_double maximum candidate then fp.narrow maximum else fp.narrow candidate)
      else step

module _ {fp : Floats} where
  abbrev pub wrap : {A : Type 0} → (A → Value fp) → Status × Option A → Status × Option (Value fp)
  wrap make (status, none) = (status, none)
  wrap make (status, some a) = (status, some (make a))

  -- The switch of mizu_parameter_adjust_value, on the value, the step and the bounds.
  unfoldable pub adjust_switch :
      Value fp → Value fp → Value fp → Value fp → ℤ → Status × Option (Value fp)
  adjust_switch (Value.float_value low) (Value.float_value high) (Value.float_value v)
        (Value.float_value step) n =
      wrap Value.float_value (adjust_float fp low high v step n)
  adjust_switch (Value.int32_value low) (Value.int32_value high) (Value.int32_value v)
        (Value.int32_value step) n =
      wrap Value.int32_value (adjust_int32 low high v step n)
  adjust_switch (Value.uint32_value low) (Value.uint32_value high) (Value.uint32_value v)
        (Value.uint32_value step) n =
      wrap Value.uint32_value (adjust_uint32 low high v step n)
  adjust_switch (Value.bool_value low) (Value.bool_value high) (Value.bool_value v)
        (Value.bool_value step) n =
      wrap Value.bool_value (adjust_bool v step n)
  adjust_switch _ _ _ _ n = (invalid_argument, none)

  -- mizu_parameter_validate_runtime_step, on the step and the bounds.
  unfoldable pub validate_runtime_step : ℕ → Value fp → Value fp → Value fp → Status
  validate_runtime_step decimals (Value.float_value low) (Value.float_value high)
        (Value.float_value step) =
      if not (fp.is_finite step)
      then invalid_data
      else if fp.leb_float step fp.zero_float
          || (fp.ltb_float step (fp.minimum_steps decimals)
              || fp.ltb_double (float_range fp low high) (fp.widen step))
      then invalid_argument
      else ok
  validate_runtime_step decimals (Value.int32_value low) (Value.int32_value high)
        (Value.int32_value step) =
      if not (is_positive step) || ltb_ℤ (high -ℤ low) step then invalid_argument else ok
  validate_runtime_step decimals (Value.uint32_value low) (Value.uint32_value high)
        (Value.uint32_value step) =
      if step == 0 || ltb (sub_u32 high low) step then invalid_argument else ok
  validate_runtime_step decimals _ _ _ = invalid_state

  -- The switch of mizu_parameter_scale_step.
  unfoldable pub scale_switch : ℕ → Value fp → Value fp → Value fp → ℤ → Status × Option (Value fp)
  scale_switch decimals (Value.float_value low) (Value.float_value high) (Value.float_value step)
        direction =
      (
        ok,
        some (Value.float_value (scale_float fp decimals (float_range fp low high) step direction)),
      )
  scale_switch decimals (Value.int32_value low) (Value.int32_value high) (Value.int32_value step)
        direction =
      (ok, some (Value.int32_value (scale_int32 (high -ℤ low) step direction)))
  scale_switch decimals (Value.uint32_value low) (Value.uint32_value high) (Value.uint32_value step)
        direction =
      (ok, some (Value.uint32_value (scale_uint32 (sub_u32 high low) step direction)))
  scale_switch decimals _ _ _ direction = (invalid_state, none)

module _ {fp : Floats} {W : Type 0} where
  -- mizu_parameter_adjust_value once the four pointers are known not to be NULL.
  unfoldable pub adjust_checked :
      Descriptor fp W → Value fp → Value fp → ℤ → Status × Option (Value fp)
  adjust_checked d value step step_count =
      if not (is_ok (validate_descriptor d))
      then (validate_descriptor d, none)
      else if not (type_of value == d.type) || not (type_of step == d.type)
      then (invalid_argument, none)
      else if d.type == type_float && (not (finite_value value) || not (finite_value step))
      then (invalid_data, none)
      else if not (value_is_valid value d.type)
      then (invalid_data, none)
      else if not d.writable
      then (invalid_state, none)
      else if not (value_in_range d value)
      then (out_of_range, none)
      else adjust_switch d.minimum d.maximum value step step_count

  -- The option of the result is what goes through `adjusted`; `null` says that this pointer is NULL.
  unfoldable pub adjust_value :
      Option (Descriptor fp W)
      → Option (Value fp)
      → Option (Value fp)
      → ℤ
      → Bool
      → Status × Option (Value fp)
  adjust_value none value step step_count null = (invalid_argument, none)
  adjust_value (some d) none step step_count null = (invalid_argument, none)
  adjust_value (some d) (some value) none step_count null = (invalid_argument, none)
  adjust_value (some d) (some value) (some step) step_count null =
      if null then (invalid_argument, none) else adjust_checked d value step step_count

  unfoldable pub scale_checked : Descriptor fp W → Value fp → ℤ → Status × Option (Value fp)
  scale_checked d step direction =
      let status = validate_runtime_step d.decimals d.minimum d.maximum step in
      if ltb_ℤ direction (negsuc 0) || ltb_ℤ (pos 1) direction
      then (invalid_argument, none)
      else if not (is_ok (validate_descriptor d))
      then (validate_descriptor d, none)
      else if not (type_of step == d.type)
      then (invalid_argument, none)
      else if not d.writable
          || (d.type == type_bool || is_zero (compare_values d.minimum d.maximum))
      then (invalid_state, none)
      else if not (is_ok status)
      then (status, none)
      else scale_switch d.decimals d.minimum d.maximum step direction

  unfoldable pub scale_step :
      Option (Descriptor fp W) → Option (Value fp) → ℤ → Bool → Status × Option (Value fp)
  scale_step none step direction null = (invalid_argument, none)
  scale_step (some d) none direction null = (invalid_argument, none)
  scale_step (some d) (some step) direction null =
      if null then (invalid_argument, none) else scale_checked d step direction
