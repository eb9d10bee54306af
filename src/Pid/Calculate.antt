-- ===== src/Pid/Calculate.antt =====
-- mizu_pid_calculate of libraries/pid/pid.c, in the order of its steps.
use embedded_library.Prelude.{
  is_null, Bool, true, not, ◌&&◌, ◌||◌, ◌==◌, if◌then◌else◌, Option, none, some,
}
use embedded_library.Status.{Status, ok, invalid_argument, invalid_data, overflow, is_ok}
use embedded_library.Pid.{
  SinglePrecision, Config, Pid, conditional, back_calculation, check, clamp, raw_output,
}

-- The end of mizu_pid_calculate: the integral and the output that it stores, none for the overflow.
unfoldable pub emit : (fp : SinglePrecision) → fp.Float → fp.Float → Option (fp.Float × fp.Float)
emit fp integral limited_output =
    if not (fp.is_finite limited_output) then none else some (integral, limited_output)

module _ {fp : SinglePrecision} where
  -- From the first clamp of the output on, with the back calculation.
  unfoldable pub correct :
      Config fp
      → fp.Float
      → fp.Float
      → fp.Float
      → fp.Float
      → fp.Float
      → Option (fp.Float × fp.Float)
  correct config error derivative dt integral raw =
      let limited = clamp fp raw config.output_min config.output_max in
      let tracking =
        fp.mul_float (fp.mul_float config.tracking_gain (fp.sub_float limited raw)) dt in
      let corrected = fp.add_float integral tracking in
      let kept = clamp fp corrected config.integral_min config.integral_max in
      let raw' = raw_output config error kept derivative in
      if not (config.anti_windup == back_calculation)
      then emit fp integral limited
      else if not (fp.is_finite corrected) || not (fp.is_finite raw')
      then none
      else emit fp kept (clamp fp raw' config.output_min config.output_max)

  -- The output is past a limit and the error drives it further.
  unfoldable pub is_winding : Config fp → fp.Float → fp.Float → Bool
  is_winding config error raw =
      let drive = fp.mul_float config.ki error in
      config.anti_windup == conditional
      && ((fp.ltb_float config.output_max raw && fp.ltb_float fp.zero_float drive)
          || (fp.ltb_float raw config.output_min && fp.ltb_float drive fp.zero_float))

  -- From the raw output on, with the conditional integration.
  unfoldable pub integrate :
      Pid fp → fp.Float → fp.Float → fp.Float → fp.Float → Option (fp.Float × fp.Float)
  integrate p error derivative dt candidate =
      let raw = raw_output p.config error candidate derivative in
      let held = raw_output p.config error p.integral derivative in
      if not (fp.is_finite raw)
      then none
      else if not (is_winding p.config error raw)
      then correct p.config error derivative dt candidate raw
      else if not (fp.is_finite held)
      then none
      else correct p.config error derivative dt p.integral held

  unfoldable pub derivative_of : Pid fp → fp.Float → fp.Float → fp.Float
  derivative_of p measurement dt =
      if p.history_valid
      then fp.div_float (fp.neg_float (fp.sub_float measurement p.previous_measurement)) dt
      else fp.zero_float

  -- The computation of mizu_pid_calculate.
  unfoldable pub compute : Pid fp → fp.Float → fp.Float → fp.Float → Option (fp.Float × fp.Float)
  compute p setpoint measurement dt =
      let error = fp.sub_float setpoint measurement in
      let derivative = derivative_of p measurement dt in
      let candidate = fp.add_float p.integral (fp.mul_float error dt) in
      if not (fp.is_finite error) || (not (fp.is_finite derivative) || not (fp.is_finite candidate))
      then none
      else integrate p error derivative dt
          (clamp fp candidate p.config.integral_min p.config.integral_max)

  -- What mizu_pid_calculate stores.
  unfoldable pub store :
      Pid fp
      → fp.Float
      → Option fp.Float
      → Option (fp.Float × fp.Float)
      → Status × Option (Pid fp) × Option fp.Float
  store p measurement output none = (overflow, some p, output)
  store p measurement output (some (integral, limited)) = (
    ok,
    some (record p {
      integral = integral;
      previous_measurement = measurement;
      output = limited;
      history_valid = true;
    }),
    some limited,
  )

  -- `output` is what the output pointer points to, none for NULL.
  unfoldable pub calculate :
      Option (Pid fp)
      → fp.Float
      → fp.Float
      → fp.Float
      → Option fp.Float
      → Status × Option (Pid fp) × Option fp.Float
  calculate none setpoint measurement dt output = (check {fp = fp} none, none, output)
  calculate (some p) setpoint measurement dt output =
      if not (is_ok (check (some p)))
      then (check (some p), some p, output)
      else if is_null output
      then (invalid_argument, some p, output)
      else if not (fp.is_finite setpoint)
          || (not (fp.is_finite measurement)
              || (not (fp.is_finite dt) || fp.leb_float dt fp.zero_float))
      then (invalid_data, some p, output)
      else store p measurement output (compute p setpoint measurement dt)
