-- ===== src/Pid.antt =====
-- libraries/pid/pid.c. The single-precision arithmetic of the platform is a parameter `fp`, evaluated in
-- the order of the C expressions, without contraction or extra precision.
pub mod Calculate
pub mod Limits
pub mod Failsafe
pub mod Cascade
pub mod Tests
use embedded_library.Prelude.{
  ℕ, Bool, true, false, not, ◌&&◌, ◌||◌, ◌==◌, if◌then◌else◌, Option, none, some,
}
use embedded_library.Status.{
  Status, ok, invalid_argument, invalid_state, not_initialized, invalid_data, overflow, is_ok,
}

-- float, with the operations of pid.c on it and isfinite, fminf and fmaxf of the C library.
pub record SinglePrecision : Type 1 where
  pub Float : Type 0
  pub is_finite : Float → Bool
  -- `<` and `<=`; `l > r` is `r < l`.
  pub ltb_float : Float → Float → Bool
  pub leb_float : Float → Float → Bool
  pub add_float : Float → Float → Float
  pub sub_float : Float → Float → Float
  pub mul_float : Float → Float → Float
  pub div_float : Float → Float → Float
  pub neg_float : Float → Float
  pub fminf : Float → Float → Float
  pub fmaxf : Float → Float → Float
  pub zero_float : Float

-- mizu_pid_anti_windup_t is an int, which may hold a number that the enumeration does not name.
abbrev pub conditional : ℕ
conditional = 0

abbrev pub back_calculation : ℕ
back_calculation = 1

pub record Config (fp : SinglePrecision) : Type 0 where
  pub kp : fp.Float
  pub ki : fp.Float
  pub kd : fp.Float
  pub output_min : fp.Float
  pub output_max : fp.Float
  pub integral_min : fp.Float
  pub integral_max : fp.Float
  pub tracking_gain : fp.Float
  pub anti_windup : ℕ

pub record Pid (fp : SinglePrecision) : Type 0 where
  pub config : Config fp
  pub integral : fp.Float
  pub previous_measurement : fp.Float
  pub output : fp.Float
  pub initialized : Bool
  pub history_valid : Bool

unfoldable pub clamp : (fp : SinglePrecision) → fp.Float → fp.Float → fp.Float → fp.Float
clamp fp value minimum maximum = fp.fminf (fp.fmaxf value minimum) maximum

module _ {fp : SinglePrecision} where
  abbrev pub is_unbounded : Config fp → Bool
  is_unbounded config =
      not (fp.is_finite config.kp)
      || (not (fp.is_finite config.ki)
          || (not (fp.is_finite config.kd)
              || (not (fp.is_finite config.output_min)
                  || (not (fp.is_finite config.output_max)
                      || (not (fp.is_finite config.integral_min)
                          || (not (fp.is_finite config.integral_max)
                              || not (fp.is_finite config.tracking_gain)))))))

  abbrev pub is_inconsistent : Config fp → Bool
  is_inconsistent config =
      fp.ltb_float config.output_max config.output_min
      || (fp.ltb_float config.integral_max config.integral_min
          || (fp.ltb_float config.tracking_gain fp.zero_float
              || (not (config.anti_windup == conditional)
                  && not (config.anti_windup == back_calculation))))

  unfoldable pub validate_config : Option (Config fp) → Status
  validate_config none = invalid_argument
  validate_config (some config) =
      if is_unbounded config
      then invalid_data
      else if is_inconsistent config
      then invalid_argument
      else ok

  unfoldable pub check : Option (Pid fp) → Status
  check none = invalid_argument
  check (some p) =
      if not p.initialized
      then not_initialized
      else if not (is_ok (validate_config (some p.config)))
          || (not (fp.is_finite p.integral)
              || (not (fp.is_finite p.previous_measurement) || not (fp.is_finite p.output)))
      then invalid_state
      else ok

  unfoldable pub raw_output : Config fp → fp.Float → fp.Float → fp.Float → fp.Float
  raw_output config error integral derivative =
      fp.add_float (fp.add_float (fp.mul_float config.kp error) (fp.mul_float config.ki integral))
        (fp.mul_float config.kd derivative)

  unfoldable pub init : Option (Pid fp) → Option (Config fp) → Status × Option (Pid fp)
  init none config = (invalid_argument, none)
  init (some p) none = (invalid_argument, some p)
  init (some p) (some config) =
      if not (is_ok (validate_config (some config)))
      then (validate_config (some config), some p)
      else (
        ok,
        some (record p {
          config = config;
          integral = fp.zero_float;
          previous_measurement = fp.zero_float;
          output = fp.zero_float;
          initialized = true;
          history_valid = false;
        }),
      )

  unfoldable pub reset : Option (Pid fp) → fp.Float → Status × Option (Pid fp)
  reset none measurement = (check none, none)
  reset (some p) measurement =
      if not (is_ok (check (some p)))
      then (check (some p), some p)
      else if not (fp.is_finite measurement)
      then (invalid_data, some p)
      else (
        ok,
        some (record p {
          integral = fp.zero_float;
          previous_measurement = measurement;
          output = fp.zero_float;
          history_valid = true;
        }),
      )
