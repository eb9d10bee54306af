-- ===== src/Pid/Cascade.antt =====
-- libraries/cascaded_pid/cascaded_pid.c: an outer controller whose output is the setpoint of an inner
-- one. Each call works on a copy of the object, which it writes back on success.
pub mod Step
pub mod Trace
use embedded_library.Prelude.{
  Bool, true, false, not, ◌||◌, if◌then◌else◌, Option, none, some, or_else,
}
use embedded_library.Status.{Status, ok, invalid_argument, not_initialized, is_ok}
use embedded_library.Pid.{SinglePrecision, Config, Pid}
use embedded_library.Pid as PID
use embedded_library.Pid.Calculate as Single

pub record CascadeConfig (fp : SinglePrecision) : Type 0 where
  pub outer_config : Config fp
  pub inner_config : Config fp

pub record CascadeInput (fp : SinglePrecision) : Type 0 where
  pub outer_setpoint : fp.Float
  pub outer_measurement : fp.Float
  pub inner_measurement : fp.Float
  pub dt : fp.Float

pub record CascadedPid (fp : SinglePrecision) : Type 0 where
  pub outer_pid : Pid fp
  pub inner_pid : Pid fp
  pub initialized : Bool

module _ {fp : SinglePrecision} where
  unfoldable pub check : Option (CascadedPid fp) → Status
  check none = invalid_argument
  check (some c) = if not c.initialized then not_initialized else ok

  -- `{0}`
  abbrev pub zero_pid : Pid fp
  zero_pid = record {
    config = record {
      kp = fp.zero_float;
      ki = fp.zero_float;
      kd = fp.zero_float;
      output_min = fp.zero_float;
      output_max = fp.zero_float;
      integral_min = fp.zero_float;
      integral_max = fp.zero_float;
      tracking_gain = fp.zero_float;
      anti_windup = 0;
    };
    integral = fp.zero_float;
    previous_measurement = fp.zero_float;
    output = fp.zero_float;
    initialized = false;
    history_valid = false;
  }

  unfoldable pub init :
      Option (CascadedPid fp) → Option (CascadeConfig fp) → Status × Option (CascadedPid fp)
  init none config = (invalid_argument, none)
  init (some c) none = (invalid_argument, some c)
  init (some c) (some config) =
      let (outer_status, outer) = PID.init (some zero_pid) (some config.outer_config) in
      let (inner_status, inner) = PID.init (some zero_pid) (some config.inner_config) in
      if not (is_ok outer_status)
      then (outer_status, some c)
      else if not (is_ok inner_status)
      then (inner_status, some c)
      else (
        ok,
        some (record {
          outer_pid = or_else outer zero_pid;
          inner_pid = or_else inner zero_pid;
          initialized = true;
        }),
      )

  -- The candidate, with what the calls on its two controllers have left in them.
  abbrev pub candidate : CascadedPid fp → Option (Pid fp) → Option (Pid fp) → CascadedPid fp
  candidate c outer inner = record c {
    outer_pid = or_else outer c.outer_pid;
    inner_pid = or_else inner c.inner_pid;
  }

  unfoldable pub reset :
      Option (CascadedPid fp) → fp.Float → fp.Float → Status × Option (CascadedPid fp)
  reset none outer_measurement inner_measurement = (check none, none)
  reset (some c) outer_measurement inner_measurement =
      let (outer_status, outer) = PID.reset (some c.outer_pid) outer_measurement in
      let (inner_status, inner) = PID.reset (some c.inner_pid) inner_measurement in
      if not (is_ok (check (some c)))
      then (check (some c), some c)
      else if not (is_ok outer_status)
      then (outer_status, some c)
      else if not (is_ok inner_status)
      then (inner_status, some c)
      else (ok, some (candidate c outer inner))

  -- The two calls of mizu_cascaded_pid_calculate. `local` is what the local variables `intermediate` and
  -- `final_output` hold before them.
  unfoldable pub calculate_both :
      CascadedPid fp
      → CascadeInput fp
      → fp.Float
      → fp.Float
      → Status × Option (CascadedPid fp) × Option fp.Float
  calculate_both c input local output =
      let (outer_status, outer, intermediate) =
        Single.calculate (some c.outer_pid) input.outer_setpoint input.outer_measurement input.dt
          (some local) in
      let (inner_status, inner, final_output) =
        Single.calculate (some c.inner_pid) (or_else intermediate local) input.inner_measurement
          input.dt (some local) in
      if not (is_ok outer_status)
      then (outer_status, some c, some output)
      else if not (is_ok inner_status)
      then (inner_status, some c, some output)
      else (ok, some (candidate c outer inner), some (or_else final_output local))

  unfoldable pub calculate :
      Option (CascadedPid fp)
      → Option (CascadeInput fp)
      → fp.Float
      → Option fp.Float
      → Status × Option (CascadedPid fp) × Option fp.Float
  calculate none input local output = (check none, none, output)
  calculate (some c) none local output =
      if not (is_ok (check (some c)))
      then (check (some c), some c, output)
      else (invalid_argument, some c, output)
  calculate (some c) (some input) local none =
      if not (is_ok (check (some c)))
      then (check (some c), some c, none)
      else (invalid_argument, some c, none)
  calculate (some c) (some input) local (some output) =
      if not (is_ok (check (some c)))
      then (check (some c), some c, some output)
      else calculate_both c input local output
