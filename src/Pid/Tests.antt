-- ===== src/Pid/Tests.antt =====
-- The controllers over an arithmetic of whole numbers, of which those below 1000 count as finite, and the
-- witnesses.
use embedded_library.Prelude.{
  ℕ, ◌+◌, ◌-◌, ◌*◌, ◌/◌, ◌≡◌, refl, none, some, List, [], ◌∷◌, ltb, leb, if◌then◌else◌, true, false,
  arith,
}
use embedded_library.Status.{ok}
use embedded_library.Pid.{SinglePrecision, Config, Pid, validate_config, check}
use embedded_library.Pid as PID
use embedded_library.Pid.Calculate.{calculate}
use embedded_library.Pid.Limits.{Laws, IsReady}
use embedded_library.Pid.Failsafe.{IsSafe, calculate-IsSafe}
use embedded_library.Pid.Cascade.{CascadeConfig, CascadeInput, CascadedPid, init}
use embedded_library.Pid.Cascade as CP
use embedded_library.Pid.Cascade.Step.{IsSafePair, calculate-IsSafePair}
use embedded_library.Pid.Cascade.Trace.{Call, call_all, IsKeptAll, call_all-IsKeptAll}

abbrev whole : SinglePrecision
whole = record {
  Float = ℕ;
  is_finite = λ x. ltb x 1000;
  ltb_float = λ x y. ltb x y;
  leb_float = λ x y. leb x y;
  add_float = λ x y. x + y;
  sub_float = λ x y. x - y;
  mul_float = λ x y. x * y;
  div_float = λ x y. x / y;
  neg_float = λ x. 0;
  fminf = λ x y. if ltb x y then x else y;
  fmaxf = λ x y. if ltb x y then y else x;
  zero_float = 0;
}

whole-Laws : Laws whole
whole-Laws = record {
  fminf_choice = λ x y. ground arith;
  fmaxf_choice = λ x y. ground arith;
  fminf_upper = λ x y f g. ground arith;
  fmaxf_lower = λ x y f g. ground arith;
  zero_finite = refl;
}

abbrev settings : ℕ → ℕ → Config whole
settings output_max anti_windup = record {
  kp = 2;
  ki = 1;
  kd = 1;
  output_min = 1;
  output_max = output_max;
  integral_min = 0;
  integral_max = 20;
  tracking_gain = 1;
  anti_windup = anti_windup;
}

abbrev controller : ℕ → ℕ → Pid whole
controller output_max anti_windup = record {
  config = settings output_max anti_windup;
  integral = 0;
  previous_measurement = 0;
  output = 0;
  initialized = true;
  history_valid = false;
}

controller-IsReady : IsReady (controller 50 1)
unfolding check validate_config
controller-IsReady = refl

calculate-IsSafe_example :
    IsSafe (controller 50 1) 3 (some 7) (calculate (some (controller 50 1)) 9 3 2 (some 7))
calculate-IsSafe_example =
    calculate-IsSafe whole-Laws (controller 50 1) 9 3 2 (some 7) controller-IsReady

abbrev pair : CascadedPid whole
pair = record { outer_pid = controller 50 1; inner_pid = controller 50 1; initialized = true }

abbrev input : CascadeInput whole
input = record { outer_setpoint = 9; outer_measurement = 3; inner_measurement = 4; dt = 2 }

calculate-IsSafePair_example :
    IsSafePair pair (some input) 0 (some 7) (CP.calculate (some pair) (some input) 0 (some 7))
calculate-IsSafePair_example =
    calculate-IsSafePair whole-Laws pair
      (record { live = refl; outer_ready = controller-IsReady; inner_ready = controller-IsReady })
      (some input) 0 (some 7)

abbrev pair_config : CascadeConfig whole
pair_config = record { outer_config = settings 50 1; inner_config = settings 40 0 }

abbrev started : CascadedPid whole
started = record { outer_pid = controller 50 1; inner_pid = controller 40 0; initialized = true }

init_accepts : init (some pair) (some pair_config) ≡ (ok, some started)
unfolding init PID.init validate_config
init_accepts = refl

abbrev calls : List (Call whole)
calls = Call.reset_call 2 3 ∷ Call.calculate_call (some input) 0 ∷ Call.calculate_call none 0 ∷ []

call_all-IsKeptAll_example : IsKeptAll pair_config (some 7) (call_all (some started) (some 7) calls)
call_all-IsKeptAll_example =
    call_all-IsKeptAll whole-Laws pair_config pair started calls (some 7) init_accepts
