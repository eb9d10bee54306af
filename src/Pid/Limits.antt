-- ===== src/Pid/Limits.antt =====
-- The limits of the PID controller: what mizu_pid_calculate computes stays within them.
use embedded_library.Prelude.{
  ◌==◌, ◌||◌, Bool, true, false, not, ◌≡◌, ◌⊎◌, inl, inr, Option, none, some, if_elim, arith,
}
use embedded_library.Status.{ok}
use embedded_library.Pid.{
  SinglePrecision, Pid, back_calculation, check, validate_config, clamp, raw_output,
}
use embedded_library.Pid.Calculate.{emit, correct, integrate, compute, is_winding, derivative_of}

-- What the C standard says of fminf and fmaxf on numbers that are not NaN: the result is one of the
-- arguments, and not greater, or not less, than the second; and that zero is finite.
pub record Laws (fp : SinglePrecision) : Type 0 where
  pub fminf_choice : (x y : fp.Float) → (fp.fminf x y ≡ x) ⊎ (fp.fminf x y ≡ y)
  pub fmaxf_choice : (x y : fp.Float) → (fp.fmaxf x y ≡ x) ⊎ (fp.fmaxf x y ≡ y)
  pub fminf_upper :
      (x y : fp.Float)
      → fp.is_finite x ≡ true
      → fp.is_finite y ≡ true
      → fp.ltb_float y (fp.fminf x y) ≡ false
  pub fmaxf_lower :
      (x y : fp.Float)
      → fp.is_finite x ≡ true
      → fp.is_finite y ≡ true
      → fp.ltb_float (fp.fmaxf x y) y ≡ false
  pub zero_finite : fp.is_finite fp.zero_float ≡ true

pub positive : (b : Bool) → not b ≡ false → b ≡ true
positive b h = ground arith

-- Neither below the minimum nor above the maximum.
abbrev pub IsWithin : (fp : SinglePrecision) → fp.Float → fp.Float → fp.Float → Type 0
IsWithin fp value minimum maximum =
    (fp.ltb_float value minimum ≡ false) × (fp.ltb_float maximum value ≡ false)

module _ {fp : SinglePrecision} where
  abbrev pub IsReady : Pid fp → Type 0
  IsReady p = check (some p) ≡ ok

  -- What mizu_pid_check has tested.
  pub record Facts (p : Pid fp) : Type 0 where
    pub live : p.initialized ≡ true
    pub accepted : validate_config (some p.config) ≡ ok
    pub output_min_finite : fp.is_finite p.config.output_min ≡ true
    pub output_max_finite : fp.is_finite p.config.output_max ≡ true
    pub integral_min_finite : fp.is_finite p.config.integral_min ≡ true
    pub integral_max_finite : fp.is_finite p.config.integral_max ≡ true
    pub outputs_ordered : fp.ltb_float p.config.output_max p.config.output_min ≡ false
    pub integrals_ordered : fp.ltb_float p.config.integral_max p.config.integral_min ≡ false
    pub integral_finite : fp.is_finite p.integral ≡ true

  pub check-Facts : (p : Pid fp) → IsReady p → Facts p
  unfolding check validate_config
  check-Facts p r = record {
    live = ground (arith, r);
    accepted = ground (arith, r);
    output_min_finite = ground (arith, r);
    output_max_finite = ground (arith, r);
    integral_min_finite = ground (arith, r);
    integral_max_finite = ground (arith, r);
    outputs_ordered = ground (arith, r);
    integrals_ordered = ground (arith, r);
    integral_finite = ground (arith, r);
  }

  module _ (laws : Laws fp) where
    clamp-finite :
        (value minimum maximum : fp.Float)
        → fp.is_finite value ≡ true
        → fp.is_finite minimum ≡ true
        → fp.is_finite maximum ≡ true
        → fp.is_finite (clamp fp value minimum maximum) ≡ true
    unfolding clamp
    clamp-finite value minimum maximum v l h =
        elim (laws.fminf_choice (fp.fmaxf value minimum) maximum) [
          | inl e ↦ elim (laws.fmaxf_choice value minimum) [ inl f ↦ cc | inr f ↦ cc ]
          | inr e ↦ cc
        ]

    clamp-IsWithin :
        (value minimum maximum : fp.Float)
        → fp.is_finite value ≡ true
        → fp.is_finite minimum ≡ true
        → fp.is_finite maximum ≡ true
        → fp.ltb_float maximum minimum ≡ false
        → IsWithin fp (clamp fp value minimum maximum) minimum maximum
    unfolding clamp
    clamp-IsWithin value minimum maximum v l h o =
        let raised = fp.fmaxf value minimum in
        let raised_finite : fp.is_finite raised ≡ true = elim (laws.fmaxf_choice value minimum) [
          | inl f ↦ cc
          | inr f ↦ cc
        ] in
        let above = laws.fmaxf_lower value minimum v l in
        (
          elim (laws.fminf_choice raised maximum) [ inl e ↦ cc | inr e ↦ cc ],
          laws.fminf_upper raised maximum raised_finite h,
        )

    module _ (p : Pid fp) (facts : Facts p) where
      -- What the computation gives: numbers, the output within the limits, and the integral too if the
      -- `old` one is.
      abbrev pub IsGood : fp.Float → Option (fp.Float × fp.Float) → Type 0
      IsGood old none = Unit
      IsGood old (some (integral, limited)) =
          (fp.is_finite integral ≡ true)
          × (fp.is_finite limited ≡ true)
          × IsWithin fp limited p.config.output_min p.config.output_max
          × (IsWithin fp old p.config.integral_min p.config.integral_max
              → IsWithin fp integral p.config.integral_min p.config.integral_max)

      emit-IsGood :
          (old integral raw : fp.Float)
          → fp.is_finite integral ≡ true
          → fp.is_finite raw ≡ true
          → (IsWithin fp old p.config.integral_min p.config.integral_max
              → IsWithin fp integral p.config.integral_min p.config.integral_max)
          → IsGood old (emit fp integral (clamp fp raw p.config.output_min p.config.output_max))
      unfolding emit
      emit-IsGood old integral raw i r k =
          if_elim (IsGood old)
            (not (fp.is_finite (clamp fp raw p.config.output_min p.config.output_max))) (λ _. tt)
            (λ n. (
              i,
              positive _ n,
              clamp-IsWithin raw _ _ r facts.output_min_finite facts.output_max_finite
                  facts.outputs_ordered,
              k,
            ))

      correct-IsGood :
          (error derivative dt integral raw : fp.Float)
          → fp.is_finite integral ≡ true
          → fp.is_finite raw ≡ true
          → IsGood integral (correct p.config error derivative dt integral raw)
      unfolding correct
      correct-IsGood error derivative dt integral raw i r =
          let gain =
            fp.mul_float p.config.tracking_gain
              (fp.sub_float (clamp fp raw p.config.output_min p.config.output_max) raw) in
          let corrected = fp.add_float integral (fp.mul_float gain dt) in
          let kept = clamp fp corrected p.config.integral_min p.config.integral_max in
          let raw' = raw_output p.config error kept derivative in
          if_elim (IsGood integral) (not (p.config.anti_windup == back_calculation))
            (λ _. emit-IsGood integral integral raw i r (λ k. k))
            (λ _.
              if_elim (IsGood integral) (not (fp.is_finite corrected) || not (fp.is_finite raw'))
                (λ _. tt)
                (λ n.
                  let corrected_finite : fp.is_finite corrected ≡ true = ground (arith, n) in
                  emit-IsGood integral kept raw'
                    (clamp-finite corrected _ _ corrected_finite facts.integral_min_finite
                      facts.integral_max_finite)
                    (ground (arith, n))
                    (λ _.
                      clamp-IsWithin corrected _ _ corrected_finite facts.integral_min_finite
                        facts.integral_max_finite facts.integrals_ordered)))

      -- Of an integral that is within its limits, the result is within them whatever the old one was.
      IsGood-forget :
          (candidate old : fp.Float) (r : Option (fp.Float × fp.Float))
          → IsWithin fp candidate p.config.integral_min p.config.integral_max
          → IsGood candidate r
          → IsGood old r
      IsGood-forget candidate old none k g = tt
      IsGood-forget candidate old (some _) k g = (g.0, g.1, g.2, λ _. g.3 k)

      integrate-IsGood :
          (error derivative dt candidate : fp.Float)
          → fp.is_finite candidate ≡ true
          → IsWithin fp candidate p.config.integral_min p.config.integral_max
          → IsGood p.integral (integrate p error derivative dt candidate)
      unfolding integrate
      integrate-IsGood error derivative dt candidate c k =
          let raw = raw_output p.config error candidate derivative in
          let held = raw_output p.config error p.integral derivative in
          if_elim (IsGood p.integral) (not (fp.is_finite raw)) (λ _. tt)
            (λ r.
              if_elim (IsGood p.integral) (not (is_winding p.config error raw))
                (λ _.
                  IsGood-forget candidate p.integral _ k
                    (correct-IsGood error derivative dt candidate raw c (positive _ r)))
                (λ _.
                  if_elim (IsGood p.integral) (not (fp.is_finite held)) (λ _. tt)
                    (λ h.
                      correct-IsGood error derivative dt p.integral held facts.integral_finite
                        (positive _ h))))

      pub compute-IsGood :
          (setpoint measurement dt : fp.Float)
          → IsGood p.integral (compute p setpoint measurement dt)
      unfolding compute
      compute-IsGood setpoint measurement dt =
          let error = fp.sub_float setpoint measurement in
          let derivative = derivative_of p measurement dt in
          let candidate = fp.add_float p.integral (fp.mul_float error dt) in
          if_elim (IsGood p.integral)
            (not (fp.is_finite error)
              || (not (fp.is_finite derivative) || not (fp.is_finite candidate)))
            (λ _. tt)
            (λ n.
              let finite : fp.is_finite candidate ≡ true = ground (arith, n) in
              integrate-IsGood error derivative dt _
                (clamp-finite candidate _ _ finite facts.integral_min_finite
                  facts.integral_max_finite)
                (clamp-IsWithin candidate _ _ finite facts.integral_min_finite
                  facts.integral_max_finite facts.integrals_ordered))
