-- ===== src/Pid/Failsafe.antt =====
-- The calls of the PID controller: one that fails changes nothing, one that succeeds keeps the limits.
use embedded_library.Prelude.{
  is_null, Bool, true, false, not, ◌||◌, ◌≡◌, refl, ◌⊎◌, inl, inr, Option, none, some, if_elim,
  or_else, arith,
}
use embedded_library.Status.{Status, ok, invalid_argument, invalid_data, overflow, is_ok}
use embedded_library.Pid.{SinglePrecision, Config, Pid, check, validate_config, init, reset}
use embedded_library.Pid.Calculate.{store, calculate}
use embedded_library.Pid.Limits.{
  Laws, IsWithin, IsReady, check-Facts, IsGood, compute-IsGood, positive,
}

-- A status that blames the arguments of the call, never the object.
abbrev pub is_refusal : Status → Bool
is_refusal invalid_argument = true
is_refusal invalid_data = true
is_refusal overflow = true
is_refusal _ = false

is_ok-ok : (s : Status) → is_ok s ≡ true → s ≡ ok
is_ok-ok s e = ground arith

module _ {fp : SinglePrecision} where
  abbrev pub IsInLimits : Pid fp → Type 0
  IsInLimits p = IsWithin fp p.output p.config.output_min p.config.output_max

  abbrev pub IsHeld : Pid fp → Type 0
  IsHeld p = IsWithin fp p.integral p.config.integral_min p.config.integral_max

  -- The call has stored a new state and written its output.
  pub record IsDone (p : Pid fp) (measurement : fp.Float) (q : Pid fp) : Type 0 where
    pub ready : IsReady q
    pub same_config : q.config ≡ p.config
    pub in_limits : IsInLimits q
    pub held : IsHeld p → IsHeld q
    pub measured : q.previous_measurement ≡ measurement
    pub recorded : q.history_valid ≡ true

  -- Nothing has changed, or a new state has been stored and its output written.
  abbrev pub IsSafe :
      Pid fp → fp.Float → Option fp.Float → Status × Option (Pid fp) × Option fp.Float → Type 0
  IsSafe p measurement output (status, p', output') =
      ((is_refusal status ≡ true) × (p' ≡ some p) × (output' ≡ output))
      ⊎ ((q : Pid fp) × (status ≡ ok)
          × (p' ≡ some q)
          × (output' ≡ some q.output)
          × IsDone p measurement q)

  accepted_again :
      (p q : Pid fp)
      → IsReady p
      → q.config ≡ p.config
      → q.initialized ≡ p.initialized
      → fp.is_finite q.integral ≡ true
      → fp.is_finite q.previous_measurement ≡ true
      → fp.is_finite q.output ≡ true
      → IsReady q
  unfolding check
  accepted_again p q r c l i m o =
      let facts = check-Facts p r in
      let live = facts.live in let accepted = facts.accepted in simp (c, l, i, m, o, live, accepted)

  store-IsSafe :
      (laws : Laws fp) (p : Pid fp) (r : IsReady p) (measurement : fp.Float)
      (output : Option fp.Float) (result : Option (fp.Float × fp.Float))
      → fp.is_finite measurement ≡ true
      → IsGood laws p (check-Facts p r) p.integral result
      → IsSafe p measurement output (store p measurement output result)
  unfolding store
  store-IsSafe laws p r measurement output none m g = inl (refl, refl, refl)
  store-IsSafe laws p r measurement output (some (integral, limited)) m g = inr (
    _,
    refl,
    refl,
    refl,
    record {
      ready = accepted_again p _ r refl refl g.0 m g.1;
      same_config = refl;
      in_limits = g.2;
      held = g.3;
      measured = refl;
      recorded = refl;
    },
  )

  -- On an object that mizu_pid_check accepts, with fminf and fmaxf as in the C standard and zero
  -- finite: a mizu_pid_calculate on whatever arguments either returns a status that blames the
  -- arguments and changes neither the object nor the output; or it returns OK and writes the new output
  -- of the object, the output lies within its limits, the integral does if it did before, the
  -- configuration is the same, the measurement is the history of the next call, and mizu_pid_check
  -- accepts the object.
  pub calculate-IsSafe :
      (laws : Laws fp) (p : Pid fp) (setpoint measurement dt : fp.Float) (output : Option fp.Float)
      → IsReady p
      → IsSafe p measurement output (calculate (some p) setpoint measurement dt output)
  unfolding calculate
  calculate-IsSafe laws p setpoint measurement dt output r =
      let P = IsSafe p measurement output in
      if_elim P (not (is_ok (check (some p)))) (λ n. absurd (ground (arith, n, r)))
        (λ _.
          if_elim P (is_null output) (λ _. inl (refl, refl, refl))
            (λ _.
              if_elim P
                (not (fp.is_finite setpoint)
                  || (not (fp.is_finite measurement)
                      || (not (fp.is_finite dt) || fp.leb_float dt fp.zero_float)))
                (λ _. inl (refl, refl, refl))
                (λ n.
                  store-IsSafe laws p r measurement output _ (ground (arith, n))
                    (compute-IsGood laws p (check-Facts p r) setpoint measurement dt))))

  -- mizu_pid_reset, in the same way.
  abbrev pub IsReset : Pid fp → fp.Float → Status × Option (Pid fp) → Type 0
  IsReset p measurement (status, p') =
      ((is_refusal status ≡ true) × (p' ≡ some p))
      ⊎ ((q : Pid fp) × (status ≡ ok)
          × (p' ≡ some q)
          × IsReady q
          × (q.config ≡ p.config)
          × (q.previous_measurement ≡ measurement))

  pub reset-IsReset :
      (laws : Laws fp) (p : Pid fp) (measurement : fp.Float)
      → IsReady p
      → IsReset p measurement (reset (some p) measurement)
  unfolding reset
  reset-IsReset laws p measurement r =
      let P = IsReset p measurement in
      if_elim P (not (is_ok (check (some p)))) (λ n. absurd (ground (arith, n, r)))
        (λ _.
          if_elim P (not (fp.is_finite measurement)) (λ _. inl (refl, refl))
            (λ n. inr (
              _,
              refl,
              refl,
              accepted_again p _ r refl refl laws.zero_finite (positive _ n) laws.zero_finite,
              refl,
              refl,
            )))

  -- An init that returns OK leaves an object with the configuration, that mizu_pid_check accepts.
  pub init-IsReady :
      (laws : Laws fp) (p : Pid fp) (config : Config fp)
      → let r = init (some p) (some config) in
        is_ok r.0 ≡ true → IsReady (or_else r.1 p) × ((or_else r.1 p).config ≡ config)
  unfolding init check
  init-IsReady laws p config =
      let P : Status × Option (Pid fp) → Type 0 =
        λ r. (is_ok r.0 ≡ true → IsReady (or_else r.1 p) × ((or_else r.1 p).config ≡ config)) in
      if_elim P (not (is_ok (validate_config (some config)))) (λ n f. absurd (ground (arith, n, f)))
        (λ y _.
          let accepted = is_ok-ok _ (positive _ y) in
          let number = laws.zero_finite in (simp (accepted, number), refl))
