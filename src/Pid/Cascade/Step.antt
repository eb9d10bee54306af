-- ===== src/Pid/Cascade/Step.antt =====
-- One mizu_cascaded_pid_calculate: a step of both controllers, or no change.
use embedded_library.Prelude.{
  true, false, not, ◌≡◌, refl, sym, subst, ◌⊎◌, inl, inr, Option, none, some, if◌then◌else◌,
  if_elim, arith,
}
use embedded_library.Status.{Status, ok, is_ok}
use embedded_library.Pid.{SinglePrecision, Pid}
use embedded_library.Pid.Calculate as Single
use embedded_library.Pid.Limits.{Laws, IsReady}
use embedded_library.Pid.Failsafe.{is_refusal, IsDone, calculate-IsSafe}
use embedded_library.Pid.Cascade.{CascadeInput, CascadedPid, check, calculate, calculate_both}

pub refused : (s : Status) → is_refusal s ≡ true → is_ok s ≡ false
refused s e = ground arith

triple :
    {A B C : Type 0} {r : A × B × C} {a : A} {b : B} {c : C}
    → r.0 ≡ a
    → r.1 ≡ b
    → r.2 ≡ c
    → r ≡ (a, b, c)
triple e f g = cc

module _ {fp : SinglePrecision} where
  pub record IsReadyPair (c : CascadedPid fp) : Type 0 where
    pub live : c.initialized ≡ true
    pub outer_ready : IsReady c.outer_pid
    pub inner_ready : IsReady c.inner_pid

  -- Both controllers have made one step, the output of the outer one being the setpoint of the inner one.
  pub record IsStep (c : CascadedPid fp) (input : CascadeInput fp) (local : fp.Float)
      (d : CascadedPid fp) : Type 0 where
    pub pair : IsReadyPair d
    pub outer_done : IsDone c.outer_pid input.outer_measurement d.outer_pid
    pub inner_done : IsDone c.inner_pid input.inner_measurement d.inner_pid
    pub outer_call :
        Single.calculate
          (some c.outer_pid)
          input.outer_setpoint
          input.outer_measurement
          input.dt
          (some local)
        ≡ (ok, some d.outer_pid, some d.outer_pid.output)
    pub inner_call :
        Single.calculate
          (some c.inner_pid)
          d.outer_pid.output
          input.inner_measurement
          input.dt
          (some local)
        ≡ (ok, some d.inner_pid, some d.inner_pid.output)

  abbrev pub IsSafePair :
      CascadedPid fp
      → Option (CascadeInput fp)
      → fp.Float
      → Option fp.Float
      → Status × Option (CascadedPid fp) × Option fp.Float
      → Type 0
  IsSafePair c input local output (status, c', output') =
      ((is_refusal status ≡ true) × (c' ≡ some c) × (output' ≡ output))
      ⊎ ((i : CascadeInput fp) × (d : CascadedPid fp) × (input ≡ some i)
          × (status ≡ ok)
          × (c' ≡ some d)
          × (output' ≡ some d.inner_pid.output)
          × IsStep c i local d)

  module _ (c : CascadedPid fp) (input : CascadeInput fp) (local : fp.Float) where
    abbrev outer_of : Status × Option (Pid fp) × Option fp.Float
    outer_of =
        Single.calculate (some c.outer_pid) input.outer_setpoint input.outer_measurement input.dt
          (some local)

    abbrev inner_of : fp.Float → Status × Option (Pid fp) × Option fp.Float
    inner_of setpoint =
        Single.calculate (some c.inner_pid) setpoint input.inner_measurement input.dt (some local)

    outer_refused :
        (output : fp.Float)
        → is_ok outer_of.0 ≡ false
        → calculate_both c input local output ≡ (outer_of.0, some c, some output)
    unfolding calculate_both
    outer_refused output e = simp e

    inner_refused :
        (output x : fp.Float) (q : Pid fp)
        → outer_of ≡ (ok, some q, some x)
        → is_ok (inner_of x).0 ≡ false
        → calculate_both c input local output ≡ ((inner_of x).0, some c, some output)
    unfolding calculate_both
    inner_refused output x q e f = simp (e, f)

    both_done :
        (output x y : fp.Float) (q q' : Pid fp)
        → outer_of ≡ (ok, some q, some x)
        → inner_of x ≡ (ok, some q', some y)
        → calculate_both c input local output ≡ (
          ok,
          some (record { outer_pid = q; inner_pid = q'; initialized = c.initialized }),
          some y,
        )
    unfolding calculate_both
    both_done output x y q q' e f = simp (e, f)

  module _ (laws : Laws fp) (c : CascadedPid fp) (pair : IsReadyPair c) where
    both-IsSafePair :
        (input : CascadeInput fp) (local output : fp.Float)
        → IsSafePair c (some input) local (some output) (calculate_both c input local output)
    both-IsSafePair input local output =
        let P = IsSafePair c (some input) local (some output) in
        elim (calculate-IsSafe laws c.outer_pid input.outer_setpoint input.outer_measurement
          input.dt (some local) pair.outer_ready) [
            | inl (r, _, _) ↦
                subst P (sym (outer_refused c input local output (refused _ r)))
                  (inl (r, refl, refl))
            | inr (q, s, e, o, outer_done) ↦
                let first = triple s e o in
                elim (calculate-IsSafe laws c.inner_pid q.output input.inner_measurement input.dt
                  (some local) pair.inner_ready) [
                    | inl (r, _, _) ↦
                        subst P
                          (sym (inner_refused c input local output q.output q first (refused _ r)))
                          (inl (r, refl, refl))
                    | inr (q', s', e', o', inner_done) ↦
                        let second = triple s' e' o' in
                        subst P
                          (sym
                            (both_done c input local output q.output q'.output q q' first second))
                          (inr (
                            input,
                            _,
                            refl,
                            refl,
                            refl,
                            refl,
                            record {
                              pair = record {
                                live = pair.live;
                                outer_ready = outer_done.ready;
                                inner_ready = inner_done.ready;
                              };
                              outer_done = outer_done;
                              inner_done = inner_done;
                              outer_call = first;
                              inner_call = second;
                            },
                          ))
                  ]
          ]

    passed :
        {A : Type 0} (P : A → Type 0) (x y : A)
        → P y
        → P (if not (is_ok (check (some c))) then x else y)
    unfolding check
    passed P x y h =
        if_elim P (not (is_ok (check (some c)))) (λ n. absurd (ground (arith, n, pair.live)))
          (λ _. h)

    -- On a cascade whose two controllers mizu_pid_check accepts, with fminf and fmaxf as in the C
    -- standard and zero finite: a mizu_cascaded_pid_calculate on whatever arguments either returns a
    -- status that blames the arguments and changes neither the object nor the output; or it returns OK,
    -- both controllers have made a mizu_pid_calculate that returned OK, the inner one with the output
    -- of the outer one as its setpoint, each output within the limits of its controller, and the output
    -- of the call is that of the inner one.
    pub calculate-IsSafePair :
        (input : Option (CascadeInput fp)) (local : fp.Float) (output : Option fp.Float)
        → IsSafePair c input local output (calculate (some c) input local output)
    unfolding calculate
    calculate-IsSafePair none local output =
        passed (IsSafePair c none local output) _ _ (inl (refl, refl, refl))
    calculate-IsSafePair (some input) local none =
        passed (IsSafePair c (some input) local none) _ _ (inl (refl, refl, refl))
    calculate-IsSafePair (some input) local (some output) =
        passed (IsSafePair c (some input) local (some output)) _ _
          (both-IsSafePair input local output)
