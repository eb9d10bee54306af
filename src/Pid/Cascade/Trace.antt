-- ===== src/Pid/Cascade/Trace.antt =====
-- Sequences of calls on a cascade, from its initialisation on.
use embedded_library.Prelude.{
  true, false, not, ◌≡◌, refl, ◌∙◌, sym, ap, subst, ◌⊎◌, inl, inr, Option, some, List, [], ◌∷◌,
  if_elim, or_else, arith,
}
use embedded_library.Status.{Status, ok, is_ok}
use embedded_library.Pid.{SinglePrecision, Config, Pid}
use embedded_library.Pid as PID
use embedded_library.Pid.Limits.{Laws, IsWithin, positive}
use embedded_library.Pid.Failsafe.{is_refusal, reset-IsReset, init-IsReady}
use embedded_library.Pid.Cascade.{
  CascadeConfig, CascadeInput, CascadedPid, check, init, reset, calculate, zero_pid,
}
use embedded_library.Pid.Cascade.Step.{IsReadyPair, calculate-IsSafePair, refused}

-- A call on the cascade; `local` is what its uninitialised local variables hold.
pub data Call (fp : SinglePrecision) : Type 0 where
  reset_call : fp.Float → fp.Float → Call fp
  calculate_call : Option (CascadeInput fp) → fp.Float → Call fp

-- No call has blamed the object.
abbrev pub AreAnswers : List Status → Type 0
AreAnswers [] = Unit
AreAnswers (s ∷ statuses) = ((s ≡ ok) ⊎ (is_refusal s ≡ true)) × AreAnswers statuses

both : {A B : Type 0} {r : A × B} {a : A} {b : B} → r.0 ≡ a → r.1 ≡ b → r ≡ (a, b)
both e f = cc

module _ {fp : SinglePrecision} where
  -- The status of a call, the object after it, and what the output pointer points to.
  abbrev pub call_once :
      Option (CascadedPid fp)
      → Option fp.Float
      → Call fp
      → Status × Option (CascadedPid fp) × Option fp.Float
  call_once c output (Call.reset_call outer inner) =
      let (status, c') = reset c outer inner in (status, c', output)
  call_once c output (Call.calculate_call input local) = calculate c input local output

  unfoldable pub call_all :
      Option (CascadedPid fp)
      → Option fp.Float
      → List (Call fp)
      → List Status × Option (CascadedPid fp) × Option fp.Float
  call_all c output [] = ([], c, output)
  call_all c output (call ∷ calls) =
      let (status, c', output') = call_once c output call in
      let (statuses, c'', output'') = call_all c' output' calls in
      (status ∷ statuses, c'', output'')

  -- The controllers have the configuration that was passed to the init.
  abbrev pub HasConfig : CascadeConfig fp → CascadedPid fp → Type 0
  HasConfig config c =
      (c.outer_pid.config ≡ config.outer_config) × (c.inner_pid.config ≡ config.inner_config)

  -- `output'` is `output`, or was written within the limits of the inner controller.
  abbrev pub IsWritten : CascadeConfig fp → Option fp.Float → Option fp.Float → Type 0
  IsWritten config output output' =
      (output' ≡ output)
      ⊎ ((y : fp.Float) × (output' ≡ some y)
          × IsWithin fp y config.inner_config.output_min config.inner_config.output_max)

  abbrev pub IsKept :
      CascadeConfig fp
      → Option fp.Float
      → Status × Option (CascadedPid fp) × Option fp.Float
      → Type 0
  IsKept config output (status, c', output') =
      ((status ≡ ok) ⊎ (is_refusal status ≡ true))
      × ((d : CascadedPid fp) × (c' ≡ some d) × IsReadyPair d × HasConfig config d)
      × IsWritten config output output'

  -- The three ways of a reset on a cascade that is initialised.
  module _ (c : CascadedPid fp) (live : c.initialized ≡ true) (outer inner : fp.Float) where
    reset_outer_refused :
        is_ok (PID.reset (some c.outer_pid) outer).0 ≡ false
        → reset (some c) outer inner ≡ ((PID.reset (some c.outer_pid) outer).0, some c)
    unfolding reset check
    reset_outer_refused e = simp (live, e)

    reset_inner_refused :
        (PID.reset (some c.outer_pid) outer).0 ≡ ok
        → is_ok (PID.reset (some c.inner_pid) inner).0 ≡ false
        → reset (some c) outer inner ≡ ((PID.reset (some c.inner_pid) inner).0, some c)
    unfolding reset check
    reset_inner_refused e f = simp (live, e, f)

    reset_done :
        (p q : Pid fp)
        → PID.reset (some c.outer_pid) outer ≡ (ok, some p)
        → PID.reset (some c.inner_pid) inner ≡ (ok, some q)
        → reset (some c) outer inner
          ≡ (ok, some (record { outer_pid = p; inner_pid = q; initialized = c.initialized }))
    unfolding reset check
    reset_done p q e f = simp (live, e, f)

  module _ (laws : Laws fp) (config : CascadeConfig fp) (c : CascadedPid fp) (pair : IsReadyPair c)
      (k : HasConfig config c) (output : Option fp.Float) where
    abbrev IsAfter : Status × Option (CascadedPid fp) → Type 0
    IsAfter (status, c') = IsKept config output (status, c', output)

    reset-IsKept : (outer inner : fp.Float) → IsAfter (reset (some c) outer inner)
    reset-IsKept outer inner = elim (reset-IsReset laws c.outer_pid outer pair.outer_ready) [
      | inl (r, e) ↦
          subst IsAfter (sym (reset_outer_refused c pair.live outer inner (refused _ r)))
            (inr r, (c, refl, pair, k), inl refl)
      | inr (p, s, e, p_ready, p_config, _) ↦
          elim (reset-IsReset laws c.inner_pid inner pair.inner_ready) [
            | inl (r, e') ↦
                subst IsAfter (sym (reset_inner_refused c pair.live outer inner s (refused _ r)))
                  (inr r, (c, refl, pair, k), inl refl)
            | inr (q, s', e', q_ready, q_config, _) ↦
                subst IsAfter (sym (reset_done c pair.live outer inner p q (both s e) (both s' e')))
                  (
                    inl refl,
                    (
                      _,
                      refl,
                      record { live = pair.live; outer_ready = p_ready; inner_ready = q_ready },
                      (p_config ∙ k.0, q_config ∙ k.1),
                    ),
                    inl refl,
                  )
          ]
    ]

    calculate-IsKept :
        (input : Option (CascadeInput fp)) (local : fp.Float)
        → IsKept config output (calculate (some c) input local output)
    calculate-IsKept input local = elim (calculate-IsSafePair laws c pair input local output) [
      | inl (r, e, o) ↦ (inr r, (c, e, pair, k), inl o)
      | inr (i, d, _, s, e, o, step) ↦
          let inner_config = step.inner_done.same_config ∙ k.1 in
          let within =
            subst (λ x. IsWithin fp d.inner_pid.output x.output_min x.output_max) inner_config
              step.inner_done.in_limits in
          (
            inl s,
            (d, e, step.pair, (step.outer_done.same_config ∙ k.0, inner_config)),
            inr (d.inner_pid.output, o, within),
          )
    ]

    call_once-IsKept : (call : Call fp) → IsKept config output (call_once (some c) output call)
    call_once-IsKept (Call.reset_call outer inner) = reset-IsKept outer inner
    call_once-IsKept (Call.calculate_call input local) = calculate-IsKept input local

  abbrev pub IsKeptAll :
      CascadeConfig fp
      → Option fp.Float
      → List Status × Option (CascadedPid fp) × Option fp.Float
      → Type 0
  IsKeptAll config output (statuses, c', output') =
      AreAnswers statuses
      × ((d : CascadedPid fp) × (c' ≡ some d) × IsReadyPair d × HasConfig config d)
      × IsWritten config output output'

  chain :
      (config : CascadeConfig fp) (output output' output'' : Option fp.Float)
      → IsWritten config output output'
      → IsWritten config output' output''
      → IsWritten config output output''
  chain config output output' output'' w (inl e) = subst (IsWritten config output) (sym e) w
  chain config output output' output'' w (inr y) = inr y

  call_all-IsKept :
      (laws : Laws fp) (config : CascadeConfig fp) (c : CascadedPid fp) (calls : List (Call fp))
      (output : Option fp.Float)
      → IsReadyPair c
      → HasConfig config c
      → IsKeptAll config output (call_all (some c) output calls)
  unfolding call_all
  call_all-IsKept laws config c [] output pair k = (tt, (c, refl, pair, k), inl refl)
  call_all-IsKept laws config c (call ∷ calls) output pair k =
      let (answer, (d, e, pair', k'), written) =
        call_once-IsKept laws config c pair k output call in
      let output' = (call_once (some c) output call).2 in
      let rest = call_all-IsKept laws config d calls output' pair' k' in
      let (answers, last, written') =
        subst (λ m. IsKeptAll config output' (call_all m output' calls)) (sym e) rest in
      ((answer, answers), last, chain config output output' _ written written')

  init-IsReadyPair :
      (laws : Laws fp) (config : CascadeConfig fp) (old c : CascadedPid fp)
      → init (some old) (some config) ≡ (ok, some c)
      → IsReadyPair c × HasConfig config c
  unfolding init
  init-IsReadyPair laws config old c e =
      let P : Status × Option (CascadedPid fp) → Type 0 =
        λ r. (r ≡ (ok, some c) → IsReadyPair c × HasConfig config c) in
      let outer = PID.init (some zero_pid) (some config.outer_config) in
      let inner = PID.init (some zero_pid) (some config.inner_config) in
      if_elim P (not (is_ok outer.0)) (λ n f. absurd (ground (arith, n, f)))
        (λ o.
          if_elim P (not (is_ok inner.0)) (λ n f. absurd (ground (arith, n, f)))
            (λ i f.
              let (outer_ready, outer_config) =
                init-IsReady laws zero_pid config.outer_config (positive _ o) in
              let (inner_ready, inner_config) =
                init-IsReady laws zero_pid config.inner_config (positive _ i) in
              subst (λ r. IsReadyPair (or_else r old) × HasConfig config (or_else r old))
                (ap (λ r. r.1) f)
                (
                  record { live = refl; outer_ready = outer_ready; inner_ready = inner_ready },
                  (outer_config, inner_config),
                )))
        e

  -- After a mizu_cascaded_pid_init that returned OK, with fminf and fmaxf as in the C standard and zero
  -- finite, whatever resets and calculations follow: each returns OK or a status that blames its
  -- arguments, never the object; both controllers keep the configuration of the init and stay as
  -- mizu_pid_check accepts them; and the output is what it was before, or within the output limits of
  -- the inner configuration.
  pub call_all-IsKeptAll :
      (laws : Laws fp) (config : CascadeConfig fp) (old c : CascadedPid fp) (calls : List (Call fp))
      (output : Option fp.Float)
      → init (some old) (some config) ≡ (ok, some c)
      → IsKeptAll config output (call_all (some c) output calls)
  call_all-IsKeptAll laws config old c calls output e =
      let (pair, k) = init-IsReadyPair laws config old c e in
      call_all-IsKept laws config c calls output pair k
