-- ===== src/Parameter/Range.antt =====
-- The integer arithmetic of mizu_parameter_adjust_value and mizu_parameter_scale_step stays in range.
use embedded_library.Prelude.{
  ℕ, zero, suc, ◌+◌, ◌-◌, ◌*◌, ◌/◌, ◌%◌, ◌^◌, ◌≤◌, ◌<◌, ◌≡◌, refl, sym, ◌∙◌, ap, Bool, true, not,
  Option, some, ltb, leb, if◌then◌else◌, ℤ, pos, negsuc, ltb_ℤ, ◌-ℤ◌, ◌+ℤ◌, ◌*ℤ◌, ◌≤ℤ◌, arith,
}
use embedded_library.Status.{Status, ok}
use embedded_library.Parameter.{u32_mod, sub_u32, is_positive}
use embedded_library.Parameter.Adjust.{adjust_int32, adjust_uint32, scale_int32, scale_uint32}

-- The nearest integer between the bounds.
abbrev pub clamp : ℤ → ℤ → ℤ → ℤ
clamp low high n = if ltb_ℤ n low then low else if ltb_ℤ high n then high else n

clamp_between :
    (low high n : ℤ) → low ≤ℤ high → (low ≤ℤ clamp low high n) × (clamp low high n ≤ℤ high)
clamp_between low high n l = ground arith

if_true : {A : Type 0} (b : Bool) (x y : A) → b ≡ true → (if not b then x else y) ≡ y
if_true b x y h = ground arith

select_clamp :
    (low high n : ℤ)
    → ◌≡◌ {A = Status × Option ℤ}
        (if ltb_ℤ n low
          then (ok, some low)
          else if ltb_ℤ high n
          then (ok, some high)
          else (ok, some n))
        (ok, some (clamp low high n))
select_clamp low high n = ground arith

ascent : (value delta : ℕ) → pos value +ℤ pos delta ≡ pos (value + delta)
ascent value delta = ground arith

descent : (value delta : ℕ) → delta ≤ value → pos value -ℤ pos delta ≡ pos (value - delta)
descent value delta l = ground arith

increase_clamp :
    (low high value delta : ℕ)
    → low ≤ value
    → value ≤ high
    → high < 2 ^ 32
    → pos (if leb (sub_u32 high value) delta then high else (value + delta % u32_mod) % u32_mod)
      ≡ clamp (pos low) (pos high) (pos value +ℤ pos delta)
increase_clamp low high value delta l h b = ground arith

decrease_clamp :
    (low high value delta : ℕ)
    → low ≤ value
    → value ≤ high
    → high < 2 ^ 32
    → pos (if leb (sub_u32 value low) delta then low else sub_u32 value (delta % u32_mod))
      ≡ clamp (pos low) (pos high) (pos value -ℤ pos delta)
decrease_clamp low high value delta l h b = ground arith

product_pos : (step n : ℕ) → pos step *ℤ pos n ≡ pos (step * n)
product_pos step n = ground arith

product_neg :
    (value step n : ℕ) → pos value +ℤ pos step *ℤ negsuc n ≡ pos value -ℤ pos (step * suc n)
product_neg value step n = ground arith

adjust_up :
    (low high value step n : ℕ)
    → 0 < step
    → adjust_uint32 low high value step (pos n) ≡ (
      ok,
      some (
          if leb (sub_u32 high value) (step * n)
          then high
          else (value + (step * n) % u32_mod) % u32_mod),
    )
unfolding adjust_uint32
adjust_up low high value step n p = ground arith

adjust_down :
    (low high value step n : ℕ)
    → 0 < step
    → adjust_uint32 low high value step (negsuc n) ≡ (
      ok,
      some (
          if leb (sub_u32 value low) (step * suc n)
          then low
          else sub_u32 value ((step * suc n) % u32_mod)),
    )
unfolding adjust_uint32
adjust_down low high value step n p = ground arith

-- On an uint32 value between the bounds of its parameter, and a step that is not 0, the wrapping
-- arithmetic of mizu_parameter_adjust_uint32 returns OK and the number nearest to
-- value + step * step_count between the bounds, as computed on the integers.
pub adjust_uint32_lem :
    (low high value step : ℕ) (step_count : ℤ)
    → low ≤ value
    → value ≤ high
    → high < 2 ^ 32
    → 0 < step
    → (r : ℕ) × (adjust_uint32 low high value step step_count ≡ (ok, some r))
      × (pos r ≡ clamp (pos low) (pos high) (pos value +ℤ pos step *ℤ step_count))
unfolding adjust_uint32
adjust_uint32_lem low high value step (pos n) l h b p = (
  _,
  adjust_up low high value step n p,
  increase_clamp low high value (step * n) l h b
      ∙ ap (λ d. clamp (pos low) (pos high) (pos value +ℤ d)) (sym (product_pos step n)),
)
adjust_uint32_lem low high value step (negsuc n) l h b p = (
  _,
  adjust_down low high value step n p,
  decrease_clamp low high value (step * suc n) l h b
      ∙ ap (clamp (pos low) (pos high)) (sym (product_neg value step n)),
)

-- A valid uint32 step stays one, between 1 and the width of the range, whichever way it is scaled.
pub scale_uint32_lem :
    (maximum step : ℕ) (direction : ℤ)
    → 0 < step
    → step ≤ maximum
    → maximum < 2 ^ 32
    → (0 < scale_uint32 maximum step direction) × (scale_uint32 maximum step direction ≤ maximum)
unfolding scale_uint32
scale_uint32_lem maximum step direction p l b = ground arith

adjust_int32-clamp :
    (low high value step step_count : ℤ)
    → is_positive step ≡ true
    → adjust_int32 low high value step step_count
      ≡ (ok, some (clamp low high (value +ℤ step *ℤ step_count)))
unfolding adjust_int32
adjust_int32-clamp low high value step n p =
    if_true (is_positive step) _ _ p ∙ select_clamp low high (value +ℤ step *ℤ n)

-- On an int32 parameter with ordered bounds and a positive step, mizu_parameter_adjust_int32 returns OK
-- and the number nearest to value + step * step_count between the bounds.
pub adjust_int32_lem :
    (low high value step step_count : ℤ)
    → low ≤ℤ high
    → is_positive step ≡ true
    → (r : ℤ) × (adjust_int32 low high value step step_count ≡ (ok, some r))
      × (r ≡ clamp low high (value +ℤ step *ℤ step_count))
      × (low ≤ℤ r)
      × (r ≤ℤ high)
unfolding adjust_int32
adjust_int32_lem low high value step n l p =
    let result = value +ℤ step *ℤ n in
    let (a, b) = clamp_between low high result l in
    (clamp low high result, adjust_int32-clamp low high value step n p, refl, a, b)

-- A valid int32 step, one between 1 and the width of the range and no more than INT32_MAX, stays one,
-- whichever way it is scaled.
pub scale_int32_lem :
    (range step : ℕ) (direction : ℤ)
    → 0 < step
    → step ≤ range
    → step ≤ 2 ^ 31 - 1
    → (r : ℕ) × (scale_int32 (pos range) (pos step) direction ≡ pos r)
      × (0 < r)
      × (r ≤ range)
      × (r ≤ 2 ^ 31 - 1)
unfolding scale_int32
scale_int32_lem range step (pos zero) p l b = (step, ground arith, p, l, b)
scale_int32_lem range step (pos (suc n)) p l b = (
  if ltb (2 ^ 31 - 1) range
      then (if ltb (2 ^ 31 - 1) (step * 10) then 2 ^ 31 - 1 else step * 10)
      else (if ltb range (step * 10) then range else step * 10),
  ground arith,
  ground arith,
  ground arith,
  ground arith,
)
scale_int32_lem range step (negsuc n) p l b = (
  if ltb (step / 10) 1 then 1 else step / 10,
  ground arith,
  ground arith,
  ground arith,
  ground arith,
)
