-- ===== src/Menu/Steps.antt =====
-- The step cache of menu.c: one step for each registered parameter, in registration order.
use embedded_library.Prelude.{
  ℕ, zero, suc, ◌==◌, if◌then◌else◌, Option, none, some, List, [], ◌∷◌, false,
}
use embedded_library.Status.{Status, ok, out_of_range}
use embedded_library.Registry.{entries}
use embedded_library.Parameter.{Floats, Descriptor}
use embedded_library.Parameter.Service.{ParameterService, get_group_count, get_group}

module _ {fp : Floats} {W : Type 0} where
  -- The inner loop of mizu_menu_find_step_index: the index that was found, and the linear index after it.
  unfoldable pub step_in_group : ℕ → ℕ → List (Descriptor fp W) → Option ℕ × ℕ
  step_in_group parameter_id linear_index [] = (none, linear_index)
  step_in_group parameter_id linear_index (d ∷ parameters) =
      if d.id == parameter_id
      then (some linear_index, linear_index)
      else step_in_group parameter_id (suc linear_index) parameters

  -- The outer loop, over `n` groups from `group_index` on.
  unfoldable pub step_in_groups : Option (ParameterService fp W) → ℕ → ℕ → ℕ → ℕ → Status × Option ℕ
  step_in_groups s parameter_id linear_index group_index zero = (out_of_range, none)
  step_in_groups s parameter_id linear_index group_index (suc n) =
      let (status, group) = get_group s group_index false in
      elim group [
        | none ↦ (status, none)
        | some g ↦
            let (found, next) = step_in_group parameter_id linear_index (entries g) in
            let rest = step_in_groups s parameter_id next (suc group_index) n in
            elim found [ none ↦ rest | some i ↦ (ok, some i) ]
      ]

  unfoldable pub find_step_index : Option (ParameterService fp W) → ℕ → Status × Option ℕ
  find_step_index s parameter_id =
      let (status, count) = get_group_count s false in
      elim count [ none ↦ (status, none) | some n ↦ step_in_groups s parameter_id 0 0 n ]
