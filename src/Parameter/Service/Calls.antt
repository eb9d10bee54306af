-- ===== src/Parameter/Service/Calls.antt =====
-- mizu_parameter_service_set_by_id and _get_by_id: what reaches a setter, and what a read may return.
use embedded_library.Prelude.{
  ℕ, zero, suc, ◌≤◌, ◌≡◌, refl, sym, ◌∙◌, true, false, not, ◌&&◌, ◌==◌, some, List, [], ◌∷◌,
  get_elem?, arith, ◌⊎◌, inl, inr, ◌≤ℤ◌,
}
use Prim.{Unit, tt}
use embedded_library.Status.{ok, is_ok}
use embedded_library.Registry.{all_entries}
use embedded_library.Registry.Unique.{find_item_lem, find_entry_unique}
use embedded_library.Parameter.{
  Floats, Value, float_value, int32_value, uint32_value, bool_value, Descriptor, id_of, type_of,
  type_float, finite_value, value_in_range, value_is_valid, compare_values, is_positive,
  is_negative, validate_descriptor,
}
use embedded_library.Parameter.Service.{
  ParameterService, find, set_found, set_by_id, get_by_id, read_current, call_setter,
}
use embedded_library.Parameter.Service.Init.{IsRegistered, AreDescribed}

module _ {fp : Floats} where
  -- The order of the values of one type: of the integers, of the natural numbers, and of the truth values
  -- with `false` first. A float is at most another one if, by the platform's `<`, the other is not below
  -- it, or it is below the other. Values of two types have no order.
  abbrev pub AtMost : Value fp → Value fp → Type 0
  AtMost (float_value l) (float_value r) = (fp.ltb_float r l ≡ false) ⊎ (fp.ltb_float l r ≡ true)
  AtMost (int32_value l) (int32_value r) = l ≤ℤ r
  AtMost (uint32_value l) (uint32_value r) = l ≤ r
  AtMost (bool_value l) (bool_value r) = (l ≡ false) ⊎ (r ≡ true)
  AtMost _ _ = ⊥

  abbrev pub IsFinite : Value fp → Type 0
  IsFinite (float_value x) = fp.is_finite x ≡ true
  IsFinite _ = Unit

  at_most :
      (l r : Value fp)
      → type_of l ≡ type_of r
      → is_positive (compare_values l r) ≡ false
      → AtMost l r
  unfolding compare_values
  at_most (float_value l) (float_value r) t h = ground arith
  at_most (int32_value l) (int32_value r) t h = ground arith
  at_most (uint32_value l) (uint32_value r) t h = ground arith
  at_most (bool_value true) (bool_value true) t h = inr refl
  at_most (bool_value true) (bool_value false) t h = cc
  at_most (bool_value false) (bool_value r) t h = inl refl
  at_most _ _ t h = absurd (ground arith)

  at_least :
      (l r : Value fp)
      → type_of l ≡ type_of r
      → is_negative (compare_values l r) ≡ false
      → AtMost r l
  unfolding compare_values
  at_least (float_value l) (float_value r) t h = ground arith
  at_least (int32_value l) (int32_value r) t h = ground arith
  at_least (uint32_value l) (uint32_value r) t h = ground arith
  at_least (bool_value true) (bool_value r) t h = inr refl
  at_least (bool_value false) (bool_value true) t h = cc
  at_least (bool_value false) (bool_value false) t h = inl refl
  at_least _ _ t h = absurd (ground arith)

  valid_value :
      (value : Value fp) (type : ℕ)
      → value_is_valid value type ≡ true
      → (type_of value ≡ type) × IsFinite value
  unfolding value_is_valid
  valid_value (float_value x) type h = (ground arith, ground arith)
  valid_value (int32_value x) type h = (ground arith, tt)
  valid_value (uint32_value x) type h = (ground arith, tt)
  valid_value (bool_value x) type h = (ground arith, tt)

  finite_value-IsFinite :
      (value : Value fp) (type : ℕ)
      → type_of value ≡ type
      → (type == type_float && not (finite_value value)) ≡ false
      → IsFinite value
  finite_value-IsFinite (float_value x) type t h = ground arith
  finite_value-IsFinite (int32_value x) type t h = tt
  finite_value-IsFinite (uint32_value x) type t h = tt
  finite_value-IsFinite (bool_value x) type t h = tt

module _ {fp : Floats} {W : Type 0} where
  abbrev pub parameters_of : ParameterService fp W → List (Descriptor fp W)
  parameters_of s = all_entries s.group_count s.groups

  pub find-registered :
      (s : ParameterService fp W) (i : ℕ) (d : Descriptor fp W)
      → IsRegistered s
      → get_elem? (parameters_of s) i ≡ some d
      → find (some s) d.id false ≡ (ok, some d)
  unfolding find
  find-registered s i d v h = ground (
    arith,
    v.live,
    find_item_lem id_of d.id s.group_count s.groups,
    find_entry_unique id_of (parameters_of s) i d v.unique h,
  )

  described_at :
      (parameters : List (Descriptor fp W)) (i : ℕ) (d : Descriptor fp W)
      → AreDescribed parameters
      → get_elem? parameters i ≡ some d
      → validate_descriptor d ≡ ok
  described_at [] i d v h = cc
  described_at (x ∷ parameters) zero d v h = ground (arith, v.0)
  described_at (x ∷ parameters) (suc i) d v h = described_at parameters i d v.1 h

  -- The bounds of a descriptor that passed the validation have its type.
  described_types :
      (d : Descriptor fp W)
      → validate_descriptor d ≡ ok
      → (type_of d.minimum ≡ d.type) × (type_of d.maximum ≡ d.type)
  unfolding validate_descriptor value_is_valid
  described_types d v = (ground arith, ground arith)

  in_range_lem :
      (d : Descriptor fp W) (value : Value fp)
      → validate_descriptor d ≡ ok
      → type_of value ≡ d.type
      → value_in_range d value ≡ true
      → AtMost d.minimum value × AtMost value d.maximum
  unfolding value_in_range
  in_range_lem d value v t h =
      let (low, high) = described_types d v in
      (
        at_least value d.minimum (ground arith) (ground arith),
        at_most value d.maximum (ground arith) (ground arith),
      )

  -- A value that the service may hand to the setter of `d`.
  abbrev pub IsAllowed : Descriptor fp W → Value fp → Type 0
  IsAllowed d value =
      (d.writable ≡ true)
      × (type_of value ≡ d.type)
      × IsFinite value
      × AtMost d.minimum value
      × AtMost value d.maximum

  set_found_cases :
      (d : Descriptor fp W) (value : Value fp) (w : W)
      → ((is_ok (set_found d (some value) w).0 ≡ false) × ((set_found d (some value) w).1 ≡ w))
        ⊎ ((d.writable ≡ true)
            × (type_of value ≡ d.type)
            × ((d.type == type_float && not (finite_value value)) ≡ false)
            × (value_in_range d value ≡ true)
            × (set_found d (some value) w ≡ call_setter d value w))
  unfolding set_found
  set_found_cases d value w = ground arith

  set_found_lem :
      (d : Descriptor fp W) (value : Value fp) (w : W)
      → validate_descriptor d ≡ ok
      → ((is_ok (set_found d (some value) w).0 ≡ false) × ((set_found d (some value) w).1 ≡ w))
        ⊎ (IsAllowed d value × (set_found d (some value) w ≡ call_setter d value w))
  set_found_lem d value w v = elim (set_found_cases d value w) [
    | inl refused ↦ inl refused
    | inr (writable, t, finite, within, same) ↦
        let (low, high) = in_range_lem d value v t within in
        inr ((writable, t, finite_value-IsFinite value d.type t finite, low, high), same)
  ]

  set_by_id-found :
      (s : ParameterService fp W) (d : Descriptor fp W) (value : Value fp) (w : W)
      → find (some s) d.id false ≡ (ok, some d)
      → set_by_id (some s) d.id (some value) w ≡ set_found d (some value) w
  unfolding set_by_id
  set_by_id-found s d value w h = ground arith

  -- On a registered service, mizu_parameter_service_set_by_id of the id of any registered parameter
  -- either fails and changes nothing, or hands the value to the setter of that parameter and returns
  -- what the setter returns; then the parameter is writable, and the value has its type, is finite if it
  -- is a float, and is at least the minimum and at most the maximum in the order of its type.
  pub set_by_id_lem :
      (s : ParameterService fp W) (i : ℕ) (d : Descriptor fp W) (value : Value fp) (w : W)
      → IsRegistered s
      → get_elem? (parameters_of s) i ≡ some d
      → let (status, w') = set_by_id (some s) d.id (some value) w in
        ((is_ok status ≡ false) × (w' ≡ w))
        ⊎ (IsAllowed d value × ((status, w') ≡ call_setter d value w))
  set_by_id_lem s i d value w v h =
      rw (set_by_id-found s d value w (find-registered s i d v h))
        (set_found_lem d value w (described_at (parameters_of s) i d v.described h))

  read_current_lem :
      (d : Descriptor fp W) (buffer value : Value fp) (w w' : W)
      → read_current d buffer w ≡ (ok, value, w')
      → (value_is_valid value d.type ≡ true) × (value_in_range d value ≡ true)
  unfolding read_current
  read_current_lem d buffer value w w' h = (ground arith, ground arith)

  get_by_id-found :
      (s : ParameterService fp W) (d : Descriptor fp W) (buffer : Value fp) (w : W)
      → find (some s) d.id false ≡ (ok, some d)
      → get_by_id (some s) d.id (some buffer) w
        ≡ (let (status, value, w') = read_current d buffer w in (status, some value, w'))
  unfolding get_by_id
  get_by_id-found s d buffer w h = ground arith

  -- On a registered service, a mizu_parameter_service_get_by_id of the id of any registered parameter
  -- that returns OK has put a value into the caller's buffer that has the parameter's type, is finite if
  -- it is a float, and is at least the minimum and at most the maximum in the order of its type.
  pub get_by_id_lem :
      (s : ParameterService fp W) (i : ℕ) (d : Descriptor fp W) (buffer value : Value fp) (w w' : W)
      → IsRegistered s
      → get_elem? (parameters_of s) i ≡ some d
      → get_by_id (some s) d.id (some buffer) w ≡ (ok, some value, w')
      → (type_of value ≡ d.type) × IsFinite value × AtMost d.minimum value × AtMost value d.maximum
  get_by_id_lem s i d buffer value w w' v h e =
      let e' = sym (get_by_id-found s d buffer w (find-registered s i d v h)) ∙ e in
      let (valid, within) = read_current_lem d buffer value w w' (ground arith) in
      let (t, finite) = valid_value value d.type valid in
      let described = described_at (parameters_of s) i d v.described h in
      let (low, high) = in_range_lem d value described t within in (t, finite, low, high)
