-- ===== src/Parameter/Service/Init.antt =====
-- mizu_parameter_service_init: a registry that it accepts has distinct ids and valid descriptors.
use embedded_library.Prelude.{
  elements, ℕ, zero, suc, ◌+◌, ◌-◌, ◌≤◌, ◌≡◌, refl, sym, ◌∙◌, subst, true, false, some, List, [],
  ◌∷◌, ◌++◌, append_assoc, append-nil, length, length-append, drop, take-append-drop, get_elem?,
  arith,
}
use native.Mathlib.Nat.{add-zero}
use embedded_library.Status.{ok}
use embedded_library.Registry.{Group, entries, all_entries, id_exists}
use embedded_library.Registry.Unique.{
  IsUnique, earlier, IsUnique-step, IsUnique-next, IsUnique-all, IsUnique-start, get_elem?-middle,
}
use embedded_library.Parameter.{Floats, Value, Descriptor, id_of, validate_descriptor}
use embedded_library.Parameter.Service.{
  ParameterService, max_parameters, validate_current, check_parameters, check_group, check_groups,
  init, bound_service,
}

module _ {fp : Floats} {W : Type 0} where
  -- Every descriptor of the list passes mizu_parameter_validate_descriptor.
  abbrev pub AreDescribed : List (Descriptor fp W) → Type 0
  AreDescribed [] = Unit
  AreDescribed (d ∷ parameters) = (validate_descriptor d ≡ ok) × AreDescribed parameters

  AreDescribed-append :
      (xs ys : List (Descriptor fp W)) → AreDescribed xs → AreDescribed ys → AreDescribed (xs ++ ys)
  AreDescribed-append [] ys p q = q
  AreDescribed-append (x ∷ xs) ys p q = (p.0, AreDescribed-append xs ys p.1 q)

  module _ (groups : List (Group (Descriptor fp W))) (i : ℕ) (local : Value fp) where
    check_parameters-cons :
        (j : ℕ) (d : Descriptor fp W) (parameters : List (Descriptor fp W)) (w : W)
        → (check_parameters groups i local j (d ∷ parameters) w).0 ≡ ok
        → (validate_descriptor d ≡ ok)
          × (id_exists id_of groups i j d.id ≡ false)
          × ((check_parameters groups i local (suc j) parameters (validate_current d local w).1).0
              ≡ ok)
    unfolding check_parameters
    check_parameters-cons j d parameters w h = (ground arith, ground arith, ground arith)

    check_parameters-AreDescribed :
        (j : ℕ) (parameters : List (Descriptor fp W)) (w : W)
        → (check_parameters groups i local j parameters w).0 ≡ ok
        → AreDescribed parameters
    check_parameters-AreDescribed j [] w h = tt
    check_parameters-AreDescribed j (d ∷ parameters) w h =
        let (valid, _, more) = check_parameters-cons j d parameters w h in
        (
          valid,
          check_parameters-AreDescribed (suc j) parameters (validate_current d local w).1 more,
        )

    check_parameters-IsUnique :
        (g : Group (Descriptor fp W)) (done parameters rest : List (Descriptor fp W)) (w : W)
        → get_elem? groups i ≡ some g
        → elements g.items ≡ done ++ (parameters ++ rest)
        → (check_parameters groups i local (length done) parameters w).0 ≡ ok
        → IsUnique id_of (earlier groups i (length done))
        → IsUnique id_of (earlier groups i (length (done ++ parameters)))
    check_parameters-IsUnique g done [] rest w h e c u = rw append-nil u
    check_parameters-IsUnique g done (x ∷ parameters) rest w h e c u =
        let (_, fresh, more) = check_parameters-cons (length done) x parameters w c in
        let w' = (validate_current x local w).1 in
        let long : suc (length done) ≡ length (done ++ x ∷ []) =
          omega (arith, length-append done (x ∷ [])) in
        let next =
          subst (λ k. (check_parameters groups i local k parameters w').0 ≡ ok) long more in
        subst (λ l. IsUnique id_of (earlier groups i (length l)))
          (append_assoc done (x ∷ []) parameters)
          (check_parameters-IsUnique g (done ++ x ∷ []) parameters rest w' h
            (e ∙ sym (append_assoc done (x ∷ []) (parameters ++ rest))) next
            (IsUnique-step id_of groups i g done x (parameters ++ rest) h e u fresh))

    check_group-parameters :
        (total : ℕ) (g : Group (Descriptor fp W)) (w : W)
        → (check_group groups local i total g w).0 ≡ ok
        → ((check_parameters groups i local 0 (entries g) w).0 ≡ ok)
          × (g.item_count ≤ max_parameters - total)
    unfolding check_group
    check_group-parameters total g w h = (ground arith, ground arith)

  -- What the loop over the groups from index `i` on has established when it ends well.
  check_groups-valid :
      (groups before rest : List (Group (Descriptor fp W))) (local : Value fp) (i total n : ℕ)
      (w : W)
      → groups ≡ before ++ rest
      → length before ≡ i
      → n ≤ length rest
      → total ≤ max_parameters
      → IsUnique id_of (earlier groups i 0)
      → (check_groups groups local i total n rest w).0 ≡ ok
      → IsUnique id_of (earlier groups (i + n) 0)
        × AreDescribed (all_entries n rest)
        × ((check_groups groups local i total n rest w).1 ≤ max_parameters)
  unfolding check_groups
  check_groups-valid groups before rest local i total zero w e b l t u h = (rw add-zero u, tt, t)
  check_groups-valid groups before [] local i total (suc n) w e b l t u h = absurd (omega arith)
  check_groups-valid groups before (g ∷ rest) local i total (suc n) w e b l t u h =
      let w' = (check_group groups local i total g w).1 in
      let passed : (check_group groups local i total g w).0 ≡ ok = ground arith in
      let (parameters, room) = check_group-parameters groups i local total g w passed in
      let at : get_elem? groups i ≡ some g = rw (e, ← b) (get_elem?-middle before g rest) in
      let all = take-append-drop g.item_count (elements g.items) in
      let u' =
        check_parameters-IsUnique groups i local g [] (entries g)
          (drop g.item_count (elements g.items)) w at (sym all) parameters u in
      let next = rw passed at h in
      let (v, described, bound) =
        check_groups-valid groups (before ++ g ∷ []) rest local (suc i) (total + g.item_count) n w'
          (e ∙ sym (append_assoc before (g ∷ []) rest))
          (omega (arith, length-append before (g ∷ []))) (omega arith) (omega arith)
          (IsUnique-next id_of groups i g at u') next in
      let e' : suc i + n ≡ i + suc n = omega arith in
      (
        subst (λ k. IsUnique id_of (earlier groups k 0)) e' v,
        AreDescribed-append (entries g) (all_entries n rest)
            (check_parameters-AreDescribed groups i local 0 (entries g) w parameters) described,
        rw passed bound,
      )

  -- A registry that the service can run.
  pub record IsRegistered (s : ParameterService fp W) : Type 0 where
    pub live : s.initialized ≡ true
    pub unique : IsUnique id_of (all_entries s.group_count s.groups)
    pub described : AreDescribed (all_entries s.group_count s.groups)

  init-ok :
      (s s' : ParameterService fp W) (groups : List (Group (Descriptor fp W))) (n : ℕ)
      (local : Value fp) (w w' : W)
      → init (some s) (some groups) n local w ≡ (ok, some s', w')
      → ((check_groups groups local 0 0 n groups w).0 ≡ ok)
        × (bound_service groups n (check_groups groups local 0 0 n groups w).1 ≡ s')
  unfolding init
  init-ok s s' groups n local w w' h = (ground arith, ground arith)

  -- mizu_parameter_service_init that returns OK, on an array of at least `group_count` groups, leaves an
  -- initialised service over that array, with at most 64 parameters by its count, in which the ids of
  -- all registered parameters are distinct and every descriptor passes
  -- mizu_parameter_validate_descriptor.
  pub init-IsDescribed :
      (s s' : ParameterService fp W) (groups : List (Group (Descriptor fp W))) (group_count : ℕ)
      (local : Value fp) (w w' : W)
      → group_count ≤ length groups
      → init (some s) (some groups) group_count local w ≡ (ok, some s', w')
      → IsRegistered s'
        × (s'.groups ≡ groups)
        × (s'.group_count ≡ group_count)
        × (s'.parameter_count ≤ max_parameters)
  init-IsDescribed s s' groups n local w w' l h =
      let (passed, same) = init-ok s s' groups n local w w' h in
      let (u, described, bound) =
        check_groups-valid groups [] groups local 0 0 n w refl refl l (omega arith)
          (IsUnique-start id_of groups) passed in
      let e : 0 + n ≡ n = omega arith in
      let u' = IsUnique-all id_of groups n (subst (λ k. IsUnique id_of (earlier groups k 0)) e u) in
      rw (← same) (record { live = refl; unique = u'; described = described }, refl, refl, bound)
