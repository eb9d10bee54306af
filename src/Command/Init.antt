-- ===== src/Command/Init.antt =====
-- mizu_command_service_init: a registry that it accepts has distinct ids and callable commands.
use embedded_library.Prelude.{
  is_null, elements, ℕ, zero, suc, ◌+◌, ◌-◌, ◌≤◌, ◌≡◌, refl, sym, ◌∙◌, subst, true, false, some,
  List, [], ◌∷◌, ◌++◌, append_assoc, append-nil, length, length-append, drop, take-append-drop,
  get_elem?, arith,
}
use native.Mathlib.Nat.{add-zero}
use embedded_library.Status.{ok}
use embedded_library.Registry.{Group, entries, all_entries, is_blank, id_exists}
use embedded_library.Registry.Unique.{
  IsUnique, earlier, IsUnique-step, IsUnique-next, IsUnique-all, IsUnique-start, get_elem?-middle,
}
use embedded_library.Command.{
  Descriptor, CommandService, id_of, max_commands, check_commands, check_group, check_groups, init,
  bound_service,
}

module _ {W : Type 0} where
  -- A command that has a name and a handler.
  abbrev pub IsCallable : Descriptor W → Type 0
  IsCallable c = (is_blank c.name ≡ false) × (is_null c.handler ≡ false)

  abbrev pub AreCallable : List (Descriptor W) → Type 0
  AreCallable [] = Unit
  AreCallable (c ∷ commands) = IsCallable c × AreCallable commands

  AreCallable-append :
      (xs ys : List (Descriptor W)) → AreCallable xs → AreCallable ys → AreCallable (xs ++ ys)
  AreCallable-append [] ys p q = q
  AreCallable-append (x ∷ xs) ys p q = (p.0, AreCallable-append xs ys p.1 q)

  module _ (groups : List (Group (Descriptor W))) (i : ℕ) where
    check_commands-AreCallable :
        (j : ℕ) (commands : List (Descriptor W))
        → check_commands groups i j commands ≡ ok
        → AreCallable commands
    unfolding check_commands
    check_commands-AreCallable j [] h = tt
    check_commands-AreCallable j (c ∷ commands) h =
        (ground arith, check_commands-AreCallable (suc j) commands (ground arith))

    check_commands-IsUnique :
        (g : Group (Descriptor W)) (done commands rest : List (Descriptor W))
        → get_elem? groups i ≡ some g
        → elements g.items ≡ done ++ (commands ++ rest)
        → check_commands groups i (length done) commands ≡ ok
        → IsUnique id_of (earlier groups i (length done))
        → IsUnique id_of (earlier groups i (length (done ++ commands)))
    unfolding check_commands
    check_commands-IsUnique g done [] rest h e c u = rw append-nil u
    check_commands-IsUnique g done (x ∷ commands) rest h e c u =
        let fresh : id_exists id_of groups i (length done) x.id ≡ false = ground arith in
        let long : suc (length done) ≡ length (done ++ x ∷ []) =
          omega (arith, length-append done (x ∷ [])) in
        let more : check_commands groups i (length (done ++ x ∷ [])) commands ≡ ok =
          rw (← long) (ground arith) in
        subst (λ l. IsUnique id_of (earlier groups i (length l)))
          (append_assoc done (x ∷ []) commands)
          (check_commands-IsUnique g (done ++ x ∷ []) commands rest h
            (e ∙ sym (append_assoc done (x ∷ []) (commands ++ rest))) more
            (IsUnique-step id_of groups i g done x (commands ++ rest) h e u fresh))

    check_group-commands :
        (total : ℕ) (g : Group (Descriptor W))
        → check_group groups i total g ≡ ok
        → (check_commands groups i 0 (entries g) ≡ ok) × (g.item_count ≤ max_commands - total)
    unfolding check_group
    check_group-commands total g h = ground arith

  -- What the loop over the groups from index `i` on has established when it ends well.
  check_groups-valid :
      (groups before rest : List (Group (Descriptor W))) (i total n : ℕ)
      → groups ≡ before ++ rest
      → length before ≡ i
      → n ≤ length rest
      → total ≤ max_commands
      → IsUnique id_of (earlier groups i 0)
      → (check_groups groups i total n rest).0 ≡ ok
      → IsUnique id_of (earlier groups (i + n) 0)
        × AreCallable (all_entries n rest)
        × ((check_groups groups i total n rest).1 ≤ max_commands)
  unfolding check_groups
  check_groups-valid groups before rest i total zero e b l t u h = (rw add-zero u, tt, t)
  check_groups-valid groups before [] i total (suc n) e b l t u h = absurd (omega arith)
  check_groups-valid groups before (g ∷ rest) i total (suc n) e b l t u h =
      let passed : check_group groups i total g ≡ ok = ground arith in
      let (commands, room) = check_group-commands groups i total g passed in
      let at : get_elem? groups i ≡ some g = rw (e, ← b) (get_elem?-middle before g rest) in
      let all = take-append-drop g.item_count (elements g.items) in
      let u' =
        check_commands-IsUnique groups i g [] (entries g) (drop g.item_count (elements g.items)) at
          (sym all) commands u in
      let next = rw passed at h in
      let (v, callable, bound) =
        check_groups-valid groups (before ++ g ∷ []) rest (suc i) (total + g.item_count) n
          (e ∙ sym (append_assoc before (g ∷ []) rest))
          (omega (arith, length-append before (g ∷ []))) (omega arith) (omega arith)
          (IsUnique-next id_of groups i g at u') next in
      let e' : suc i + n ≡ i + suc n = omega arith in
      (
        subst (λ k. IsUnique id_of (earlier groups k 0)) e' v,
        AreCallable-append (entries g) (all_entries n rest)
            (check_commands-AreCallable groups i 0 (entries g) commands) callable,
        rw passed bound,
      )

  -- A registry that the service can run.
  pub record IsRegistered (s : CommandService W) : Type 0 where
    pub live : s.initialized ≡ true
    pub unique : IsUnique id_of (all_entries s.group_count s.groups)
    pub callable : AreCallable (all_entries s.group_count s.groups)

  init-ok :
      (s s' : CommandService W) (groups : List (Group (Descriptor W))) (n : ℕ)
      → init (some s) (some groups) n ≡ (ok, some s')
      → ((check_groups groups 0 0 n groups).0 ≡ ok)
        × (bound_service groups n (check_groups groups 0 0 n groups).1 ≡ s')
  unfolding init
  init-ok s s' groups n h = ground arith

  -- mizu_command_service_init that returns OK, on an array of at least `group_count` groups, leaves an
  -- initialised service over that array, with at most 64 commands by its count, no result, all ids
  -- of the registered commands distinct, and a name and a handler for each of them.
  pub init-IsRegistered :
      (s s' : CommandService W) (groups : List (Group (Descriptor W))) (group_count : ℕ)
      → group_count ≤ length groups
      → init (some s) (some groups) group_count ≡ (ok, some s')
      → IsRegistered s'
        × (s'.groups ≡ groups)
        × (s'.group_count ≡ group_count)
        × (s'.command_count ≤ max_commands)
        × (s'.snapshot.has_result ≡ false)
  init-IsRegistered s s' groups n l h =
      let (passed, same) = init-ok s s' groups n h in
      let (u, callable, bound) =
        check_groups-valid groups [] groups 0 0 n refl refl l (omega arith)
          (IsUnique-start id_of groups) passed in
      let e : 0 + n ≡ n = omega arith in
      let u' = IsUnique-all id_of groups n (subst (λ k. IsUnique id_of (earlier groups k 0)) e u) in
      rw (← same)
        (record { live = refl; unique = u'; callable = callable }, refl, refl, bound, refl)
