-- ===== src/Pool/Calls.antt =====
-- What the calls of a pool return, in terms of its ledger, over any history of calls.
use embedded_library.Prelude.{
  ℕ, ◌-◌, ◌*◌, ◌/◌, ◌%◌, ◌<◌, ◌≡◌, inl, inr, refl, sym, ◌∙◌, ap, subst, Bool, true, false, not,
  ◌||◌, ◌==◌, if◌then◌else◌, ltb, leb, Bool-cases, Option-cases, Option, none, some, List, ◌∷◌,
  length, arith,
}
use embedded_library.Foundation.{
  Foundation, ok, full, invalid_argument, invalid_state, is_fine, overlaps,
}
use embedded_library.Pool.{
  Pool, lend, give_back, exhausted, acquire, release, valid_output, word_bytes,
}
use embedded_library.Pool.Slots.{slot_of, slot_of_lem, address_of}
use embedded_library.Pool.Inv.{IsValid, state_of, check-ok, lowest_in}
use embedded_library.Pool.Ledger.{
  IsTracked, occurrences, strike, lent_in, lent_at, lowest_fresh, exhausted-IsTracked,
  lend-IsTracked, give_back-IsTracked,
}

abbrev release_slot : Pool → Option ℕ → Foundation × Option Pool
release_slot p none = (invalid_argument, some p)
release_slot p (some slot) =
    if not (state_of p slot == 1) then (invalid_state, some p) else (ok, some (give_back p slot))

two_guards {ℓ κ} :
    {A : Type ℓ} {B : Type κ} (a b c d : Bool) (x : A) (f : Option A → B)
    → (if a || b then f none else if c || d then f none else f (some x))
      ≡ f (if a || b || c || d then none else some x)
two_guards true b c d x f = refl
two_guards false true c d x f = refl
two_guards false false true d x f = refl
two_guards false false false true x f = refl
two_guards false false false false x f = refl

release-slot_of :
    {p : Pool} (v : IsValid p) (pointer : ℕ)
    → release (some p) pointer ≡ release_slot p (slot_of p pointer)
unfolding release slot_of
release-slot_of {p} v pointer =
    let offset = pointer - p.storage in
    rw (check-ok v) (
      two_guards (pointer == 0) (ltb pointer p.storage) (leb (p.capacity * p.slot_size) offset)
        (not (offset % p.slot_size == 0)) (offset / p.slot_size) (release_slot p))

-- The answers of object_pool_release: whether the pointer is in the ledger.
abbrev pub IsReleased : Pool → List ℕ → ℕ → Foundation × Option Pool → Bool → Type 0
IsReleased p ledger pointer r true =
    (p' : Pool) × (r ≡ (ok, some p')) × IsTracked p' (strike pointer ledger)
IsReleased p ledger pointer r false = (is_fine r.0 ≡ false) × (r.1 ≡ some p)

-- object_pool_release, on a pool that its ledger fits and for any pointer: if the pointer is in the
-- ledger, it returns OK, and the ledger less one entry of the pointer fits the pool after it; else it
-- returns an error and leaves the pool as it was. So a slot is given back once, and by its start only.
pub release_lem :
    (p : Pool) (ledger : List ℕ) (pointer : ℕ)
    → IsTracked p ledger
    → IsReleased p ledger pointer (release (some p) pointer) (ltb 0 (occurrences pointer ledger))
release_lem p ledger pointer t =
    let call = release (some p) pointer in
    elim (Option-cases (slot_of p pointer)) [
      | inl e ↦
          let absent : ltb 0 (occurrences pointer ledger) ≡ false =
            ground (arith, t.traced pointer, ap (lent_in p) e) in
          let done : call ≡ (invalid_argument, some p) =
            release-slot_of t.valid pointer ∙ ap (release_slot p) e in
          let answer : IsReleased p ledger pointer call false =
            (ap (λ r. is_fine r.0) done, ap (λ r. r.1) done) in
          subst (IsReleased p ledger pointer call) (sym absent) answer
      | inr (slot, e) ↦
          let (inside, at_slot) = slot_of_lem p t.valid.sized pointer slot e in
          let state = t.traced pointer ∙ ap (lent_in p) e in
          let done : call ≡ release_slot p (some slot) =
            release-slot_of t.valid pointer ∙ ap (release_slot p) e in
          elim (Bool-cases (state_of p slot == 1)) [
            | inl lent ↦
                let is_one : state_of p slot ≡ 1 = ground (arith, lent) in
                let present : ltb 0 (occurrences pointer ledger) ≡ true =
                  ground (arith, state, is_one) in
                let returned : call ≡ (ok, some (give_back p slot)) = rw done (simp (lent)) in
                let answer : IsReleased p ledger pointer call true = (
                  give_back p slot,
                  returned,
                  subst (λ a. IsTracked (give_back p slot) (strike a ledger)) (sym at_slot)
                      (give_back-IsTracked t slot inside is_one),
                ) in
                subst (IsReleased p ledger pointer call) (sym present) answer
            | inr not_lent ↦
                let absent : ltb 0 (occurrences pointer ledger) ≡ false =
                  ground (arith, state, not_lent, t.valid.bits slot inside) in
                let returned : call ≡ (invalid_state, some p) = rw done (simp (not_lent)) in
                let answer : IsReleased p ledger pointer call false =
                  (ap (λ r. is_fine r.0) returned, ap (λ r. r.1) returned) in
                subst (IsReleased p ledger pointer call) (sym absent) answer
          ]
    ]

-- The answers of object_pool_acquire to outputs that it accepts: whether a slot is free.
abbrev pub IsAcquired : Pool → List ℕ → Foundation × Option Pool × Option (ℕ × ℕ) → Bool → Type 0
IsAcquired p ledger r true =
    (p' : Pool) × (slot : ℕ) × (r ≡ (ok, some p', some (address_of p slot, slot)))
    × (slot < p.capacity)
    × (occurrences (address_of p slot) ledger ≡ 0)
    × ((i : ℕ) → i < slot → occurrences (address_of p i) ledger ≡ 1)
    × IsTracked p' (address_of p slot ∷ ledger)
IsAcquired p ledger r false = (p' : Pool) × (r ≡ (full, some p', none)) × IsTracked p' ledger

-- object_pool_acquire, on a pool that its ledger fits and with outputs that overlap neither the pool, its
-- arrays nor each other: while the ledger is shorter than the capacity, it returns OK, and the address
-- and index of a slot that is not in the ledger, though all slots of lower index are; the ledger with
-- that address fits the pool after it. Else it returns the error of a full pool, with the same ledger.
pub acquire_lem :
    (p : Pool) (ledger : List ℕ) (address result index : ℕ)
    → IsTracked p ledger
    → valid_output address p result word_bytes ≡ true
    → valid_output address p index word_bytes ≡ true
    → overlaps result word_bytes index word_bytes ≡ false
    → IsAcquired p ledger (acquire address (some p) result index) (ltb (length ledger) p.capacity)
unfolding acquire
acquire_lem p ledger address result index t valid_result valid_index apart =
    let fine = check-ok t.valid in
    elim (Bool-cases (ltb (length ledger) p.capacity)) [
      | inl some_left ↦
          let left : 0 < p.available = ground (arith, some_left, t.balanced) in
          let inside = lowest_in t.valid left in
          let was_free = t.valid.free_at inside in
          let not_none : (p.available == 0) ≡ false = ground (arith, left) in
          let not_past : leb p.capacity p.lowest_free_index ≡ false = ground (arith, inside) in
          let done : acquire address (some p) result index
              ≡ (ok, some (lend p), some (address_of p p.lowest_free_index, p.lowest_free_index)) =
            simp (fine, valid_result, valid_index, apart, not_none, not_past, was_free) in
          let answer : IsAcquired p ledger (acquire address (some p) result index) true = (
            lend p,
            p.lowest_free_index,
            done,
            inside,
            lowest_fresh t left,
            (λ i h. lent_at t i (omega (arith, h, inside)) ∙ t.valid.lent_below i h),
            lend-IsTracked t left,
          ) in
          subst (IsAcquired p ledger (acquire address (some p) result index)) (sym some_left) answer
      | inr none_left ↦
          let left : p.available ≡ 0 = ground (arith, none_left, t.balanced) in
          let done : acquire address (some p) result index ≡ (full, some (exhausted p), none) =
            simp (fine, valid_result, valid_index, apart, left) in
          let answer : IsAcquired p ledger (acquire address (some p) result index) false =
            (exhausted p, done, exhausted-IsTracked t) in
          subst (IsAcquired p ledger (acquire address (some p) result index)) (sym none_left) answer
    ]
