-- ===== src/Pool/History.antt =====
-- A pool from its initialisation on, over any history of calls.
use embedded_library.Prelude.{
  ℕ, ◌*◌, ◌/◌, ◌≤◌, ◌<◌, ◌≡◌, inl, inr, ◌⊎◌, refl, sym, ◌∙◌, ap, subst, false, not, ◌&&◌, ◌||◌,
  ◌==◌, if◌then◌else◌, if_elim, ltb→ge, ltb, size_max, Bool-cases, Option-cases, Option, none, some,
  List, [], ◌∷◌, length, or_else, arith,
}
use embedded_library.Foundation.{Foundation, ok, invalid_argument, is_fine, overlaps}
use embedded_library.Pool.{
  Pool, PoolConfig, acquire, release, init, new_pool, valid_output, word_bytes, is_misconfigured,
  is_overlapping,
}
use embedded_library.Pool.Inv.{IsValid, new_pool-IsValid, check-ok, get_or-clear_states}
use embedded_library.Pool.Slots.{slot_of, slot_of_lem}
use Prim.{Unit}
use embedded_library.Pool.Ledger.{IsTracked, occurrences, strike, lent_in, lent_once}
use embedded_library.Pool.Calls.{release_lem, IsReleased, acquire_lem, IsAcquired}

-- An empty ledger fits a pool that is new.
pub new_pool-IsTracked : (c : PoolConfig) → IsValid (new_pool c) → IsTracked (new_pool c) []
unfolding occurrences
new_pool-IsTracked c v = record {
  valid = v;
  balanced = omega arith;
  traced = λ a. elim (Option-cases (slot_of (new_pool c) a)) [
    | inl e ↦ sym (ap (lent_in (new_pool c)) e)
    | inr (slot, e) ↦
        let (inside, _) = slot_of_lem (new_pool c) v.sized a slot e in
        sym (ap (lent_in (new_pool c)) e ∙ get_or-clear_states c.capacity c.bytes slot inside)
  ];
}

-- The pool was not bound before, or had no slot lent.
abbrev pub IsIdle : Pool → Type 0
IsIdle p = (p.storage ≡ 0) ⊎ (p.available ≡ p.capacity)

-- The array at `states` of a configuration has at least the size stated.
abbrev IsSized : Option PoolConfig → Type 0
IsSized none = Unit
IsSized (some c) = c.states_size ≤ length c.bytes

-- The answers of object_pool_init: a new pool in place of an idle one, or an error and no change.
abbrev IsBound : Pool → Foundation × Option Pool → Type 0
IsBound p r =
    ((p' : Pool) × (r ≡ (ok, some p')) × IsIdle p × IsTracked p' [])
    ⊎ (is_fine r.0 ≡ false) × (r.1 ≡ some p)

init-IsBound :
    (p : Pool) (c : PoolConfig) (address config_address : ℕ)
    → c.states_size ≤ length c.bytes
    → IsBound p (init address (some p) config_address (some c))
unfolding init is_misconfigured
init-IsBound p c address config_address holds =
    if_elim (IsBound p) (is_misconfigured c) (λ _. inr (refl, refl))
      (λ configured.
        if_elim (IsBound p) (ltb (size_max / c.slot_size) c.capacity) (λ _. inr (refl, refl))
          (λ fits.
            if_elim (IsBound p)
              (ltb c.storage_size (c.capacity * c.slot_size) || ltb c.states_size c.capacity)
              (λ _. inr (refl, refl))
              (λ large.
                if_elim (IsBound p) (is_overlapping address config_address c)
                  (λ _. inr (refl, refl))
                  (λ apart.
                    if_elim (IsBound p) (not (p.storage == 0) && not (p.available == p.capacity))
                      (λ _. inr (refl, refl))
                      (λ free.
                        let v : IsValid (new_pool c) =
                          new_pool-IsValid c (ground (arith, configured))
                            (ground (arith, configured)) (ground (arith, configured))
                            (ground (arith, configured))
                            (ltb→ge (size_max / c.slot_size) c.capacity fits)
                            (ground (arith, large, holds)) in
                        inl (new_pool c, refl, ground (arith, free), new_pool-IsTracked c v))))))

-- When object_pool_init returns OK, with an array at `states` that has the size stated: the pool was not
-- bound before or had no slot lent, so a pool with a slot lent is not bound again; and the new pool is
-- valid, with all slots free, as its empty ledger says.
pub init_lem :
    (p p' : Pool) (c : PoolConfig) (address config_address : ℕ)
    → c.states_size ≤ length c.bytes
    → init address (some p) config_address (some c) ≡ (ok, some p')
    → IsIdle p × IsTracked p' []
init_lem p p' c address config_address holds e =
    elim (subst (IsBound p) e (init-IsBound p c address config_address holds)) [
      | inl (p'', same, idle, tracked) ↦
          let e' : p'' ≡ p' = cc in (idle, subst (λ q. IsTracked q []) e' tracked)
      | inr (refused, _) ↦ absurd (ground arith)
    ]

-- The ledger of an idle pool is empty.
idle-ledger : (p : Pool) (ledger : List ℕ) → IsTracked p ledger → IsIdle p → ledger ≡ []
idle-ledger p [] t idle = refl
idle-ledger p (a ∷ ledger) t (inl unbound) = absurd (omega (arith, t.valid.storage_set, unbound))
idle-ledger p (a ∷ ledger) t (inr free) = absurd (omega (arith, t.balanced, free))

bound-IsTracked :
    (p : Pool) (ledger : List ℕ) (r : Foundation × Option Pool)
    → IsTracked p ledger
    → IsBound p r
    → IsTracked (or_else r.1 p) ledger
bound-IsTracked p ledger r t (inl (p', same, idle, tracked)) =
    subst (λ q. IsTracked (or_else q.1 p) ledger) (sym same)
      (subst (IsTracked p') (sym (idle-ledger p ledger t idle)) tracked)
bound-IsTracked p ledger r t (inr (refused, same)) =
    subst (λ o. IsTracked (or_else o p) ledger) (sym same) t

init-IsTracked :
    (p : Pool) (ledger : List ℕ) (address config_address : ℕ) (config : Option PoolConfig)
    → IsSized config
    → IsTracked p ledger
    → IsTracked (or_else (init address (some p) config_address config).1 p) ledger
unfolding init
init-IsTracked p ledger address config_address none sized t = t
init-IsTracked p ledger address config_address (some c) sized t =
    bound-IsTracked p ledger _ t (init-IsBound p c address config_address sized)

-- The calls that change the pool: object_pool_init, with the address of the configuration (`none` is
-- NULL), object_pool_acquire and object_pool_release. The client's ledger after a call follows from the
-- answer of object_pool_acquire and of object_pool_release, and object_pool_init has no part in it.
pub data Call : Type 0 where
  binding : ℕ → Option PoolConfig → Call
  acquiring : ℕ → ℕ → Call
  releasing : ℕ → Call

abbrev pub enter : Option (ℕ × ℕ) → List ℕ → List ℕ
enter none ledger = ledger
enter (some slot) ledger = slot.0 ∷ ledger

unfoldable pub step : ℕ → Pool × List ℕ → Call → Pool × List ℕ
step address (p, ledger) (binding config_address config) =
    (or_else (init address (some p) config_address config).1 p, ledger)
step address (p, ledger) (acquiring result index) =
    let r = acquire address (some p) result index in (or_else r.1 p, enter r.2 ledger)
step address (p, ledger) (releasing pointer) =
    let r = release (some p) pointer in
    (or_else r.1 p, if is_fine r.0 then strike pointer ledger else ledger)

unfoldable pub run : ℕ → Pool × List ℕ → List Call → Pool × List ℕ
run address state [] = state
run address state (call ∷ calls) = run address (step address state call) calls

-- The arrays that the calls of object_pool_init hand over have the sizes stated.
abbrev pub AreSized : List Call → Type 0
AreSized [] = Unit
AreSized (binding config_address config ∷ calls) = IsSized config × AreSized calls
AreSized (_ ∷ calls) = AreSized calls

abbrev Tracked : Pool × List ℕ → Type 0
Tracked state = IsTracked state.0 state.1

step-IsTracked :
    (address : ℕ) (p : Pool) (ledger : List ℕ) (call : Call) (calls : List Call)
    → IsTracked p ledger
    → AreSized (call ∷ calls)
    → Tracked (step address (p, ledger) call)
unfolding step acquire
step-IsTracked address p ledger (binding config_address config) calls t sized =
    init-IsTracked p ledger address config_address config sized.0 t
step-IsTracked address p ledger (acquiring result index) calls t sized =
    let call = acquire address (some p) result index in
    let refused =
      not (valid_output address p result word_bytes)
      || not (valid_output address p index word_bytes)
      || overlaps result word_bytes index word_bytes in
    elim (Bool-cases refused) [
      | inl bad ↦
          let done : call ≡ (invalid_argument, some p, none) = simp (check-ok t.valid, bad) in
          subst (λ r. IsTracked (or_else r.1 p) (enter r.2 ledger)) (sym done) t
      | inr good ↦
          let answer =
            acquire_lem p ledger address result index t (ground (arith, good))
              (ground (arith, good)) (ground (arith, good)) in
          elim (Bool-cases (ltb (length ledger) p.capacity)) [
            | inl some_left ↦
                let found = subst (IsAcquired p ledger call) some_left answer in
                subst (λ r. IsTracked (or_else r.1 p) (enter r.2 ledger)) (sym found.2) found.6
            | inr none_left ↦
                let (p', done, after) = subst (IsAcquired p ledger call) none_left answer in
                subst (λ r. IsTracked (or_else r.1 p) (enter r.2 ledger)) (sym done) after
          ]
    ]
step-IsTracked address p ledger (releasing pointer) calls t sized =
    let call = release (some p) pointer in
    let answer = release_lem p ledger pointer t in
    elim (Bool-cases (ltb 0 (occurrences pointer ledger))) [
      | inl present ↦
          let (p', done, after) = subst (IsReleased p ledger pointer call) present answer in
          subst
            (λ r. IsTracked (or_else r.1 p) (if is_fine r.0 then strike pointer ledger else ledger))
            (sym done) after
      | inr absent ↦
          let (refused, same) = subst (IsReleased p ledger pointer call) absent answer in
          subst
            (λ o.
              IsTracked (or_else o p) (if is_fine call.0 then strike pointer ledger else ledger))
            (sym same)
            (subst (λ b. IsTracked p (if b then strike pointer ledger else ledger)) (sym refused) t)
    ]

later-AreSized : (call : Call) (calls : List Call) → AreSized (call ∷ calls) → AreSized calls
later-AreSized (binding config_address config) calls sized = sized.1
later-AreSized (acquiring result index) calls sized = sized
later-AreSized (releasing pointer) calls sized = sized

-- Over any history of calls of object_pool_init, object_pool_acquire and object_pool_release on the pool,
-- with any arguments else, except that the arrays handed to object_pool_init have the sizes stated, a pool
-- that its ledger fits keeps to its ledger: the ledger holds the addresses of the slots lent, each once,
-- and the free slots and the ledger make up the capacity. So no call of object_pool_init drops a slot that
-- is lent.
pub run-IsTracked :
    (address : ℕ) (p : Pool) (ledger : List ℕ) (calls : List Call)
    → IsTracked p ledger
    → AreSized calls
    → let after = run address (p, ledger) calls in
      IsTracked after.0 after.1 × ((a : ℕ) → occurrences a after.1 < 2)
unfolding run
run-IsTracked address p ledger [] t sized = (t, lent_once t)
run-IsTracked address p ledger (call ∷ calls) t sized =
    let next = step address (p, ledger) call in
    run-IsTracked address next.0 next.1 calls (step-IsTracked address p ledger call calls t sized)
      (later-AreSized call calls sized)
