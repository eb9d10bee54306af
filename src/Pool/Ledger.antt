-- ===== src/Pool/Ledger.antt =====
-- The pool beside a ledger of the addresses lent: what each call does to the ledger, and that a pool in
-- step with its ledger stays so.
use embedded_library.Prelude.{
  ℕ, suc, ◌+◌, ◌-◌, ◌*◌, ◌<◌, ◌≡◌, ◌≢◌, inl, inr, refl, sym, ◌∙◌, ap, ◌==◌, if◌then◌else◌, if_elim,
  size_max, ltb, Option-cases, Option, none, some, List, [], ◌∷◌, length, get_or-set, arith,
}
use mathlib.Core.Option.{none-ne-some}
use embedded_library.Pool.{Pool, lend, give_back, exhausted}
use embedded_library.Pool.Slots.{
  slot_of, slot_of-address_of, slot_of_lem, address_of, address_of-injective,
}
use embedded_library.Pool.Inv.{
  IsValid, state_of, lowest_in, exhausted-IsValid, lend-IsValid, available-give_back,
  give_back-IsValid,
}

-- How often an address stands in the ledger.
unfoldable pub occurrences : ℕ → List ℕ → ℕ
occurrences address [] = 0
occurrences address (a ∷ ledger) = (if a == address then 1 else 0) + occurrences address ledger

-- The ledger less one entry of an address.
unfoldable pub strike : ℕ → List ℕ → List ℕ
strike address [] = []
strike address (a ∷ ledger) = if a == address then ledger else a ∷ strike address ledger

pub occurrences-strike :
    (address a : ℕ) (ledger : List ℕ)
    → occurrences a (strike address ledger) ≡ occurrences a ledger - (if address == a then 1 else 0)
unfolding occurrences strike
occurrences-strike address a [] = omega arith
occurrences-strike address a (b ∷ ledger) =
    let rest = occurrences-strike address a ledger in
    if_elim
      (λ l.
        occurrences a l
        ≡ (if b == a then 1 else 0) + occurrences a ledger - (if address == a then 1 else 0))
      (b == address) (λ h. ground (arith, h)) (λ h. ground (arith, h, rest))

pub length-strike :
    (address : ℕ) (ledger : List ℕ)
    → 0 < occurrences address ledger
    → suc (length (strike address ledger)) ≡ length ledger
unfolding occurrences strike
length-strike address [] h = absurd (omega (arith, h))
length-strike address (b ∷ ledger) h =
    if_elim (λ (l : List ℕ). suc (length l) ≡ suc (length ledger)) (b == address) (λ _. refl)
      (λ other. ap suc (length-strike address ledger (ground (arith, h, other))))

-- 1 for the address of a slot that is lent, else 0.
abbrev pub lent_in : Pool → Option ℕ → ℕ
lent_in p none = 0
lent_in p (some slot) = state_of p slot

-- The pool is valid, its free slots and the ledger make up the capacity, and the ledger holds the
-- addresses of the slots lent, each once.
pub record IsTracked (p : Pool) (ledger : List ℕ) : Type 0 where
  pub valid : IsValid p
  pub balanced : p.available + length ledger ≡ p.capacity
  pub traced : (address : ℕ) → occurrences address ledger ≡ lent_in p (slot_of p address)

module _ {p : Pool} {ledger : List ℕ} (t : IsTracked p ledger) where
  pub lent_at :
      (slot : ℕ) → slot < p.capacity → occurrences (address_of p slot) ledger ≡ state_of p slot
  lent_at slot inside =
      t.traced (address_of p slot)
      ∙ ap (lent_in p) (slot_of-address_of p t.valid.sized slot t.valid.storage_set inside)

  -- No address is lent twice.
  pub lent_once : (address : ℕ) → occurrences address ledger < 2
  lent_once address = elim (Option-cases (slot_of p address)) [
    | inl e ↦ omega (arith, t.traced address, ap (lent_in p) e)
    | inr (slot, e) ↦
        let (inside, _) = slot_of_lem p t.valid.sized address slot e in
        omega (arith, t.traced address, ap (lent_in p) e, t.valid.bits slot inside)
  ]

  -- Another state in one slot changes what is lent at its address only.
  traced_set :
      (p' : Pool) (slot state : ℕ)
      → slot < p.capacity
      → slot_of p' ≡ slot_of p
      → ((i : ℕ) → state_of p' i ≡ (if slot == i then state else state_of p i))
      → (address : ℕ)
      → lent_in p' (slot_of p' address)
        ≡ (if address_of p slot == address then state else occurrences address ledger)
  traced_set p' slot state inside same after address = elim (Option-cases (slot_of p address)) [
    | inl e ↦
        let here = ap (lent_in p') (ap (λ f. f address) same ∙ e) in
        let nothing = t.traced address ∙ ap (lent_in p) e in
        let elsewhere : address_of p slot ≢ address = λ same_address. none-ne-some slot (
          sym e
          ∙ ap (slot_of p) (sym same_address)
          ∙ slot_of-address_of p t.valid.sized slot t.valid.storage_set inside) in
        ground (arith, here, nothing, elsewhere)
    | inr (i, e) ↦
        let here = ap (lent_in p') (ap (λ f. f address) same ∙ e) in
        let there = t.traced address ∙ ap (lent_in p) e in
        let (inside_i, at_i) = slot_of_lem p t.valid.sized address i e in
        let one_slot =
          address_of-injective p t.valid.sized slot i t.valid.storage_set inside inside_i in
        ground
          (arith, here, there, at_i, one_slot, ap (λ (k : ℕ). p.storage + k * p.slot_size), after i)
  ]

module _ {p : Pool} {ledger : List ℕ} (t : IsTracked p ledger) where
  pub exhausted-IsTracked : IsTracked (exhausted p) ledger
  unfolding slot_of
  exhausted-IsTracked = record {
    valid = exhausted-IsValid t.valid;
    balanced =
        if_elim (λ (q : Pool). q.available + length ledger ≡ q.capacity)
          (ltb p.exhausted_count size_max) (λ _. t.balanced) (λ _. t.balanced);
    traced =
        if_elim (λ q. (address : ℕ) → occurrences address ledger ≡ lent_in q (slot_of q address))
          (ltb p.exhausted_count size_max) (λ _. t.traced) (λ _. t.traced);
  }

  same_slots_lend : slot_of (lend p) ≡ slot_of p
  unfolding slot_of
  same_slots_lend = refl

  same_slots_back : (slot : ℕ) → slot_of (give_back p slot) ≡ slot_of p
  unfolding slot_of
  same_slots_back slot = refl

  module _ (some_left : 0 < p.available) where
    inside : p.lowest_free_index < p.capacity
    inside = lowest_in t.valid some_left

    -- The slot that is lent next is not in the ledger.
    pub lowest_fresh : occurrences (address_of p p.lowest_free_index) ledger ≡ 0
    lowest_fresh = lent_at t p.lowest_free_index inside ∙ t.valid.free_at inside

    pub lend-IsTracked : IsTracked (lend p) (address_of p p.lowest_free_index ∷ ledger)
    unfolding occurrences
    lend-IsTracked =
        let stored : p.lowest_free_index < length p.bytes = omega (arith, inside, t.valid.holds) in
        record {
          valid = lend-IsValid t.valid some_left;
          balanced = omega (arith, t.balanced, some_left);
          traced = λ a. ground (
            arith,
            traced_set t (lend p) p.lowest_free_index 1 inside same_slots_lend
                (λ i. get_or-set p.bytes p.lowest_free_index i 1 0 stored) a,
            ap (λ k. occurrences k ledger),
            lowest_fresh,
          );
        }

  module _ (slot : ℕ) (inside : slot < p.capacity) (lent : state_of p slot ≡ 1) where
    pub give_back-IsTracked : IsTracked (give_back p slot) (strike (address_of p slot) ledger)
    give_back-IsTracked =
        let stored : slot < length p.bytes = omega (arith, inside, t.valid.holds) in
        let once = lent_at t slot inside ∙ lent in
        let shorter = length-strike (address_of p slot) ledger (omega (arith, once)) in
        let more = available-give_back t.valid slot inside lent in
        record {
          valid = give_back-IsValid t.valid slot inside lent;
          balanced = omega (arith, t.balanced, shorter, more);
          traced = λ a. ground (
            arith,
            traced_set t (give_back p slot) slot 0 inside (same_slots_back slot)
                (λ i. get_or-set p.bytes slot i 0 0 stored) a,
            occurrences-strike (address_of p slot) a ledger,
            ap (λ k. occurrences k ledger),
            once,
          );
        }
