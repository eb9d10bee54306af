-- ===== src/Pool/Inv.antt =====
-- The invariant of an initialised pool, and that its operations keep it.
use embedded_library.Prelude.{
  ℕ, zero, suc, ◌/◌, ◌≤◌, ◌<◌, ◌≡◌, ◌⊎◌, inl, inr, refl, sym, ap, ◌==◌, if◌then◌else◌, if_elim, ltb,
  size_max, some, List, [], ◌∷◌, length, length-set, get_or, set, get_or-set, arith,
}
use native.Mathlib.Nat.{div-le_self}
use embedded_library.Foundation.{ok}
use embedded_library.Pool.{
  Pool, PoolConfig, check, lend, give_back, exhausted, new_pool, clear_states,
}
use embedded_library.Pool.Slots.{
  next_free-IsFirstFree, free_slots, free_slots-le, free_slots_lent, free_slots_all, free_slots-set,
}

abbrev pub state_of : Pool → ℕ → ℕ
state_of p slot = get_or p.bytes slot 0

pub record IsValid (p : Pool) : Type 0 where
  pub storage_set : 0 < p.storage
  pub states_set : 0 < p.states
  pub sized : 0 < p.slot_size
  pub slots : 0 < p.capacity
  pub fits : p.capacity ≤ size_max / p.slot_size
  pub small : p.capacity ≤ size_max
  pub holds : p.capacity ≤ length p.bytes
  pub bits : (i : ℕ) → i < p.capacity → state_of p i < 2
  pub counted : p.available ≡ free_slots p.capacity p.bytes
  pub low : p.lowest_free_index ≤ p.capacity
  pub lent_below : (i : ℕ) → i < p.lowest_free_index → state_of p i ≡ 1
  pub free_at : p.lowest_free_index < p.capacity → state_of p p.lowest_free_index ≡ 0

module _ {p : Pool} (v : IsValid p) where
  pub available-le : p.available ≤ p.capacity
  available-le = omega (arith, v.counted, free_slots-le p.capacity p.bytes)

  pub check-ok : check (some p) ≡ ok
  unfolding check
  check-ok =
      ground (arith, v.storage_set, v.states_set, v.sized, v.slots, v.fits, v.low, available-le)

  -- A pool with a free slot has its lowest free index below the capacity.
  pub lowest_in : 0 < p.available → p.lowest_free_index < p.capacity
  lowest_in some_left = elim (lowest_cases) [
    | inl inside ↦ inside
    | inr e ↦
        let none_free =
          free_slots_lent p.capacity p.bytes (λ i h. v.lent_below i (omega (arith, h, e))) in
        absurd (omega (arith, none_free, v.counted, some_left))
  ]
    where
      lowest_cases : (p.lowest_free_index < p.capacity) ⊎ (p.lowest_free_index ≡ p.capacity)
      lowest_cases = ground (arith, v.low)

  pub exhausted-IsValid : IsValid (exhausted p)
  exhausted-IsValid =
      if_elim IsValid (ltb p.exhausted_count size_max)
        (λ _. record {
          storage_set = v.storage_set;
          states_set = v.states_set;
          sized = v.sized;
          slots = v.slots;
          fits = v.fits;
          small = v.small;
          holds = v.holds;
          bits = v.bits;
          counted = v.counted;
          low = v.low;
          lent_below = v.lent_below;
          free_at = v.free_at;
        })
        (λ _. v)

  pub lend-IsValid : 0 < p.available → IsValid (lend p)
  lend-IsValid some_left =
      let inside = lowest_in some_left in
      let slot = p.lowest_free_index in
      let was_free = v.free_at inside in
      let stored : slot < length p.bytes = omega (arith, inside, v.holds) in
      let next =
        next_free-IsFirstFree p.capacity p.bytes p.capacity (suc slot) (omega (arith, inside))
          (omega arith) in
      let after : (i : ℕ) → state_of (lend p) i ≡ (if slot == i then 1 else state_of p i) =
        λ i. get_or-set p.bytes slot i 1 0 stored in
      let count = free_slots-set p.capacity p.bytes slot 1 stored inside in
      record {
        storage_set = v.storage_set;
        states_set = v.states_set;
        sized = v.sized;
        slots = v.slots;
        fits = v.fits;
        small = v.small;
        holds = omega (arith, v.holds, length-set p.bytes slot 1);
        bits = λ i h. ground (arith, after i, v.bits i h);
        counted = ground (arith, count, was_free, v.counted);
        low = next.within;
        lent_below = λ i h.
            ground (
              arith,
              after i,
              v.lent_below i,
              next.lent i,
              v.bits i (omega (arith, h, next.within)),
            );
        free_at = λ h. ground (arith, after (lend p).lowest_free_index, next.free h, next.from);
      }

  module _ (slot : ℕ) (inside : slot < p.capacity) (lent : state_of p slot ≡ 1) where
    stored : slot < length p.bytes
    stored = omega (arith, inside, v.holds)

    count-give_back :
        free_slots p.capacity (set p.bytes slot 0) ≡ suc (free_slots p.capacity p.bytes)
    count-give_back = ground (arith, lent, free_slots-set p.capacity p.bytes slot 0 stored inside)

    pub available-give_back : (give_back p slot).available ≡ suc p.available
    available-give_back =
        let most = free_slots-le p.capacity (set p.bytes slot 0) in
        omega (arith, most, count-give_back, v.counted, v.small)

    pub give_back-IsValid : IsValid (give_back p slot)
    give_back-IsValid =
        let after : (i : ℕ)
            → state_of (give_back p slot) i ≡ (if slot == i then 0 else state_of p i) =
          λ i. get_or-set p.bytes slot i 0 0 stored in
        record {
          storage_set = v.storage_set;
          states_set = v.states_set;
          sized = v.sized;
          slots = v.slots;
          fits = v.fits;
          small = v.small;
          holds = omega (arith, v.holds, length-set p.bytes slot 0);
          bits = λ i h. ground (arith, after i, v.bits i h);
          counted = omega (arith, available-give_back, count-give_back, v.counted);
          low = ground (arith, v.low, inside);
          lent_below = λ i h. ground (arith, after i, v.lent_below i);
          free_at = λ h. ground (arith, after (give_back p slot).lowest_free_index, v.free_at);
        }

pub length-clear_states :
    (count : ℕ) (bytes : List ℕ) → length (clear_states count bytes) ≡ length bytes
unfolding clear_states
length-clear_states zero bytes = refl
length-clear_states (suc count) [] = refl
length-clear_states (suc count) (b ∷ bytes) = ap suc (length-clear_states count bytes)

pub get_or-clear_states :
    (count : ℕ) (bytes : List ℕ) (i : ℕ) → i < count → get_or (clear_states count bytes) i 0 ≡ 0
unfolding clear_states
get_or-clear_states zero bytes i h = absurd (omega (arith, h))
get_or-clear_states (suc count) [] i h = refl
get_or-clear_states (suc count) (b ∷ bytes) zero h = refl
get_or-clear_states (suc count) (b ∷ bytes) (suc i) h =
    get_or-clear_states count bytes i (omega (arith, h))

pub new_pool-IsValid :
    (c : PoolConfig)
    → 0 < c.storage
    → 0 < c.states
    → 0 < c.slot_size
    → 0 < c.capacity
    → c.capacity ≤ size_max / c.slot_size
    → c.capacity ≤ length c.bytes
    → IsValid (new_pool c)
new_pool-IsValid c storage_set states_set sized slots fits holds =
    let clear = get_or-clear_states c.capacity c.bytes in
    record {
      storage_set = storage_set;
      states_set = states_set;
      sized = sized;
      slots = slots;
      fits = fits;
      small = omega (arith, fits, div-le_self size_max c.slot_size);
      holds = omega (arith, holds, length-clear_states c.capacity c.bytes);
      bits = λ i h. omega (arith, clear i h);
      counted = sym (free_slots_all c.capacity (clear_states c.capacity c.bytes) clear);
      low = omega arith;
      lent_below = λ i h. absurd (omega (arith, h));
      free_at = clear 0;
    }
