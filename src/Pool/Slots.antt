-- ===== src/Pool/Slots.antt =====
-- The slots of a pool: how many are free, the first free one, and the address of each.
use embedded_library.Prelude.{
  ℕ, zero, suc, ◌+◌, ◌-◌, ◌*◌, ◌/◌, ◌%◌, ◌≤◌, ◌<◌, ◌≡◌, ◌⊎◌, inl, inr, refl, sym, ◌∙◌, ap, subst,
  false, not, ◌&&◌, ◌||◌, ◌==◌, if◌then◌else◌, ltb, leb, if_elim, Option, none, some, List, length,
  get_or, set, get_or-set, arith,
}
use native.Mathlib.Nat.{
  mul-div_cancel, div-add-mod', mul-mod_left, mul-lt-mul_of_pos_right, div-lt_iff_lt-mul,
}
use mathlib.Core.Option.{some-injective}
use Prim.{Unit, tt}
use embedded_library.Pool.{Pool, next_free}

abbrev pub is_free : ℕ → ℕ
is_free state = if state == 0 then 1 else 0

-- The number of free slots among the first `count`.
unfoldable pub free_slots : ℕ → List ℕ → ℕ
free_slots zero bytes = 0
free_slots (suc count) bytes = is_free (get_or bytes count 0) + free_slots count bytes

pub free_slots-le : (count : ℕ) (bytes : List ℕ) → free_slots count bytes ≤ count
unfolding free_slots
free_slots-le zero bytes = omega arith
free_slots-le (suc count) bytes = ground (arith, free_slots-le count bytes)

pub free_slots_lent :
    (count : ℕ) (bytes : List ℕ)
    → ((i : ℕ) → i < count → get_or bytes i 0 ≡ 1)
    → free_slots count bytes ≡ 0
unfolding free_slots
free_slots_lent zero bytes all = refl
free_slots_lent (suc count) bytes all =
    let here = all count (omega arith) in
    let below = free_slots_lent count bytes (λ i h. all i (omega arith)) in
    ground (arith, here, below)

pub free_slots_all :
    (count : ℕ) (bytes : List ℕ)
    → ((i : ℕ) → i < count → get_or bytes i 0 ≡ 0)
    → free_slots count bytes ≡ count
unfolding free_slots
free_slots_all zero bytes all = refl
free_slots_all (suc count) bytes all =
    let here = all count (omega arith) in
    let below = free_slots_all count bytes (λ i h. all i (omega arith)) in
    ground (arith, here, below)

free_slots-set_past :
    (count : ℕ) (bytes : List ℕ) (slot state : ℕ)
    → slot < length bytes
    → count ≤ slot
    → free_slots count (set bytes slot state) ≡ free_slots count bytes
unfolding free_slots
free_slots-set_past zero bytes slot state inside h = refl
free_slots-set_past (suc count) bytes slot state inside h =
    let here = get_or-set bytes slot count state 0 inside in
    let below = free_slots-set_past count bytes slot state inside (omega arith) in
    ground (arith, here, below)

pub free_slots-set :
    (count : ℕ) (bytes : List ℕ) (slot state : ℕ)
    → slot < length bytes
    → slot < count
    → free_slots count (set bytes slot state) + is_free (get_or bytes slot 0)
      ≡ free_slots count bytes + is_free state
unfolding free_slots
free_slots-set zero bytes slot state inside h = absurd (omega arith)
free_slots-set (suc count) bytes slot state inside h = ground (
  arith,
  get_or-set bytes slot count state 0 inside,
  ap (λ i. get_or bytes i 0),
  free_slots-set count bytes slot state inside,
  free_slots-set_past count bytes slot state inside,
)

-- `r` is the first index from `next` on whose slot is free, or the capacity.
pub record IsFirstFree (bytes : List ℕ) (capacity next r : ℕ) : Type 0 where
  pub from : next ≤ r
  pub within : r ≤ capacity
  pub lent : (i : ℕ) → next ≤ i → i < r → 0 < get_or bytes i 0
  pub free : r < capacity → get_or bytes r 0 ≡ 0

Nat-split : (m n : ℕ) → m ≤ n → (m ≡ n) ⊎ (m < n)
Nat-split m n h = ground (arith, h)

pub next_free-IsFirstFree :
    (fuel : ℕ) (bytes : List ℕ) (capacity next : ℕ)
    → next ≤ capacity
    → capacity ≤ next + fuel
    → IsFirstFree bytes capacity next (next_free fuel bytes capacity next)
unfolding next_free
next_free-IsFirstFree zero bytes capacity next low enough = record {
  from = omega arith;
  within = low;
  lent = λ i h g. absurd (omega (arith, h, g));
  free = λ h. absurd (omega (arith, h, enough));
}
next_free-IsFirstFree (suc fuel) bytes capacity next low enough =
    let rest = next_free fuel bytes capacity (suc next) in
    if_elim (λ r. IsFirstFree bytes capacity next r)
      (ltb next capacity && not (get_or bytes next 0 == 0))
      (λ busy-eq.
        let below : next < capacity = ground (arith, busy-eq) in
        let here : 0 < get_or bytes next 0 = ground (arith, busy-eq) in
        let later : IsFirstFree bytes capacity (suc next) rest =
          next_free-IsFirstFree fuel bytes capacity (suc next) (omega (arith, below))
            (omega (arith, enough)) in
        record {
          from = omega (arith, later.from);
          within = later.within;
          lent = λ i h g. elim (Nat-split next i h) [
            | inl e ↦ subst (λ k. 0 < get_or bytes k 0) e here
            | inr b ↦ later.lent i b g
          ];
          free = later.free;
        })
      (λ free-eq. record {
        from = omega arith;
        within = low;
        lent = λ i h g. absurd (omega (arith, h, g));
        free = λ h. ground (arith, free-eq, h);
      })

-- The slot that starts at an address.
unfoldable pub slot_of : Pool → ℕ → Option ℕ
slot_of pool address =
    let offset = address - pool.storage in
    if address == 0
      || ltb address pool.storage
      || leb (pool.capacity * pool.slot_size) offset
      || not (offset % pool.slot_size == 0)
    then none
    else some (offset / pool.slot_size)

abbrev pub address_of : Pool → ℕ → ℕ
address_of pool slot = pool.storage + slot * pool.slot_size

module _ (pool : Pool) (sized : 0 < pool.slot_size) where
  pub slot_of-address_of :
      (slot : ℕ)
      → 0 < pool.storage
      → slot < pool.capacity
      → slot_of pool (address_of pool slot) ≡ some slot
  unfolding slot_of
  slot_of-address_of slot set_up inside =
      let offset : address_of pool slot - pool.storage ≡ slot * pool.slot_size = omega arith in
      let index = mul-div_cancel slot sized in
      let aligned = mul-mod_left slot pool.slot_size in
      let below : slot * pool.slot_size < pool.capacity * pool.slot_size =
        mul-lt-mul_of_pos_right inside sized in
      let some_pointer : (address_of pool slot == 0) ≡ false = ground (arith, set_up) in
      let not_below : ltb (address_of pool slot) pool.storage ≡ false = ground arith in
      let in_range : leb (pool.capacity * pool.slot_size) (slot * pool.slot_size) ≡ false =
        ground (arith, below) in
      simp (offset, index, aligned, some_pointer, not_below, in_range)

  abbrev IsSlotAt : ℕ → Option ℕ → Type 0
  IsSlotAt address none = Unit {0}
  IsSlotAt address (some slot) = (slot < pool.capacity) × (address ≡ address_of pool slot)

  slot_of-IsSlotAt : (address : ℕ) → IsSlotAt address (slot_of pool address)
  unfolding slot_of
  slot_of-IsSlotAt address =
      let offset = address - pool.storage in
      if_elim (IsSlotAt address)
        (address == 0
          || ltb address pool.storage
          || leb (pool.capacity * pool.slot_size) offset
          || not (offset % pool.slot_size == 0))
        (λ _. tt)
        (λ accepted.
          let above : pool.storage ≤ address = ground (arith, accepted) in
          let aligned : offset % pool.slot_size ≡ 0 = ground (arith, accepted) in
          let below : offset < pool.capacity * pool.slot_size = ground (arith, accepted) in
          let whole = div-add-mod' offset pool.slot_size in
          ((div-lt_iff_lt-mul sized).1 below, omega (arith, whole, aligned, above)))

  pub slot_of_lem :
      (address slot : ℕ)
      → slot_of pool address ≡ some slot
      → (slot < pool.capacity) × (address ≡ address_of pool slot)
  slot_of_lem address slot e = subst (IsSlotAt address) e (slot_of-IsSlotAt address)

  -- Two slots of one address are one.
  pub address_of-injective :
      (i j : ℕ)
      → 0 < pool.storage
      → i < pool.capacity
      → j < pool.capacity
      → address_of pool i ≡ address_of pool j
      → i ≡ j
  address_of-injective i j set_up inside_i inside_j e = some-injective i j (
      sym (slot_of-address_of i set_up inside_i)
      ∙ ap (slot_of pool) e
      ∙ slot_of-address_of j set_up inside_j)
