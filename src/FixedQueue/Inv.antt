-- ===== src/FixedQueue/Inv.antt =====
-- The invariant of a queue, its elements, and what one round of either loop does to them.
use native.Mathlib.Nat.{mul-le-mul_right}
use embedded_library.Prelude.{
  ℕ, zero, suc, ◌+◌, ◌-◌, ◌*◌, ◌/◌, ◌≤◌, ◌<◌, ◌≡◌, ◌≢◌, sym, ◌∙◌, ap, ap₂, size_max, some, List, [],
  ◌∷◌, ◌++◌, length, tabulate, tabulate_ext, tabulate-add, length-tabulate, arith,
}
use embedded_library.Foundation.{ok}
use embedded_library.FixedQueue.{FixedQueue, advance, check, stored, fetched}
use embedded_library.FixedQueue.Storage.{
  element, length-copied, element-copied_here, element-copied_other,
}

pub record IsValid (q : FixedQueue) : Type 0 where
  pub storage_set : 0 < q.storage
  pub sized : 0 < q.element_size
  pub slots : 0 < q.capacity
  pub fits : q.capacity ≤ size_max / q.element_size
  pub holds : q.capacity * q.element_size ≤ length q.bytes
  pub size_in : q.size ≤ q.capacity
  pub head_in : q.head < q.capacity
  pub bounded : q.rejected_count ≤ size_max

pub check-ok : {q : FixedQueue} → IsValid q → check (some q) ≡ ok
unfolding check
check-ok v = ground (arith, v.storage_set, v.sized, v.slots, v.fits, v.size_in, v.head_in)

-- The elements held, oldest first.
abbrev pub nth : FixedQueue → ℕ → List ℕ
nth q i = element q.element_size q.bytes (advance q.head i q.capacity)

unfoldable pub contents : FixedQueue → List (List ℕ)
contents q = tabulate q.size (nth q)

tabulate-first {ℓ} :
    {A : Type ℓ} (n : ℕ) (f : ℕ → A)
    → 0 < n
    → tabulate n f ≡ f 0 ∷ tabulate (n - 1) (λ i. f (suc i))
tabulate-first zero f h = absurd (omega (arith, h))
tabulate-first (suc n) f h =
    let same : n ≡ suc n - 1 = omega arith in ap (λ m. f 0 ∷ tabulate m (λ i. f (suc i))) same

pub length-contents : (q : FixedQueue) → length (contents q) ≡ q.size
unfolding contents
length-contents q = length-tabulate q.size (nth q)

module _ {q : FixedQueue} (v : IsValid q) where
  advance_in : (i : ℕ) → i < q.capacity → advance q.head i q.capacity < q.capacity
  unfolding advance
  advance_in i h = ground (arith, h, v.head_in)

  within : (slot : ℕ) → slot < q.capacity → slot * q.element_size + q.element_size ≤ length q.bytes
  within slot h =
      omega (arith, v.holds, mul-le-mul_right {m = suc slot} {n = q.capacity} q.element_size h)

  advance_differs :
      (i j : ℕ) → i < j → j < q.capacity → advance q.head i q.capacity ≢ advance q.head j q.capacity
  unfolding advance
  advance_differs i j h b e = ground (arith, h, b, e, v.head_in)

  advance_none : advance q.head 0 q.capacity ≡ q.head
  unfolding advance
  advance_none = ground (arith, v.head_in)

  advance_more :
      (i : ℕ)
      → suc i < q.capacity
      → advance q.head (suc i) q.capacity ≡ advance (advance q.head 1 q.capacity) i q.capacity
  unfolding advance
  advance_more i h = ground (arith, h, v.head_in)

  module _ (input : List ℕ) (index : ℕ) (room : q.size < q.capacity) where
    abbrev last : ℕ
    last = advance q.head q.size q.capacity

    pub stored-IsValid : IsValid (stored q input index)
    stored-IsValid = record {
      storage_set = v.storage_set;
      sized = v.sized;
      slots = v.slots;
      fits = v.fits;
      holds = omega (
        arith,
        v.holds,
        length-copied q.element_size q.bytes input last index
            (within last (advance_in q.size room)),
      );
      size_in = room;
      head_in = v.head_in;
      bounded = v.bounded;
    }

    pub contents-stored :
        contents (stored q input index) ≡ contents q ++ (element q.element_size input index ∷ [])
    unfolding contents
    contents-stored =
        let slot_in = within last (advance_in q.size room) in
        let after = nth (stored q input index) in
        let one_more : suc q.size ≡ q.size + 1 = omega arith in
        let here : q.size + 0 ≡ q.size = omega arith in
        ap (λ n. tabulate n after) one_more
        ∙ sym (tabulate-add q.size 1 after)
        ∙ ap₂ (λ l x. l ++ (x ∷ []))
            (tabulate_ext q.size after (nth q) (λ i h.
              element-copied_other q.element_size q.bytes input last index slot_in
                (advance q.head i q.capacity) (advance_differs i q.size h room)))
            (ap after here ∙ element-copied_here q.element_size q.bytes input last index slot_in)

  module _ (some_left : 0 < q.size) where
    pub fetched-IsValid : IsValid (fetched q)
    unfolding advance
    fetched-IsValid = record {
      storage_set = v.storage_set;
      sized = v.sized;
      slots = v.slots;
      fits = v.fits;
      holds = v.holds;
      size_in = omega (arith, v.size_in);
      head_in = ground (arith, v.head_in, v.slots);
      bounded = v.bounded;
    }

    pub contents-fetched : contents q ≡ element q.element_size q.bytes q.head ∷ contents (fetched q)
    unfolding contents
    contents-fetched =
        tabulate-first q.size (nth q) some_left
        ∙ ap₂ (λ x l. x ∷ l) (ap (element q.element_size q.bytes) advance_none)
            (tabulate_ext (q.size - 1) (λ i. nth q (suc i)) (nth (fetched q))
              (λ i h.
                ap (element q.element_size q.bytes) (advance_more i (omega (arith, h, v.size_in)))))
