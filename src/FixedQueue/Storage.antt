-- ===== src/FixedQueue/Storage.antt =====
-- The elements of an array of bytes, and what a copy of one element leaves of them.
use native.Mathlib.Nat.{mul-le-mul_right}
use embedded_library.Prelude.{
  ℕ, suc, ◌+◌, ◌*◌, ◌≤◌, ◌<◌, ◌≡◌, ◌≢◌, ◌⊎◌, inl, inr, List, length, get_or, tabulate, tabulate_ext,
  arith,
}
use embedded_library.Fifo.{copy}
use embedded_library.Fifo.Copy.{get_or-copy, length-copy}

-- Element `slot` of an array of elements of `size` bytes.
abbrev pub element : ℕ → List ℕ → ℕ → List ℕ
element size bytes slot = tabulate size (λ j. get_or bytes (slot * size + j) 0)

sides : (slot other : ℕ) → other ≢ slot → (other < slot) ⊎ (slot < other)
sides slot other differ = ground (arith, differ)

apart :
    (size slot other : ℕ)
    → other ≢ slot
    → (other * size + size ≤ slot * size) ⊎ (slot * size + size ≤ other * size)
apart size slot other differ = elim (sides slot other differ) [
  | inl below ↦ inl (omega (arith, mul-le-mul_right {m = suc other} {n = slot} size below))
  | inr above ↦ inr (omega (arith, mul-le-mul_right {m = suc slot} {n = other} size above))
]

module _ (size : ℕ) (to from : List ℕ) (slot index : ℕ)
    (inside : slot * size + size ≤ length to) where
  abbrev copied : List ℕ
  copied = copy to (slot * size) from (index * size) size

  pub length-copied : length copied ≡ length to
  length-copied = length-copy to from (slot * size) (index * size) size

  pub element-copied_here : element size copied slot ≡ element size from index
  element-copied_here = tabulate_ext size _ _ (λ j h.
      ground
        (arith, h, get_or-copy to from (slot * size) (index * size) size (slot * size + j) inside))

  pub element-copied_other :
      (other : ℕ) → other ≢ slot → element size copied other ≡ element size to other
  element-copied_other other differ = tabulate_ext size _ _ (λ j h.
      let outside = apart size slot other differ in
      ground (
        arith,
        h,
        outside,
        get_or-copy to from (slot * size) (index * size) size (other * size + j) inside,
      ))
