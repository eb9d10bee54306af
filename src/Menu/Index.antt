-- ===== src/Menu/Index.antt =====
-- mizu_menu_move_index: the cursor moves around the list in both directions.
use embedded_library.Prelude.{
  ℕ, suc, ◌+◌, ◌-◌, ◌*◌, ◌/◌, ◌%◌, ◌^◌, ◌<◌, ◌≡◌, sym, ◌∙◌, ◌⊎◌, inl, inr, ltb, if◌then◌else◌, ℤ,
  pos, negsuc, pos_part, neg_part, arith,
}
use native.Mathlib.Nat.{mod-lt, div-add-mod'}
use embedded_library.Parameter.{u32_mod, sub_u32, is_negative}

unfoldable pub move_up : ℕ → ℕ → ℕ → ℕ
move_up index count delta =
    if ltb (sub_u32 (sub_u32 count index) 1) delta
    then sub_u32 index (sub_u32 count delta)
    else (index + delta) % u32_mod

unfoldable pub move_down : ℕ → ℕ → ℕ → ℕ
move_down index count delta =
    if ltb index delta then sub_u32 count (sub_u32 delta index) else sub_u32 index delta

unfoldable pub move_index : ℕ → ℕ → ℤ → ℕ
move_index index count amount =
    if is_negative amount
    then move_down index count (neg_part amount % count)
    else move_up index count (pos_part amount % count)

move_up_lem :
    (index count delta : ℕ)
    → index < count
    → count < 2 ^ 32
    → delta < count
    → move_up index count delta
      ≡ (if ltb (index + delta) count then index + delta else index + delta - count)
unfolding move_up
move_up_lem index count delta l b d = ground arith

move_down_lem :
    (index count delta : ℕ)
    → index < count
    → count < 2 ^ 32
    → delta < count
    → move_down index count delta
      ≡ (if ltb index delta then index + count - delta else index - delta)
unfolding move_down
move_down_lem index count delta l b d = ground arith

-- The remainder of n by a divisor that is not 0, with the multiple of the divisor that it leaves off.
remainder : (n count : ℕ) → 0 < count → (q : ℕ) × (n ≡ q * count + n % count) × (n % count < count)
remainder n count p = (n / count, sym (div-add-mod' n count), mod-lt n p)

up_cases :
    (index count delta r : ℕ)
    → index < count
    → delta < count
    → r ≡ (if ltb (index + delta) count then index + delta else index + delta - count)
    → (r < count) × ((index + delta ≡ r) ⊎ (index + delta ≡ r + count))
up_cases index count delta r l d e = (ground arith, ground arith)

down_cases :
    (index count delta r : ℕ)
    → index < count
    → delta < count
    → r ≡ (if ltb index delta then index + count - delta else index - delta)
    → (r < count) × ((index ≡ r + delta) ⊎ (index + count ≡ r + delta))
down_cases index count delta r l d e = (ground arith, ground arith)

-- The index plus the amount and `r` differ by a multiple of the count.
abbrev pub IsCongruent : ℕ → ℕ → ℤ → ℕ → Type 0
IsCongruent index count amount r =
    (a : ℕ) × (b : ℕ) × (index + pos_part amount + a * count ≡ r + neg_part amount + b * count)

IsCongruent-up :
    (index count n delta r q : ℕ)
    → n ≡ q * count + delta
    → (index + delta ≡ r) ⊎ (index + delta ≡ r + count)
    → IsCongruent index count (pos n) r
IsCongruent-up index count n delta r q e (inl h) = (0, q, omega (arith, e, h))
IsCongruent-up index count n delta r q e (inr h) = (0, suc q, omega (arith, e, h))

IsCongruent-down :
    (index count n delta r q : ℕ)
    → suc n ≡ q * count + delta
    → (index ≡ r + delta) ⊎ (index + count ≡ r + delta)
    → IsCongruent index count (negsuc n) r
IsCongruent-down index count n delta r q e (inl h) = (q, 0, omega (arith, e, h))
IsCongruent-down index count n delta r q e (inr h) = (suc q, 0, omega (arith, e, h))

move_index-pos :
    (index count n : ℕ) → move_index index count (pos n) ≡ move_up index count (n % count)
unfolding move_index
move_index-pos index count n = ground arith

move_index-negsuc :
    (index count n : ℕ) → move_index index count (negsuc n) ≡ move_down index count (suc n % count)
unfolding move_index
move_index-negsuc index count n = ground arith

-- On a list of fewer than 2^32 entries, mizu_menu_move_index takes an index of the list by any amount to
-- an index of the list, which is the index plus the amount, modulo the number of the entries.
pub move_index_lem :
    (index count : ℕ) (amount : ℤ)
    → index < count
    → count < 2 ^ 32
    → (move_index index count amount < count)
      × IsCongruent index count amount (move_index index count amount)
move_index_lem index count (pos n) l b =
    let (q, e, small) = remainder n count (omega arith) in
    let up = move_index-pos index count n ∙ move_up_lem index count (n % count) l b small in
    let (bound, split) = up_cases index count (n % count) _ l small up in
    (bound, IsCongruent-up index count n (n % count) _ q e split)
move_index_lem index count (negsuc n) l b =
    let (q, e, small) = remainder (suc n) count (omega arith) in
    let down =
      move_index-negsuc index count n ∙ move_down_lem index count (suc n % count) l b small in
    let (bound, split) = down_cases index count (suc n % count) _ l small down in
    (bound, IsCongruent-down index count n (suc n % count) _ q e split)
