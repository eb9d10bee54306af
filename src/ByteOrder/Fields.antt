-- ===== src/ByteOrder/Fields.antt =====
-- `|` of a number and a multiple of a power of two above it is their sum.
use Prim.Native.Nat.{max, digits, bit_or, bit_or-bitwise}
use mathlib.Core.Path.{ap}
use native.Mathlib.Nat.{pow-suc}
use embedded_library.Prelude.{
  ℕ, zero, suc, ◌+◌, ◌*◌, ◌/◌, ◌%◌, ◌^◌, ◌≤◌, ◌<◌, ◌≡◌, refl, arith, ◌∙◌,
}

-- The multiple comes first.
digits_high :
    (n a k q r : ℕ) → a ≡ q * 2 ^ k → a ≤ n → r < 2 ^ k → digits (λ b. b) max n a r ≡ a + r
digits_high zero zero k q r e l b = omega arith
digits_high zero (suc a) k q r e l b = absurd (omega (arith, l))
digits_high (suc n) zero k q r e l b = omega arith
digits_high (suc n) (suc a) zero q r e l b =
    let rest =
      digits_high n (suc a / 2) 0 (suc a / 2) (r / 2) (omega arith) (omega (arith, l))
        (omega (arith, b)) in
    ground (arith, rest, b)
digits_high (suc n) (suc a) (suc k) q r e l b =
    let double = ap (λ (t : ℕ). q * t) (pow-suc 2 k) in
    let half : suc a / 2 ≡ q * 2 ^ k = omega (arith, e, double) in
    let even : suc a % 2 ≡ 0 = omega (arith, e, double) in
    let rest =
      digits_high n (suc a / 2) k q (r / 2) half (omega (arith, l))
        (omega (arith, b, pow-suc 2 k)) in
    ground (arith, rest, even)

-- The multiple comes second.
digits_low : (n r k q c : ℕ) → c ≡ q * 2 ^ k → r ≤ n → r < 2 ^ k → digits (λ b. b) max n r c ≡ r + c
digits_low zero zero k q c e l b = omega arith
digits_low zero (suc r) k q c e l b = absurd (omega (arith, l))
digits_low (suc n) zero k q c e l b = omega arith
digits_low (suc n) (suc r) zero q c e l b = absurd (omega (arith, b))
digits_low (suc n) (suc r) (suc k) q c e l b =
    let double = ap (λ (t : ℕ). q * t) (pow-suc 2 k) in
    let half : c / 2 ≡ q * 2 ^ k = omega (arith, e, double) in
    let even : c % 2 ≡ 0 = omega (arith, e, double) in
    let rest =
      digits_low n (suc r / 2) k q (c / 2) half (omega (arith, l))
        (omega (arith, b, pow-suc 2 k)) in
    ground (arith, rest, even)

pub bit_or_high : (k q r : ℕ) → r < 2 ^ k → bit_or (q * 2 ^ k) r ≡ q * 2 ^ k + r
bit_or_high k q r b =
    let digit_by_digit : bit_or (q * 2 ^ k) r ≡ digits (λ b. b) max (q * 2 ^ k) (q * 2 ^ k) r =
      bit_or-bitwise (q * 2 ^ k) r in
    digit_by_digit ∙ digits_high (q * 2 ^ k) (q * 2 ^ k) k q r refl (omega arith) b

pub bit_or_low : (k q r : ℕ) → r < 2 ^ k → bit_or r (q * 2 ^ k) ≡ r + q * 2 ^ k
bit_or_low k q r b =
    let digit_by_digit : bit_or r (q * 2 ^ k) ≡ digits (λ b. b) max r r (q * 2 ^ k) =
      bit_or-bitwise r (q * 2 ^ k) in
    digit_by_digit ∙ digits_low r r k q (q * 2 ^ k) refl (omega arith) b
