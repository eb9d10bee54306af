-- ===== src/ByteOrder/Signed.antt =====
-- Signed values through their patterns in two's complement.
use embedded_library.Prelude.{
  ℕ, ◌-◌, ◌*◌, ◌%◌, ◌^◌, ◌≤◌, ◌<◌, ◌≡◌, refl, sym, ◌∙◌, ap, subst, ◌⊎◌, inl, inr, Bool, true, false,
  ltb, some, List, length, ℤ, pos, negsuc, arith,
}
use embedded_library.Foundation.{ok}
use embedded_library.ByteOrder.{signed_value, pattern_of, read_signed, write_signed, map_value}
use embedded_library.ByteOrder.Bytes.{AreBytes}
use embedded_library.ByteOrder.RoundTrip.{WritesAndReads, read-write_unsigned}

-- `-(2 ^ (width - 1)) ≤ value < 2 ^ (width - 1)`
abbrev pub IsSigned : ℕ → ℤ → Type 0
IsSigned width (pos n) = n < 2 ^ (width - 1)
IsSigned width (negsuc n) = n < 2 ^ (width - 1)

-- The widths that the callers pass, in bytes.
abbrev pub IsWidth : ℕ → Type 0
IsWidth width = (width ≡ 2) ⊎ ((width ≡ 4) ⊎ (width ≡ 8))

-- The pattern of a value fits the width, and the value comes back from it.
abbrev IsCarried : ℕ → ℤ → Type 0
IsCarried width value =
    (pattern_of width value < 2 ^ (width * 8))
    × (signed_value width (pattern_of width value) ≡ value)

two_bytes : (value : ℤ) → IsSigned 16 value → IsCarried 2 value
two_bytes (pos n) b =
    let low : ltb n (2 ^ 15) ≡ true = ground (arith, b) in
    let same : n % 2 ^ 16 ≡ n = omega (arith, b) in (omega (arith, b), rw (same, low) refl)
two_bytes (negsuc n) b =
    let bits = 2 ^ 16 - 1 - n in
    let high : ltb bits (2 ^ 15) ≡ false = ground (arith, b) in
    let same : bits % 2 ^ 16 ≡ bits = omega (arith, b) in
    let back : 2 ^ 16 - 1 - bits ≡ n = omega (arith, b) in
    (omega (arith, b), rw (same, high, back) refl)

four_bytes : (value : ℤ) → IsSigned 32 value → IsCarried 4 value
four_bytes (pos n) b =
    let low : ltb n (2 ^ 31) ≡ true = ground (arith, b) in
    let same : n % 2 ^ 32 ≡ n = omega (arith, b) in (omega (arith, b), rw (same, low) refl)
four_bytes (negsuc n) b =
    let bits = 2 ^ 32 - 1 - n in
    let high : ltb bits (2 ^ 31) ≡ false = ground (arith, b) in
    let same : bits % 2 ^ 32 ≡ bits = omega (arith, b) in
    let back : 2 ^ 32 - 1 - bits ≡ n = omega (arith, b) in
    (omega (arith, b), rw (same, high, back) refl)

eight_bytes : (value : ℤ) → IsSigned 64 value → IsCarried 8 value
eight_bytes (pos n) b =
    let low : ltb n (2 ^ 63) ≡ true = ground (arith, b) in
    let same : n % 2 ^ 64 ≡ n = omega (arith, b) in (omega (arith, b), rw low refl)
eight_bytes (negsuc n) b =
    let bits = 2 ^ 64 - 1 - n in
    let high : ltb bits (2 ^ 63) ≡ false = ground (arith, b) in
    let same : bits % 2 ^ 64 ≡ bits = omega (arith, b) in
    let back : 2 ^ 64 - 1 - bits ≡ n = omega (arith, b) in (omega (arith, b), rw (high, back) refl)

pattern_of-IsCarried :
    (width : ℕ) → IsWidth width → (value : ℤ) → IsSigned (width * 8) value → IsCarried width value
pattern_of-IsCarried width (inl e) value b =
    subst (λ w. IsSigned (w * 8) value → IsCarried w value) (sym e) (two_bytes value) b
pattern_of-IsCarried width (inr (inl e)) value b =
    subst (λ w. IsSigned (w * 8) value → IsCarried w value) (sym e) (four_bytes value) b
pattern_of-IsCarried width (inr (inr e)) value b =
    subst (λ w. IsSigned (w * 8) value → IsCarried w value) (sym e) (eight_bytes value) b

-- For a width of 2, 4 or 8, an array of at least that many bytes and a signed value that fits the width,
-- in either order: byte_order_write_signed returns OK and changes only the first bytes of the array,
-- and byte_order_read_signed returns OK and the value from it.
pub read-write_signed :
    (bytes : List ℕ) (size width : ℕ) (big_endian : Bool) (value : ℤ)
    → AreBytes bytes
    → IsWidth width
    → width ≤ size
    → size ≤ length bytes
    → IsSigned (width * 8) value
    → WritesAndReads bytes width
        (write_signed (some bytes) size width big_endian (some value))
        (λ b. read_signed (some b) size width big_endian false)
        (ok, some value)
unfolding write_signed read_signed
read-write_signed bytes size width big_endian value are_bytes w fits holds bound =
    let small : width ≤ 8 = ground (arith, w) in
    let (pattern_fits, comes_back) = pattern_of-IsCarried width w value bound in
    let (bytes', written, same, kept, answer) =
      read-write_unsigned bytes size width big_endian (pattern_of width value) are_bytes small fits
        holds pattern_fits in
    (
      bytes',
      written,
      same,
      kept,
      ap (λ r. map_value r width) answer ∙ ap (λ v. (ok, some v)) comes_back,
    )
