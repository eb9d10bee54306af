-- ===== src/ByteOrder/RoundTrip.antt =====
-- What the bytes written for a number are worth, and reading them back.
use native.Mathlib.Nat.{
  one-le-pow, mod-eq_of_lt, mod-lt, div-add-mod, div-div-eq-div-mul, mul-le-mul_left,
  mul-add-mod_self_left,
}
use embedded_library.Prelude.{
  ℕ, zero, suc, ◌+◌, ◌-◌, ◌*◌, ◌/◌, ◌%◌, ◌^◌, ◌≤◌, ◌<◌, ◌≡◌, refl, ◌∙◌, ap, Bool, true, false,
  if◌then◌else◌, ltb, Option, some, List, length, get_or, arith,
}
use embedded_library.ByteOrder.{read_loop, write_loop, read_unsigned, write_unsigned}
use embedded_library.Foundation.{Foundation, ok}
use embedded_library.ByteOrder.Bytes.{
  little_value, big_value, value_of, AreBytes, scale-suc, get_or-write_loop, length-write_loop,
  read_loop-little, read_loop-big, byte_of,
}

-- The remainder by a product: the digit below, and the remainder of the rest.
mod-product : (x a b : ℕ) → 0 < a → 0 < b → x % (a * b) ≡ x % a + a * (x / a % b)
mod-product x a b some_a some_b =
    let q = x / a in
    let t = q % b in
    let whole = div-add-mod x a in
    let parts = div-add-mod q b in
    let scaled = ap (λ y. a * y) parts in
    let below = mod-lt x some_a in
    let top = mul-le-mul_left {m = suc t} {n = b} a (mod-lt q some_b) in
    let x_is : x ≡ a * b * (q / b) + (x % a + a * t) = omega (arith, whole, scaled) in
    let remainder = mul-add-mod_self_left (a * b) (q / b) (x % a + a * t) in
    ap (λ y. y % (a * b)) x_is ∙ remainder ∙ mod-eq_of_lt (omega (arith, below, top))

scale-pos : (n : ℕ) → 0 < 2 ^ (n * 8)
scale-pos n = one-le-pow (n * 8) 2 (omega arith)

little_value_lem :
    (bytes : List ℕ) (value : ℕ) (count index : ℕ)
    → ((i : ℕ) → index ≤ i → i < index + count → get_or bytes i 0 ≡ value / 2 ^ (i * 8) % 256)
    → little_value count bytes index ≡ value / 2 ^ (index * 8) % 2 ^ (count * 8)
unfolding little_value
little_value_lem bytes value zero index stored = omega arith
little_value_lem bytes value (suc count) index stored =
    let here = stored index (omega arith) (omega arith) in
    let rest =
      little_value_lem bytes value count (suc index)
        (λ i l b. stored i (omega (arith, l)) (omega (arith, b))) in
    let x = value / 2 ^ (index * 8) in
    let next : x / 256 ≡ value / 2 ^ (suc index * 8) =
      div-div-eq-div-mul value (2 ^ (index * 8)) 256
      ∙ ap (λ m. value / m)
          (let e : 2 ^ (index * 8) * 256 ≡ 2 ^ (suc index * 8) = omega (arith, scale-suc index) in
            e) in
    let split = mod-product x 256 (2 ^ (count * 8)) (omega arith) (scale-pos count) in
    rw (scale-suc count) (rw (split, next, here, rest) refl)

big_value_lem :
    (bytes : List ℕ) (value width : ℕ) (count index above : ℕ)
    → index + count ≡ width
    → ((i : ℕ) → index ≤ i → i < width → get_or bytes i 0 ≡ value / 2 ^ ((width - 1 - i) * 8) % 256)
    → big_value count bytes index above ≡ above * 2 ^ (count * 8) + value % 2 ^ (count * 8)
unfolding big_value
big_value_lem bytes value width zero index above e stored = omega arith
big_value_lem bytes value width (suc count) index above e stored =
    let place : width - 1 - index ≡ count = omega (arith, e) in
    let here : get_or bytes index 0 ≡ value / 2 ^ (count * 8) % 256 =
      stored index (omega arith) (omega (arith, e)) ∙ ap (λ k. value / 2 ^ (k * 8) % 256) place in
    let rest =
      big_value_lem bytes value width count (suc index) (above * 256 + get_or bytes index 0)
        (omega (arith, e)) (λ i l b. stored i (omega (arith, l)) b) in
    let scale : 2 ^ (suc count * 8) ≡ 2 ^ (count * 8) * 256 = omega (arith, scale-suc count) in
    let split = mod-product value (2 ^ (count * 8)) 256 (scale-pos count) (omega arith) in
    let scaled = ap (λ t. t * 2 ^ (count * 8)) here in
    rw scale (rw (split, rest) (omega (arith, scaled)))

module _ (bytes : List ℕ) (width : ℕ) (big_endian : Bool) (value : ℕ)
    (fits : width ≤ length bytes) where
  abbrev written : List ℕ
  written = write_loop width bytes width big_endian 0 value

  written_at :
      (i : ℕ)
      → get_or written i 0
        ≡ (if ltb i width then byte_of width big_endian value i else get_or bytes i 0)
  written_at i =
      let stored = get_or-write_loop width bytes width big_endian 0 value i (omega (arith, fits)) in
      ground (arith, stored)

  written_new : (i : ℕ) → i < width → get_or written i 0 ≡ byte_of width big_endian value i
  written_new i inside = ground (arith, written_at i, inside)

  written_old : (i : ℕ) → width ≤ i → get_or written i 0 ≡ get_or bytes i 0
  written_old i past = ground (arith, written_at i, past)

  write_loop-AreBytes : AreBytes bytes → AreBytes written
  write_loop-AreBytes are_bytes i = ground (arith, written_at i, are_bytes i)

-- The value of the bytes that are written.
value_of-write_loop :
    (big_endian : Bool) (bytes : List ℕ) (width value : ℕ)
    → width ≤ length bytes
    → value_of big_endian width (write_loop width bytes width big_endian 0 value)
      ≡ value % 2 ^ (width * 8)
unfolding value_of
value_of-write_loop false bytes width value fits =
    little_value_lem (write_loop width bytes width false 0 value) value width 0
      (λ i l b. written_new bytes width false value fits i (omega (arith, b)))
    ∙ (let same : value / 2 ^ (0 * 8) % 2 ^ (width * 8) ≡ value % 2 ^ (width * 8) =
          ap (λ v. v % 2 ^ (width * 8)) (let e : value / 2 ^ (0 * 8) ≡ value = omega arith in e) in
        same)
value_of-write_loop true bytes width value fits =
    big_value_lem (write_loop width bytes width true 0 value) value width width 0 0 (omega arith)
      (λ i l b. written_new bytes width true value fits i b)
    ∙ omega arith

read_loop-value_of :
    (big_endian : Bool) (bytes : List ℕ) (width : ℕ)
    → AreBytes bytes
    → width ≤ 8
    → read_loop width bytes width big_endian 0 0 ≡ value_of big_endian width bytes
unfolding value_of
read_loop-value_of false bytes width are_bytes small =
    read_loop-little bytes are_bytes width small width 0 0 (omega arith) (omega arith) ∙ omega arith
read_loop-value_of true bytes width are_bytes small =
    let none_above : 0 ≡ 0 * 2 ^ (width * 8) = omega arith in
    ap (λ a. read_loop width bytes width true 0 a) none_above
    ∙ read_loop-big bytes are_bytes width small width 0 0 (omega arith)

-- For a width of at most 8 and a size that holds it, byte_order_read_unsigned returns OK and the value of
-- the first bytes, the first of them lowest in little-endian order and highest in big-endian order.
pub read_unsigned_lem :
    (bytes : List ℕ) (size width : ℕ) (big_endian : Bool)
    → AreBytes bytes
    → width ≤ 8
    → width ≤ size
    → read_unsigned (some bytes) size width big_endian false
      ≡ (ok, some (value_of big_endian width bytes))
unfolding read_unsigned
read_unsigned_lem bytes size width big_endian are_bytes small fits =
    let enough : ltb size width ≡ false = ground (arith, fits) in
    let value = read_loop-value_of big_endian bytes width are_bytes small in simp (enough, value)

-- What a writer leaves and a reader then returns: the array keeps its size and its bytes from `width`
-- on, and the reader's answer is the one expected.
abbrev pub WritesAndReads {ℓ} :
    {R : Type ℓ} → List ℕ → ℕ → Foundation × Option (List ℕ) → (List ℕ → R) → R → Type ℓ
WritesAndReads bytes width written read expected =
    (bytes' : List ℕ) × (written ≡ (ok, some bytes'))
    × (length bytes' ≡ length bytes)
    × ((i : ℕ) → width ≤ i → get_or bytes' i 0 ≡ get_or bytes i 0)
    × (read bytes' ≡ expected)

-- For a width of at most 8, an array of at least that many bytes and a value that fits the width, in
-- either order: byte_order_write_unsigned returns OK and changes only the first bytes of the array, and
-- byte_order_read_unsigned returns OK and the value from it.
pub read-write_unsigned :
    (bytes : List ℕ) (size width : ℕ) (big_endian : Bool) (value : ℕ)
    → AreBytes bytes
    → width ≤ 8
    → width ≤ size
    → size ≤ length bytes
    → value < 2 ^ (width * 8)
    → WritesAndReads bytes width
        (write_unsigned (some bytes) size width big_endian value)
        (λ b. read_unsigned (some b) size width big_endian false)
        (ok, some value)
unfolding write_unsigned
read-write_unsigned bytes size width big_endian value are_bytes small fits holds bound =
    let bytes' = write_loop width bytes width big_endian 0 value in
    let enough : ltb size width ≡ false = ground (arith, fits) in
    let within : width ≤ length bytes = omega (arith, fits, holds) in
    let worth = value_of-write_loop big_endian bytes width value within ∙ mod-eq_of_lt bound in
    let answer =
      read_unsigned_lem bytes' size width big_endian
        (write_loop-AreBytes bytes width big_endian value within are_bytes) small fits in
    (
      bytes',
      simp (enough),
      length-write_loop width bytes width big_endian 0 value,
      written_old bytes width big_endian value within,
      answer ∙ ap (λ v. (ok, some v)) worth,
    )
