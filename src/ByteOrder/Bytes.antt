-- ===== src/ByteOrder/Bytes.antt =====
-- The value of a run of bytes, little-endian and big-endian, and what the two loops compute of it.
use native.Mathlib.Nat.{pow-suc, pow-le-pow_right, one-le-pow, mod-eq_of_lt, mul-le-mul_right}
use embedded_library.Prelude.{
  ℕ, zero, suc, ◌+◌, ◌-◌, ◌*◌, ◌/◌, ◌%◌, ◌^◌, ◌≤◌, ◌<◌, ◌≡◌, refl, ◌∙◌, ap, Bool, true, false,
  if◌then◌else◌, ltb, leb, ◌&&◌, List, length, get_or, set, get_or-set, length-set, arith,
}
use embedded_library.ByteOrder.{shift_index, read_loop, write_loop}
use embedded_library.ByteOrder.Fields.{bit_or_high, bit_or_low}

-- The first byte is the lowest.
unfoldable pub little_value : ℕ → List ℕ → ℕ → ℕ
little_value zero bytes index = 0
little_value (suc count) bytes index =
    get_or bytes index 0 + 256 * little_value count bytes (suc index)

-- The first byte is the highest, below the value of those before it.
unfoldable pub big_value : ℕ → List ℕ → ℕ → ℕ → ℕ
big_value zero bytes index above = above
big_value (suc count) bytes index above =
    big_value count bytes (suc index) (above * 256 + get_or bytes index 0)

unfoldable pub value_of : Bool → ℕ → List ℕ → ℕ
value_of true count bytes = big_value count bytes 0 0
value_of false count bytes = little_value count bytes 0

abbrev pub AreBytes : List ℕ → Type 0
AreBytes bytes = (i : ℕ) → get_or bytes i 0 < 256

two_more : (m : ℕ) → 2 ^ (m + 2) ≡ 4 * 2 ^ m
two_more m =
    let e : m + 2 ≡ suc (suc m) = omega arith in
    rw e (omega (arith, pow-suc 2 m, pow-suc 2 (suc m)))

-- One byte more of the scale.
pub scale-suc : (n : ℕ) → 2 ^ (suc n * 8) ≡ 256 * 2 ^ (n * 8)
scale-suc n =
    let m = n * 8 in
    let e : suc n * 8 ≡ m + 2 + 2 + 2 + 2 = omega arith in
    rw e
      (omega (arith, two_more m, two_more (m + 2), two_more (m + 2 + 2), two_more (m + 2 + 2 + 2)))

scale-le : (n : ℕ) → n ≤ 8 → 2 ^ (n * 8) ≤ 2 ^ 64
scale-le n l = pow-le-pow_right {n = 2} (omega arith) {i = n * 8} {j = 64} (omega (arith, l))

-- A byte that is shifted up stays below the next scale, and within 64 bits.
below_next : (b n r : ℕ) → b < 256 → r < 2 ^ (n * 8) → r + b * 2 ^ (n * 8) < 2 ^ (suc n * 8)
below_next b n r below l =
    let whole = mul-le-mul_right {m = suc b} {n = 256} (2 ^ (n * 8)) below in
    omega (arith, whole, scale-suc n, l)

shifted : (b n : ℕ) → b < 256 → n < 8 → b * 2 ^ (n * 8) % 2 ^ 64 ≡ b * 2 ^ (n * 8)
shifted b n below l =
    let bound = below_next b n 0 below (one-le-pow (n * 8) 2 (omega arith)) in
    mod-eq_of_lt (omega (arith, bound, scale-le (suc n) l))

module _ (bytes : List ℕ) (are_bytes : AreBytes bytes) (width : ℕ) (small : width ≤ 8) where
  pub read_loop-little :
      (left index result : ℕ)
      → index + left ≡ width
      → result < 2 ^ (index * 8)
      → read_loop left bytes width false index result
        ≡ result + 2 ^ (index * 8) * little_value left bytes index
  unfolding read_loop little_value
  read_loop-little zero index result e b = omega arith
  read_loop-little (suc left) index result e b =
      let byte = get_or bytes index 0 in
      let here = shifted byte index (are_bytes index) (omega (arith, e, small)) in
      let joined = bit_or_low (index * 8) byte result b in
      let rest =
        read_loop-little left (suc index) (result + byte * 2 ^ (index * 8)) (omega (arith, e))
          (below_next byte index result (are_bytes index) b) in
      let scaled = ap (λ t. t * little_value left bytes (suc index)) (scale-suc index) in
      rw (here, joined) (rw rest (omega (arith, scaled)))

  pub read_loop-big :
      (left index above : ℕ)
      → index + left ≡ width
      → read_loop left bytes width true index (above * 2 ^ (left * 8))
        ≡ big_value left bytes index above
  unfolding read_loop big_value
  read_loop-big zero index above e = let one : above * 2 ^ (0 * 8) ≡ above = omega arith in one
  read_loop-big (suc left) index above e =
      let byte = get_or bytes index 0 in
      let place : width - 1 - index ≡ left = omega (arith, e) in
      let here = shifted byte left (are_bytes index) (omega (arith, e, small)) in
      let bound =
        below_next byte left 0 (are_bytes index) (one-le-pow (left * 8) 2 (omega arith)) in
      let joined =
        bit_or_high (suc left * 8) above (byte * 2 ^ (left * 8)) (omega (arith, bound)) in
      let scaled = ap (λ (t : ℕ). above * t) (scale-suc left) in
      let sum : above * 2 ^ (suc left * 8) + byte * 2 ^ (left * 8)
          ≡ (above * 256 + byte) * 2 ^ (left * 8) =
        omega (arith, scaled) in
      rw (place, here, joined, sum)
        (read_loop-big left (suc index) (above * 256 + byte) (omega (arith, e)))

-- The byte that is stored at an index.
abbrev pub byte_of : ℕ → Bool → ℕ → ℕ → ℕ
byte_of width big_endian value index = value / 2 ^ (shift_index width big_endian index * 8) % 2 ^ 8

pub length-write_loop :
    (left : ℕ) (bytes : List ℕ) (width : ℕ) (big_endian : Bool) (index value : ℕ)
    → length (write_loop left bytes width big_endian index value) ≡ length bytes
unfolding write_loop
length-write_loop zero bytes width big_endian index value = refl
length-write_loop (suc left) bytes width big_endian index value =
    let byte = byte_of width big_endian value index in
    length-write_loop left (set bytes index byte) width big_endian (suc index) value
    ∙ length-set bytes index byte

pub get_or-write_loop :
    (left : ℕ) (bytes : List ℕ) (width : ℕ) (big_endian : Bool) (index value i : ℕ)
    → index + left ≤ length bytes
    → get_or (write_loop left bytes width big_endian index value) i 0 ≡ (
        if leb index i && ltb i (index + left)
        then byte_of width big_endian value i
        else get_or bytes i 0)
unfolding write_loop
get_or-write_loop zero bytes width big_endian index value i fits = ground arith
get_or-write_loop (suc left) bytes width big_endian index value i fits =
    let byte = byte_of width big_endian value index in
    let rest =
      get_or-write_loop left (set bytes index byte) width big_endian (suc index) value i
        (omega (arith, fits, length-set bytes index byte)) in
    let here = get_or-set bytes index i byte 0 (omega (arith, fits)) in
    ground (arith, rest, here, ap (byte_of width big_endian value))
