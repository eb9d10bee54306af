-- ===== src/ByteOrder.antt =====
-- libraries/byte_order/src/byte_order.c of archive/legacy_src: integers of 2, 4 and 8 bytes,
-- little-endian and big-endian. An array is an option of the list of its bytes, `none` for NULL; an
-- output pointer is the test whether it is NULL; a word of 64 bits keeps its wrap-around.
pub mod Fields
pub mod Bytes
pub mod RoundTrip
pub mod Signed
pub mod Calls
mod Tests
use embedded_library.Prelude.{
  ℕ, zero, suc, ◌+◌, ◌-◌, ◌*◌, ◌/◌, ◌%◌, ◌^◌, Bool, true, false, ◌&&◌, ◌||◌, ◌==◌, if◌then◌else◌,
  ltb, is_null, elements, Option, none, some, List, [], ◌∷◌, get_or, set, ℤ, pos, negsuc,
}
use Prim.Native.Nat.{bit_or}
use embedded_library.Foundation.{Foundation, ok, invalid_argument, buffer_too_small, is_fine}

-- `shift_index`, in bytes.
abbrev pub shift_index : ℕ → Bool → ℕ → ℕ
shift_index width big_endian index = if big_endian then width - 1 - index else index

-- The loop of byte_order_read_unsigned with `left` bytes to go.
unfoldable pub read_loop : ℕ → List ℕ → ℕ → Bool → ℕ → ℕ → ℕ
read_loop zero source width big_endian index result = result
read_loop (suc left) source width big_endian index result =
    read_loop left source width big_endian (suc index) (
      bit_or result (get_or source index 0 * 2 ^ (shift_index width big_endian index * 8) % 2 ^ 64))

-- The last argument tells whether `value` is NULL.
unfoldable pub read_unsigned : Option (List ℕ) → ℕ → ℕ → Bool → Bool → Foundation × Option ℕ
read_unsigned source source_size width big_endian no_value =
    if no_value || (is_null source && ltb 0 source_size)
    then (invalid_argument, none)
    else if ltb source_size width
    then (buffer_too_small, none)
    else (ok, some (read_loop width (elements source) width big_endian 0 0))

-- The loop of byte_order_write_unsigned with `left` bytes to go.
unfoldable pub write_loop : ℕ → List ℕ → ℕ → Bool → ℕ → ℕ → List ℕ
write_loop zero destination width big_endian index value = destination
write_loop (suc left) destination width big_endian index value =
    write_loop left
      (set destination index (value / 2 ^ (shift_index width big_endian index * 8) % 2 ^ 8)) width
      big_endian (suc index) value

unfoldable pub write_unsigned : Option (List ℕ) → ℕ → ℕ → Bool → ℕ → Foundation × Option (List ℕ)
write_unsigned none destination_size width big_endian value = (invalid_argument, none)
write_unsigned (some destination) destination_size width big_endian value =
    if ltb destination_size width
    then (buffer_too_small, some destination)
    else (ok, some (write_loop width destination width big_endian 0 value))

-- `memcpy` of the pattern of an unsigned integer of `width` bits to a signed one, in two's complement.
abbrev pub as_signed : ℕ → ℕ → ℤ
as_signed width bits =
    if ltb bits (2 ^ (width - 1)) then pos bits else negsuc (2 ^ width - 1 - bits)

-- `memcpy` back.
abbrev pub as_unsigned : ℕ → ℤ → ℕ
as_unsigned width (pos n) = n
as_unsigned width (negsuc n) = 2 ^ width - 1 - n

-- What byte_order_read_signed stores for a pattern: the width in bytes, the pattern.
abbrev pub signed_value : ℕ → ℕ → ℤ
signed_value width bits =
    if width == 2
    then as_signed 16 (bits % 2 ^ 16)
    else if width == 4
    then as_signed 32 (bits % 2 ^ 32)
    else as_signed 64 bits

abbrev pub map_value : Foundation × Option ℕ → ℕ → Foundation × Option ℤ
map_value (ok, some bits) width = (ok, some (signed_value width bits))
map_value (status, _) width = (status, none)

unfoldable pub read_signed : Option (List ℕ) → ℕ → ℕ → Bool → Bool → Foundation × Option ℤ
read_signed source source_size width big_endian no_value =
    if no_value
    then (invalid_argument, none)
    else map_value (read_unsigned source source_size width big_endian false) width

-- The pattern that byte_order_write_signed writes for a value.
abbrev pub pattern_of : ℕ → ℤ → ℕ
pattern_of width value =
    if width == 2
    then as_unsigned 16 value
    else if width == 4
    then as_unsigned 32 value
    else as_unsigned 64 value

unfoldable pub write_signed :
    Option (List ℕ) → ℕ → ℕ → Bool → Option ℤ → Foundation × Option (List ℕ)
write_signed destination destination_size width big_endian none = (invalid_argument, destination)
write_signed destination destination_size width big_endian (some value) =
    write_unsigned destination destination_size width big_endian (pattern_of width value)

-- The store through `value` in the four readers that do not test it: `none` where it is NULL, which
-- C leaves undefined.
abbrev pub deliver : Bool → ℕ → Foundation × Option ℕ → Option (Foundation × Option ℕ)
deliver no_value modulus (ok, some bits) =
    if no_value then none else some (ok, some (bits % modulus))
deliver no_value modulus (status, _) = some (status, none)

abbrev pub read_u16_le : Option (List ℕ) → ℕ → Bool → Option (Foundation × Option ℕ)
read_u16_le source source_size no_value =
    deliver no_value (2 ^ 16) (read_unsigned source source_size 2 false false)

abbrev pub read_u16_be : Option (List ℕ) → ℕ → Bool → Option (Foundation × Option ℕ)
read_u16_be source source_size no_value =
    deliver no_value (2 ^ 16) (read_unsigned source source_size 2 true false)

abbrev pub read_u32_le : Option (List ℕ) → ℕ → Bool → Option (Foundation × Option ℕ)
read_u32_le source source_size no_value =
    deliver no_value (2 ^ 32) (read_unsigned source source_size 4 false false)

abbrev pub read_u32_be : Option (List ℕ) → ℕ → Bool → Option (Foundation × Option ℕ)
read_u32_be source source_size no_value =
    deliver no_value (2 ^ 32) (read_unsigned source source_size 4 true false)

abbrev pub read_u64_le : Option (List ℕ) → ℕ → Bool → Foundation × Option ℕ
read_u64_le source source_size no_value = read_unsigned source source_size 8 false no_value

abbrev pub read_u64_be : Option (List ℕ) → ℕ → Bool → Foundation × Option ℕ
read_u64_be source source_size no_value = read_unsigned source source_size 8 true no_value

abbrev pub write_u16_le : Option (List ℕ) → ℕ → ℕ → Foundation × Option (List ℕ)
write_u16_le destination destination_size value =
    write_unsigned destination destination_size 2 false value

abbrev pub write_u16_be : Option (List ℕ) → ℕ → ℕ → Foundation × Option (List ℕ)
write_u16_be destination destination_size value =
    write_unsigned destination destination_size 2 true value

abbrev pub write_u32_le : Option (List ℕ) → ℕ → ℕ → Foundation × Option (List ℕ)
write_u32_le destination destination_size value =
    write_unsigned destination destination_size 4 false value

abbrev pub write_u32_be : Option (List ℕ) → ℕ → ℕ → Foundation × Option (List ℕ)
write_u32_be destination destination_size value =
    write_unsigned destination destination_size 4 true value

abbrev pub write_u64_le : Option (List ℕ) → ℕ → ℕ → Foundation × Option (List ℕ)
write_u64_le destination destination_size value =
    write_unsigned destination destination_size 8 false value

abbrev pub write_u64_be : Option (List ℕ) → ℕ → ℕ → Foundation × Option (List ℕ)
write_u64_be destination destination_size value =
    write_unsigned destination destination_size 8 true value

abbrev pub read_i16_le : Option (List ℕ) → ℕ → Bool → Foundation × Option ℤ
read_i16_le source source_size no_value = read_signed source source_size 2 false no_value

abbrev pub read_i16_be : Option (List ℕ) → ℕ → Bool → Foundation × Option ℤ
read_i16_be source source_size no_value = read_signed source source_size 2 true no_value

abbrev pub read_i32_le : Option (List ℕ) → ℕ → Bool → Foundation × Option ℤ
read_i32_le source source_size no_value = read_signed source source_size 4 false no_value

abbrev pub read_i32_be : Option (List ℕ) → ℕ → Bool → Foundation × Option ℤ
read_i32_be source source_size no_value = read_signed source source_size 4 true no_value

abbrev pub read_i64_le : Option (List ℕ) → ℕ → Bool → Foundation × Option ℤ
read_i64_le source source_size no_value = read_signed source source_size 8 false no_value

abbrev pub read_i64_be : Option (List ℕ) → ℕ → Bool → Foundation × Option ℤ
read_i64_be source source_size no_value = read_signed source source_size 8 true no_value

abbrev pub write_i16_le : Option (List ℕ) → ℕ → ℤ → Foundation × Option (List ℕ)
write_i16_le destination destination_size value =
    write_signed destination destination_size 2 false (some value)

abbrev pub write_i16_be : Option (List ℕ) → ℕ → ℤ → Foundation × Option (List ℕ)
write_i16_be destination destination_size value =
    write_signed destination destination_size 2 true (some value)

abbrev pub write_i32_le : Option (List ℕ) → ℕ → ℤ → Foundation × Option (List ℕ)
write_i32_le destination destination_size value =
    write_signed destination destination_size 4 false (some value)

abbrev pub write_i32_be : Option (List ℕ) → ℕ → ℤ → Foundation × Option (List ℕ)
write_i32_be destination destination_size value =
    write_signed destination destination_size 4 true (some value)

abbrev pub write_i64_le : Option (List ℕ) → ℕ → ℤ → Foundation × Option (List ℕ)
write_i64_le destination destination_size value =
    write_signed destination destination_size 8 false (some value)

abbrev pub write_i64_be : Option (List ℕ) → ℕ → ℤ → Foundation × Option (List ℕ)
write_i64_be destination destination_size value =
    write_signed destination destination_size 8 true (some value)
