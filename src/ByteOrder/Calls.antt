-- ===== src/ByteOrder/Calls.antt =====
-- The calls for each width and order: what each writer stores its reader returns, and what the readers do
-- with a NULL output.
use embedded_library.Prelude.{
  ℕ, ◌*◌, ◌%◌, ◌^◌, ◌≤◌, ◌<◌, ◌≡◌, refl, ◌∙◌, ap, inl, inr, Bool, true, false, some, none, List,
  length, ℤ, arith,
}
use embedded_library.Foundation.{ok, invalid_argument}
use embedded_library.ByteOrder.{
  deliver, read_unsigned, write_unsigned, read_signed, write_signed, read_u16_le, read_u16_be,
  read_u32_le, read_u32_be, read_u64_le, read_u64_be, read_i16_le, read_i16_be, read_i32_le,
  read_i32_be, read_i64_le, read_i64_be, write_u16_le, write_u16_be, write_u32_le, write_u32_be,
  write_u64_le, write_u64_be, write_i16_le, write_i16_be, write_i32_le, write_i32_be, write_i64_le,
  write_i64_be,
}
use embedded_library.ByteOrder.Bytes.{AreBytes}
use embedded_library.ByteOrder.RoundTrip.{WritesAndReads, read-write_unsigned, read_unsigned_lem}
use embedded_library.ByteOrder.Signed.{IsSigned, IsWidth, read-write_signed}

module _ (bytes : List ℕ) (size : ℕ) (are_bytes : AreBytes bytes) (large : 8 ≤ size)
    (holds : size ≤ length bytes) where
  -- A writer with the two orders, for a width below that of the decoded word.
  delivered :
      (width modulus : ℕ) (big_endian : Bool) (value : ℕ)
      → width ≤ 8
      → value < 2 ^ (width * 8)
      → value % modulus ≡ value
      → WritesAndReads bytes width
          (write_unsigned (some bytes) size width big_endian value)
          (λ b. deliver false modulus (read_unsigned (some b) size width big_endian false))
          (some (ok, some value))
  delivered width modulus big_endian value small bound same =
      let (bytes', written, longer, kept, answer) =
        read-write_unsigned bytes size width big_endian value are_bytes small
          (omega (arith, small, large)) holds bound in
      (
        bytes',
        written,
        longer,
        kept,
        ap (deliver false modulus) answer ∙ ap (λ v. some (ok, some v)) same,
      )

  -- With an array of at least 8 bytes and values that fit: each of the six writers of unsigned integers
  -- returns OK and changes only the bytes of its width, and the reader of the same name then returns OK
  -- and the value.
  pub unsigned_calls :
      (v₁₆ v₃₂ v₆₄ : ℕ)
      → v₁₆ < 2 ^ 16
      → v₃₂ < 2 ^ 32
      → v₆₄ < 2 ^ 64
      → WritesAndReads bytes 2
          (write_u16_le (some bytes) size v₁₆)
          (λ b. read_u16_le (some b) size false)
          (some (ok, some v₁₆))
        × WritesAndReads bytes 2
            (write_u16_be (some bytes) size v₁₆)
            (λ b. read_u16_be (some b) size false)
            (some (ok, some v₁₆))
        × WritesAndReads bytes 4
            (write_u32_le (some bytes) size v₃₂)
            (λ b. read_u32_le (some b) size false)
            (some (ok, some v₃₂))
        × WritesAndReads bytes 4
            (write_u32_be (some bytes) size v₃₂)
            (λ b. read_u32_be (some b) size false)
            (some (ok, some v₃₂))
        × WritesAndReads bytes 8
            (write_u64_le (some bytes) size v₆₄)
            (λ b. read_u64_le (some b) size false)
            (ok, some v₆₄)
        × WritesAndReads bytes 8
            (write_u64_be (some bytes) size v₆₄)
            (λ b. read_u64_be (some b) size false)
            (ok, some v₆₄)
  unsigned_calls v₁₆ v₃₂ v₆₄ b₁₆ b₃₂ b₆₄ = (
    delivered 2 (2 ^ 16) false v₁₆ (omega arith) b₁₆ (omega (arith, b₁₆)),
    delivered 2 (2 ^ 16) true v₁₆ (omega arith) b₁₆ (omega (arith, b₁₆)),
    delivered 4 (2 ^ 32) false v₃₂ (omega arith) b₃₂ (omega (arith, b₃₂)),
    delivered 4 (2 ^ 32) true v₃₂ (omega arith) b₃₂ (omega (arith, b₃₂)),
    read-write_unsigned bytes size 8 false v₆₄ are_bytes (omega arith) large holds b₆₄,
    read-write_unsigned bytes size 8 true v₆₄ are_bytes (omega arith) large holds b₆₄,
  )

  -- With an array of at least 8 bytes and values that fit: each of the six writers of signed integers
  -- returns OK and changes only the bytes of its width, and the reader of the same name then returns OK
  -- and the value.
  pub signed_calls :
      (v₁₆ v₃₂ v₆₄ : ℤ)
      → IsSigned 16 v₁₆
      → IsSigned 32 v₃₂
      → IsSigned 64 v₆₄
      → WritesAndReads bytes 2
          (write_i16_le (some bytes) size v₁₆)
          (λ b. read_i16_le (some b) size false)
          (ok, some v₁₆)
        × WritesAndReads bytes 2
            (write_i16_be (some bytes) size v₁₆)
            (λ b. read_i16_be (some b) size false)
            (ok, some v₁₆)
        × WritesAndReads bytes 4
            (write_i32_le (some bytes) size v₃₂)
            (λ b. read_i32_le (some b) size false)
            (ok, some v₃₂)
        × WritesAndReads bytes 4
            (write_i32_be (some bytes) size v₃₂)
            (λ b. read_i32_be (some b) size false)
            (ok, some v₃₂)
        × WritesAndReads bytes 8
            (write_i64_le (some bytes) size v₆₄)
            (λ b. read_i64_le (some b) size false)
            (ok, some v₆₄)
        × WritesAndReads bytes 8
            (write_i64_be (some bytes) size v₆₄)
            (λ b. read_i64_be (some b) size false)
            (ok, some v₆₄)
  signed_calls v₁₆ v₃₂ v₆₄ b₁₆ b₃₂ b₆₄ = (
    signed 2 false v₁₆ (inl refl) (omega arith) b₁₆,
    signed 2 true v₁₆ (inl refl) (omega arith) b₁₆,
    signed 4 false v₃₂ (inr (inl refl)) (omega arith) b₃₂,
    signed 4 true v₃₂ (inr (inl refl)) (omega arith) b₃₂,
    signed 8 false v₆₄ (inr (inr refl)) (omega arith) b₆₄,
    signed 8 true v₆₄ (inr (inr refl)) (omega arith) b₆₄,
  )
    where
      signed :
          (width : ℕ) (big_endian : Bool) (value : ℤ)
          → IsWidth width
          → width ≤ 8
          → IsSigned (width * 8) value
          → WritesAndReads bytes width
              (write_signed (some bytes) size width big_endian (some value))
              (λ b. read_signed (some b) size width big_endian false)
              (ok, some value)
      signed width big_endian value w small bound =
          read-write_signed bytes size width big_endian value are_bytes w
            (omega (arith, small, large)) holds bound

  -- With an array of at least 8 bytes and NULL for `value`: the four readers of u16 and u32 write through
  -- the NULL pointer, while those of u64 and the signed ones return the error of an invalid argument.
  pub null_value :
      (read_u16_le (some bytes) size true ≡ none)
      × (read_u16_be (some bytes) size true ≡ none)
      × (read_u32_le (some bytes) size true ≡ none)
      × (read_u32_be (some bytes) size true ≡ none)
      × (read_u64_le (some bytes) size true ≡ (invalid_argument, none))
      × (read_u64_be (some bytes) size true ≡ (invalid_argument, none))
      × (read_i16_le (some bytes) size true ≡ (invalid_argument, none))
      × (read_i16_be (some bytes) size true ≡ (invalid_argument, none))
      × (read_i32_le (some bytes) size true ≡ (invalid_argument, none))
      × (read_i32_be (some bytes) size true ≡ (invalid_argument, none))
      × (read_i64_le (some bytes) size true ≡ (invalid_argument, none))
      × (read_i64_be (some bytes) size true ≡ (invalid_argument, none))
  unfolding read_signed read_unsigned
  null_value = (
    fault 2 false (2 ^ 16) (omega arith),
    fault 2 true (2 ^ 16) (omega arith),
    fault 4 false (2 ^ 32) (omega arith),
    fault 4 true (2 ^ 32) (omega arith),
    refl,
    refl,
    refl,
    refl,
    refl,
    refl,
    refl,
    refl,
  )
    where
      fault :
          (width : ℕ) (big_endian : Bool) (modulus : ℕ)
          → width ≤ 8
          → deliver true modulus (read_unsigned (some bytes) size width big_endian false) ≡ none
      fault width big_endian modulus small = ap (deliver true modulus) (
          read_unsigned_lem bytes size width big_endian are_bytes small
            (omega (arith, small, large)))
