-- ===== src/ByteOrder/Tests.antt =====
-- Runs of the readers and writers.
use embedded_library.Prelude.{
  ℕ, zero, suc, ◌≡◌, refl, true, false, some, none, List, [], ◌∷◌, pos, negsuc, arith,
}
use embedded_library.Foundation.{ok, invalid_argument}
use embedded_library.ByteOrder.{
  read_loop, write_loop, read_unsigned, write_unsigned, read_signed, read_u16_le, read_u16_be,
  read_u32_le, read_u32_be, read_u64_le, read_u64_be, read_i16_le, read_i16_be, read_i32_le,
  read_i32_be, read_i64_le, read_i64_be, write_u16_le, write_u16_be, write_u32_le, write_u32_be,
  write_u64_le, write_u64_be, write_i16_le, write_i16_be, write_i32_le, write_i32_be, write_i64_le,
  write_i64_be,
}
use embedded_library.ByteOrder.Bytes.{AreBytes, value_of, big_value}
use embedded_library.ByteOrder.RoundTrip.{WritesAndReads, read_unsigned_lem}
use embedded_library.ByteOrder.Calls.{unsigned_calls, signed_calls, null_value}

abbrev eight : List ℕ
eight = 1 ∷ 2 ∷ 3 ∷ 4 ∷ 5 ∷ 6 ∷ 7 ∷ 8 ∷ []

eight-AreBytes : AreBytes eight
eight-AreBytes zero = omega arith
eight-AreBytes (suc zero) = omega arith
eight-AreBytes (suc (suc zero)) = omega arith
eight-AreBytes (suc (suc (suc zero))) = omega arith
eight-AreBytes (suc (suc (suc (suc zero)))) = omega arith
eight-AreBytes (suc (suc (suc (suc (suc zero))))) = omega arith
eight-AreBytes (suc (suc (suc (suc (suc (suc zero)))))) = omega arith
eight-AreBytes (suc (suc (suc (suc (suc (suc (suc zero))))))) = omega arith
eight-AreBytes (suc (suc (suc (suc (suc (suc (suc (suc i)))))))) = omega arith

write_big : write_u32_be (some eight) 8 0x01020304 ≡ (ok, some eight)
unfolding write_unsigned write_loop
write_big = refl

read_minus : read_i16_le (some (0xfe ∷ 0xff ∷ [])) 2 false ≡ (ok, some (negsuc 1))
unfolding read_signed read_unsigned read_loop
read_minus = refl

read_unsigned_lem_example : read_unsigned (some eight) 8 4 true false ≡ (ok, some 0x01020304)
unfolding value_of big_value
read_unsigned_lem_example =
    read_unsigned_lem eight 8 4 true eight-AreBytes (omega arith) (omega arith)

unsigned_calls_example :
    WritesAndReads eight 2
      (write_u16_le (some eight) 8 513)
      (λ b. read_u16_le (some b) 8 false)
      (some (ok, some 513))
    × WritesAndReads eight 2
        (write_u16_be (some eight) 8 513)
        (λ b. read_u16_be (some b) 8 false)
        (some (ok, some 513))
    × WritesAndReads eight 4
        (write_u32_le (some eight) 8 0xdeadbeef)
        (λ b. read_u32_le (some b) 8 false)
        (some (ok, some 0xdeadbeef))
    × WritesAndReads eight 4
        (write_u32_be (some eight) 8 0xdeadbeef)
        (λ b. read_u32_be (some b) 8 false)
        (some (ok, some 0xdeadbeef))
    × WritesAndReads eight 8
        (write_u64_le (some eight) 8 0xdeadbeef01020304)
        (λ b. read_u64_le (some b) 8 false)
        (ok, some 0xdeadbeef01020304)
    × WritesAndReads eight 8
        (write_u64_be (some eight) 8 0xdeadbeef01020304)
        (λ b. read_u64_be (some b) 8 false)
        (ok, some 0xdeadbeef01020304)
unsigned_calls_example =
    unsigned_calls eight 8 eight-AreBytes (omega arith) (omega arith) 513 0xdeadbeef
      0xdeadbeef01020304 (omega arith) (omega arith) (omega arith)

signed_calls_example :
    WritesAndReads eight 2
      (write_i16_le (some eight) 8 (negsuc 299))
      (λ b. read_i16_le (some b) 8 false)
      (ok, some (negsuc 299))
    × WritesAndReads eight 2
        (write_i16_be (some eight) 8 (negsuc 299))
        (λ b. read_i16_be (some b) 8 false)
        (ok, some (negsuc 299))
    × WritesAndReads eight 4
        (write_i32_le (some eight) 8 (pos 70000))
        (λ b. read_i32_le (some b) 8 false)
        (ok, some (pos 70000))
    × WritesAndReads eight 4
        (write_i32_be (some eight) 8 (pos 70000))
        (λ b. read_i32_be (some b) 8 false)
        (ok, some (pos 70000))
    × WritesAndReads eight 8
        (write_i64_le (some eight) 8 (negsuc 0))
        (λ b. read_i64_le (some b) 8 false)
        (ok, some (negsuc 0))
    × WritesAndReads eight 8
        (write_i64_be (some eight) 8 (negsuc 0))
        (λ b. read_i64_be (some b) 8 false)
        (ok, some (negsuc 0))
signed_calls_example =
    signed_calls eight 8 eight-AreBytes (omega arith) (omega arith) (negsuc 299) (pos 70000)
      (negsuc 0) (omega arith) (omega arith) (omega arith)

null_value_example :
    (read_u16_le (some eight) 8 true ≡ none)
    × (read_u16_be (some eight) 8 true ≡ none)
    × (read_u32_le (some eight) 8 true ≡ none)
    × (read_u32_be (some eight) 8 true ≡ none)
    × (read_u64_le (some eight) 8 true ≡ (invalid_argument, none))
    × (read_u64_be (some eight) 8 true ≡ (invalid_argument, none))
    × (read_i16_le (some eight) 8 true ≡ (invalid_argument, none))
    × (read_i16_be (some eight) 8 true ≡ (invalid_argument, none))
    × (read_i32_le (some eight) 8 true ≡ (invalid_argument, none))
    × (read_i32_be (some eight) 8 true ≡ (invalid_argument, none))
    × (read_i64_le (some eight) 8 true ≡ (invalid_argument, none))
    × (read_i64_be (some eight) 8 true ≡ (invalid_argument, none))
null_value_example = null_value eight 8 eight-AreBytes (omega arith) (omega arith)
