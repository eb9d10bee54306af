-- ===== src/Cobs/Calls.antt =====
-- What cobs_encode and cobs_decode return, in terms of the encoding without indices.
use embedded_library.Prelude.{
  ℕ, ◌+◌, ◌-◌, ◌/◌, ◌≤◌, ◌<◌, ◌≡◌, refl, sym, ap, subst, Bool, true, false, not, ◌&&◌, ◌==◌,
  if◌then◌else◌, ltb, ◌⊎◌, size_max, Option, some, none, List, [], ◌++◌, length, inl, inr,
  Bool-cases, take-length, arith,
}
use embedded_library.Foundation.{Foundation, ok, invalid_data, buffer_too_small}
use embedded_library.Cobs.{
  ranges_overlap, max_encoded_size, decoded_size, encode, encode_loop, decode, decode_loop,
}
use embedded_library.Cobs.Stuffing.{stuff, unstuff, is_stuffed, AreBytes, length-stuff}
use embedded_library.Cobs.Encoder.{HasWritten, encode_loop-stuff, nonempty}
use embedded_library.Cobs.Reading.{Reads, size_loop-sized_answer, sized_answer}
use embedded_library.Cobs.Decoder.{StartsWith, source}
use embedded_library.Cobs.Blocks.{HasDecoded, decode_loop-HasDecoded}

first_block :
    (message output : List ℕ)
    → length message + (length message / 254 + 1) ≤ length output
    → HasWritten [] (encode_loop message output 1 0 1) (stuff [] message)
first_block message output l =
    let (t, tail, split) = nonempty output (omega (arith, l)) in
    let size = length-stuff message [] (omega arith) in
    let one_less = ap length split in
    encode_loop-stuff message [] [] tail output t 1 0 1 split (omega arith) refl (omega arith)
      (omega arith) (omega (arith, size, one_less, l))

-- With a buffer of at least the size that cobs_max_encoded_size gives, and at most SIZE_MAX bytes,
-- whose range does not overlap the input, cobs_encode returns OK; the buffer starts with the encoding
-- of the bytes, its size is returned, and it is at most that maximum.
pub encode_lem :
    (message output : List ℕ) (input_address output_address output_size : ℕ)
    → ranges_overlap input_address (length message) output_address output_size ≡ false
    → length message + (length message / 254 + 1) ≤ output_size
    → output_size ≤ length output
    → output_size ≤ size_max
    → (rest : List ℕ) × (encode input_address
          (some message)
          (length message)
          output_address
          (some output)
          output_size
          false
        ≡ (ok, some (stuff [] message ++ rest), some (length (stuff [] message))))
      × (length (stuff [] message) ≤ length message + (length message / 254 + 1))
unfolding encode max_encoded_size
encode_lem message output input_address output_address output_size apart fits inside small =
    let (rest, written) = first_block message output (omega (arith, fits, inside)) in
    let size = length-stuff message [] (omega arith) in
    let counted : 0 + length (stuff [] message) ≡ length (stuff [] message) = omega arith in
    let all = take-length message in
    let possible : ltb (size_max - (length message / 254 + 1)) (length message) ≡ false =
      ground (arith, fits, small) in
    let enough : ltb output_size (length message + (length message / 254 + 1)) ≡ false =
      ground (arith, fits) in
    (rest, simp (apart, possible, enough, all, written, counted), omega (arith, size))

decoded_size_lem :
    (aliased : Bool) (bytes input output : List ℕ)
    → Reads (source aliased input output) 0 bytes
    → AreBytes bytes
    → 0 < length bytes
    → length bytes ≤ size_max
    → decoded_size (if aliased then some output else some input) (length bytes) false
      ≡ sized_answer 0 bytes
unfolding decoded_size
decoded_size_lem true bytes input output r a l m =
    let some_bytes : (length bytes == 0) ≡ false = ground (arith, l) in
    let answer =
      size_loop-sized_answer (length bytes) bytes output (length bytes) 0 0 (omega arith) r a
        (omega arith) (omega arith) m in
    simp (some_bytes, answer)
decoded_size_lem false bytes input output r a l m =
    let some_bytes : (length bytes == 0) ≡ false = ground (arith, l) in
    let answer =
      size_loop-sized_answer (length bytes) bytes input (length bytes) 0 0 (omega arith) r a
        (omega arith) (omega arith) m in
    simp (some_bytes, answer)

-- The answers of cobs_decode: whether the bytes are an encoding, whether the buffer is too small for the
-- decoding, and the decoding.
abbrev pub IsAnswer :
    Bool → Bool → List ℕ → List ℕ → Foundation × Option (List ℕ) × Option ℕ → Type 0
IsAnswer false short decoding output r = r ≡ (invalid_data, some output, none)
IsAnswer true true decoding output r = r ≡ (buffer_too_small, some output, none)
IsAnswer true false decoding output r =
    (output' : List ℕ) × (r ≡ (ok, some output', some (length decoding)))
    × StartsWith output' decoding

-- For any bytes, at least one and at most SIZE_MAX, in an input array whose range does not overlap the
-- output range, or in the output buffer itself: cobs_decode returns the error of invalid data if a
-- code is zero or a block runs past the end; else the error of a buffer that is too small, where the
-- output size is below that of the decoding; in both cases the buffer is as it was; else OK and the
-- size of the decoding, with which the buffer then starts.
pub decode-IsAnswer :
    (bytes input output : List ℕ) (input_address output_address output_size : ℕ)
    → Reads (source (input_address == output_address) input output) 0 bytes
    → AreBytes bytes
    → 0 < length bytes
    → length bytes ≤ size_max
    → output_size ≤ length output
    → (input_address ≡ output_address)
      ⊎ (ranges_overlap input_address (length bytes) output_address output_size ≡ false)
    → IsAnswer
        (is_stuffed 0 bytes)
        (ltb output_size (length (unstuff 0 false bytes)))
        (unstuff 0 false bytes)
        output
        (decode input_address
          (some input)
          (length bytes)
          output_address
          (some output)
          output_size
          false)
unfolding decode
decode-IsAnswer bytes input output input_address output_address output_size r a l m inside apart =
    let aliased = input_address == output_address in
    let sized = decoded_size_lem aliased bytes input output r a l m in
    let overlap = ranges_overlap input_address (length bytes) output_address output_size in
    let allowed : (not aliased && overlap) ≡ false = elim apart [
      | inl e ↦ ground (arith, e)
      | inr f ↦ ground (arith, f)
    ] in
    let call =
      decode input_address (some input) (length bytes) output_address (some output) output_size
        false in
    let decoding = unstuff 0 false bytes in
    let counted : 0 + length decoding ≡ length decoding = omega arith in
    elim (Bool-cases (is_stuffed 0 bytes)) [
      | inr broken ↦
          let refused : call ≡ (invalid_data, some output, none) = simp (allowed, sized, broken) in
          subst (λ b. IsAnswer b (ltb output_size (length decoding)) decoding output call)
            (sym broken) refused
      | inl stuffed ↦ elim (Bool-cases (ltb output_size (length decoding))) [
        | inl short ↦
            let refused : call ≡ (buffer_too_small, some output, none) =
              simp (allowed, sized, stuffed, counted, short) in
            subst (λ b. IsAnswer b (ltb output_size (length decoding)) decoding output call)
              (sym stuffed) (subst (λ b. IsAnswer true b decoding output call) (sym short) refused)
        | inr enough ↦
            let result = decode_loop (length bytes) aliased input (length bytes) output 0 0 in
            let (starts, size) : HasDecoded decoding result =
              decode_loop-HasDecoded (length bytes) bytes aliased input output [] (length bytes) 0 0
                (omega arith) r a stuffed (omega arith) (λ j b. absurd (omega (arith, b))) refl
                (omega arith) (ground (arith, enough, inside)) in
            let done : call ≡ (ok, some result.0, some (length decoding)) =
              simp (allowed, sized, stuffed, counted, enough, size) in
            subst (λ b. IsAnswer b (ltb output_size (length decoding)) decoding output call)
              (sym stuffed)
              (subst (λ b. IsAnswer true b decoding output call) (sym enough)
                (result.0, done, starts))
      ]
    ]
