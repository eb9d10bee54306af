-- ===== src/Cobs/Tests.antt =====
-- A message with zeros, encoded and decoded in its own buffer and in another.
use embedded_library.Prelude.{
  ℕ, ◌+◌, ap, ◌≤◌, ◌≡◌, refl, inl, some, List, [], ◌∷◌, ◌++◌, length, tabulate, get_or,
  if◌then◌else◌, ◌==◌, false, ltb, arith,
}
use embedded_library.Foundation.{ok}
use embedded_library.Cobs.{
  encode, decode, ranges_overlap, encode_loop, decode_loop, max_encoded_size, decoded_size,
  size_loop, copy_bytes,
}
use embedded_library.Cobs.Stuffing.{stuff, unstuff, is_stuffed, AreBytes}
use embedded_library.Cobs.Decoder.{StartsWith}
use embedded_library.Cobs.Reading.{Reads}
use embedded_library.Cobs.Calls.{IsAnswer, encode_lem, decode-IsAnswer}
use embedded_library.Cobs.RoundTrip.{decode-encode}

abbrev message : List ℕ
message = 0x11 ∷ 0x22 ∷ 0 ∷ 0x33 ∷ []

abbrev coded : List ℕ
coded = 3 ∷ 0x11 ∷ 0x22 ∷ 2 ∷ 0x33 ∷ []

abbrev buffer : List ℕ
buffer = tabulate 8 (λ i. 0xaa)

encodes :
    encode 100 (some message) 4 200 (some buffer) 8 false
    ≡ (ok, some (coded ++ (0xaa ∷ 0xaa ∷ 0xaa ∷ [])), some 5)
unfolding encode max_encoded_size ranges_overlap encode_loop
encodes = refl

decodes_in_place :
    (decode 200 (some coded) 5 200 (some coded) 4 false).1 ≡ some (message ++ (0x33 ∷ []))
unfolding decode decoded_size size_loop decode_loop copy_bytes
decodes_in_place = refl

apart : ranges_overlap 100 4 200 8 ≡ false
unfolding ranges_overlap
apart = refl

message_bytes : AreBytes message
message_bytes = (omega arith, (omega arith, (omega arith, (omega arith, tt))))

coded_bytes : AreBytes coded
coded_bytes = (omega arith, (omega arith, (omega arith, (omega arith, (omega arith, tt)))))

coded_read : Reads coded 0 coded
coded_read j l = let same : 0 + j ≡ j = omega arith in ap (λ i. get_or coded i 0) same

encode_lem_example :
    (rest : List ℕ) × (encode 100 (some message) 4 200 (some buffer) 8 false
      ≡ (ok, some (stuff [] message ++ rest), some (length (stuff [] message))))
    × (length (stuff [] message) ≤ 5)
encode_lem_example =
    encode_lem message buffer 100 200 8 apart (omega arith) (omega arith) (omega arith)

decode-IsAnswer_example :
    IsAnswer
      (is_stuffed 0 coded)
      (ltb 4 (length (unstuff 0 false coded)))
      (unstuff 0 false coded)
      coded
      (decode 200 (some coded) 5 200 (some coded) 4 false)
decode-IsAnswer_example =
    decode-IsAnswer coded coded coded 200 200 4 coded_read coded_bytes (omega arith) (omega arith)
      (omega arith) (inl refl)

decode-encode_example :
    (encoded : List ℕ) × (size : ℕ) × (encode 100 (some message) 4 200 (some buffer) 8 false
      ≡ (ok, some encoded, some size))
    × (decoded : List ℕ) × (decode 200
          (some encoded)
          size
          200
          (some (if 200 == 200 then encoded else buffer))
          4
          false
        ≡ (ok, some decoded, some 4))
    × StartsWith decoded message
decode-encode_example =
    decode-encode message buffer buffer 100 200 200 8 message_bytes apart (omega arith)
      (omega arith) (omega arith) (omega arith) (inl refl)
