-- ===== src/Cobs/RoundTrip.antt =====
-- cobs_encode followed by cobs_decode.
use embedded_library.Prelude.{
  ℕ, ◌+◌, ◌/◌, ◌≤◌, ◌≡◌, ap, subst, ◌∙◌, Bool, true, false, ◌==◌, ◌⊎◌, if◌then◌else◌, ltb, size_max,
  some, List, [], ◌++◌, length, get_or, length-append, get_or-append_left, arith,
}
use embedded_library.Foundation.{ok}
use embedded_library.Cobs.{ranges_overlap, encode, decode}
use embedded_library.Cobs.Stuffing.{
  stuff, unstuff, AreBytes, unstuff-stuff, stuff-is_stuffed, stuff-AreBytes, stuff-longer,
}
use embedded_library.Cobs.Reading.{Reads}
use embedded_library.Cobs.Decoder.{StartsWith, source}
use embedded_library.Cobs.Calls.{encode_lem, IsAnswer, decode-IsAnswer}

-- The encoding stands at the start of the buffer that is read.
source-starts :
    (aliased : Bool) (bytes rest target : List ℕ)
    → Reads (source aliased (bytes ++ rest) (if aliased then bytes ++ rest else target)) 0 bytes
source-starts true bytes rest target j l =
    let same : 0 + j ≡ j = omega arith in
    ap (λ i. get_or (bytes ++ rest) i 0) same ∙ get_or-append_left bytes rest j 0 l
source-starts false bytes rest target j l =
    let same : 0 + j ≡ j = omega arith in
    ap (λ i. get_or (bytes ++ rest) i 0) same ∙ get_or-append_left bytes rest j 0 l

target-long :
    (aliased : Bool) (n : ℕ) (encoded target : List ℕ)
    → n ≤ length encoded
    → n ≤ length target
    → n ≤ length (if aliased then encoded else target)
target-long true n encoded target l m = l
target-long false n encoded target l m = m

-- A message of bytes is encoded into a buffer of at least the maximal size, and at most SIZE_MAX
-- bytes, whose range does not overlap it; the encoding is decoded into an array that is at least as
-- long as the message and whose range does not overlap the encoding, or in place. Then both calls
-- return OK, the second one with the size of the message, and the array starts with the message.
pub decode-encode :
    (message buffer target : List ℕ) (message_address buffer_address target_address buffer_size : ℕ)
    → AreBytes message
    → ranges_overlap message_address (length message) buffer_address buffer_size ≡ false
    → length message + (length message / 254 + 1) ≤ buffer_size
    → buffer_size ≤ length buffer
    → buffer_size ≤ size_max
    → length message ≤ length target
    → (buffer_address ≡ target_address)
      ⊎ (ranges_overlap buffer_address (length (stuff [] message)) target_address (length message)
          ≡ false)
    → (encoded : List ℕ) × (size : ℕ) × (encode message_address
          (some message)
          (length message)
          buffer_address
          (some buffer)
          buffer_size
          false
        ≡ (ok, some encoded, some size))
      × (decoded : List ℕ) × (decode buffer_address
            (some encoded)
            size
            target_address
            (some (if buffer_address == target_address then encoded else target))
            (length message)
            false
          ≡ (ok, some decoded, some (length message)))
      × StartsWith decoded message
decode-encode message buffer target a b d size bytes apart fits inside small long free =
    let (rest, written, shorter) = encode_lem message buffer a b size apart fits inside small in
    let s = stuff [] message in
    let longer = stuff-longer message [] in
    let parts = length-append s rest in
    let aliased = b == d in
    let output = if aliased then s ++ rest else target in
    let call = decode b (some (s ++ rest)) (length s) d (some output) (length message) false in
    let back : unstuff 0 false s ≡ message = unstuff-stuff message [] false (omega arith) in
    let same_size = ap length back in
    let enough : ltb (length message) (length (unstuff 0 false s)) ≡ false =
      ground (arith, same_size) in
    let answer =
      decode-IsAnswer s (s ++ rest) output b d (length message)
        (source-starts aliased s rest target) (stuff-AreBytes message [] (omega arith) bytes tt)
        (omega (arith, longer)) (omega (arith, shorter, fits, small))
        (target-long aliased (length message) (s ++ rest) target (omega (arith, longer, parts))
          long)
        free in
    let stuffed = stuff-is_stuffed message [] (omega arith) in
    let (decoded, decodes, starts) : IsAnswer true false message output call =
      subst (λ m. IsAnswer true false m output call) back
        (subst (λ x. IsAnswer true x (unstuff 0 false s) output call) enough
          (subst
            (λ x.
              IsAnswer x (ltb (length message) (length (unstuff 0 false s))) (unstuff 0 false s)
                output call)
            stuffed answer)) in
    (s ++ rest, length s, written, decoded, decodes, starts)
