-- ===== src/Cobs.antt =====
-- libraries/cobs/src/cobs.c of archive/legacy_src: byte stuffing. A buffer is the list of its bytes,
-- beside its address; a loop that takes an index further is given the fuel of the bytes that are left.
pub mod Stuffing
pub mod Encoder
pub mod Reading
pub mod Decoder
pub mod Blocks
pub mod Calls
pub mod RoundTrip
mod Tests
use embedded_library.Prelude.{
  is_null, elements, ℕ, zero, suc, ◌+◌, ◌-◌, ◌*◌, ◌/◌, ◌%◌, ◌^◌, Bool, true, false, not, ◌&&◌, ◌||◌,
  ◌==◌, if◌then◌else◌, ltb, size_max, or_else, Option, none, some, List, [], ◌∷◌, take, set, get_or,
}
use embedded_library.Foundation.{
  Foundation, ok, invalid_argument, invalid_data, buffer_too_small, overflow, out_of_range, is_fine,
}

-- The highest code, which no zero follows.
abbrev pub full_code : ℕ
full_code = 0xff

unfoldable pub ranges_overlap : ℕ → ℕ → ℕ → ℕ → Bool
ranges_overlap left left_size right right_size =
    if left_size == 0 || right_size == 0
    then false
    else if ltb (size_max - left_size) left || ltb (size_max - right_size) right
    then true
    else ltb left (right + right_size) && ltb right (left + left_size)

-- The maximum, none for the overflow, and the status.
unfoldable pub max_encoded_size : ℕ → Bool → Foundation × Option ℕ
max_encoded_size input_size no_output =
    let overhead = input_size / 254 + 1 in
    if no_output
    then (invalid_argument, none)
    else if ltb (size_max - overhead) input_size
    then (overflow, none)
    else (ok, some (input_size + overhead))

-- `code - 1U` on size_t.
abbrev pub previous : ℕ → ℕ
previous code = (code + size_max) % 2 ^ 32

-- The loop of cobs_decoded_size.
unfoldable pub size_loop : ℕ → List ℕ → ℕ → ℕ → ℕ → Foundation × Option ℕ
size_loop zero encoded encoded_size index result = (ok, some result)
size_loop (suc fuel) encoded encoded_size index result =
    let code = get_or encoded index 0 in
    let copy_size = previous code in
    let index' = suc index + copy_size in
    let result' = result + copy_size in
    let result'' =
      if not (code == full_code) && ltb index' encoded_size then suc result' else result' in
    let rest = size_loop fuel encoded encoded_size index' result'' in
    if not (ltb index encoded_size)
    then (ok, some result)
    else if code == 0 || ltb (encoded_size - suc index) copy_size
    then (invalid_data, none)
    else if ltb (size_max - copy_size) result
    then (overflow, none)
    else rest

unfoldable pub decoded_size : Option (List ℕ) → ℕ → Bool → Foundation × Option ℕ
decoded_size encoded encoded_size no_output =
    if no_output || (is_null encoded && ltb 0 encoded_size)
    then (invalid_argument, none)
    else if encoded_size == 0
    then (invalid_data, none)
    else size_loop encoded_size (elements encoded) encoded_size 0 0

-- The loop of cobs_encode over the bytes that are left, and the store of the code after it: the output
-- buffer and the number of bytes written.
unfoldable pub encode_loop : List ℕ → List ℕ → ℕ → ℕ → ℕ → List ℕ × ℕ
encode_loop [] output write_index code_index code = (set output code_index code, write_index)
encode_loop (byte ∷ input) output write_index code_index code =
    let closed = encode_loop input (set output code_index code) (suc write_index) write_index 1 in
    let written = set output write_index byte in
    let code' = (code + 1) % 256 in
    let filled =
      encode_loop input (set written code_index code') (suc (suc write_index)) (suc write_index)
        1 in
    let longer = encode_loop input written (suc write_index) code_index code' in
    if byte == 0 then closed else if code' == full_code then filled else longer

-- The status, the output buffer after the call, and the size that is written through `encoded_size`,
-- which is NULL if `no_size`.
unfoldable pub encode :
    ℕ
    → Option (List ℕ)
    → ℕ
    → ℕ
    → Option (List ℕ)
    → ℕ
    → Bool
    → Foundation × Option (List ℕ) × Option ℕ
encode input_address input input_size output_address output output_size no_size =
    let (status, required) = max_encoded_size input_size false in
    let (output', written) =
      encode_loop (take input_size (elements input)) (elements output) 1 0 1 in
    if no_size || (is_null output || (is_null input && ltb 0 input_size))
    then (invalid_argument, output, none)
    else if ranges_overlap input_address input_size output_address output_size
    then (invalid_argument, output, none)
    else if not (is_fine status) || ltb output_size (or_else required 0)
    then (buffer_too_small, output, none)
    else (ok, some output', some written)

-- A byte of the input, which is the output buffer itself if the two addresses are equal.
abbrev pub byte_at : Bool → List ℕ → List ℕ → ℕ → ℕ
byte_at aliased input output index = get_or (if aliased then output else input) index 0

-- The inner loop of cobs_decode, over the `n` bytes that are left.
unfoldable pub copy_bytes : Bool → List ℕ → ℕ → List ℕ → ℕ → ℕ → List ℕ
copy_bytes aliased input zero output in_index out_index = output
copy_bytes aliased input (suc n) output in_index out_index =
    copy_bytes aliased input n (set output out_index (byte_at aliased input output in_index))
      (suc in_index) (suc out_index)

-- The loop of cobs_decode: the output buffer and the number of bytes written.
unfoldable pub decode_loop : ℕ → Bool → List ℕ → ℕ → List ℕ → ℕ → ℕ → List ℕ × ℕ
decode_loop zero aliased input input_size output in_index out_index = (output, out_index)
decode_loop (suc fuel) aliased input input_size output in_index out_index =
    let code = byte_at aliased input output in_index in
    let copy_size = previous code in
    let copied = copy_bytes aliased input copy_size output (suc in_index) out_index in
    let in' = suc in_index + copy_size in
    let out' = out_index + copy_size in
    let ended = decode_loop fuel aliased input input_size (set copied out' 0) in' (suc out') in
    let joined = decode_loop fuel aliased input input_size copied in' out' in
    if not (ltb in_index input_size)
    then (output, out_index)
    else if not (code == full_code) && ltb in' input_size
    then ended
    else joined

-- As `encode`; with equal addresses, the input is what the output buffer holds.
unfoldable pub decode :
    ℕ
    → Option (List ℕ)
    → ℕ
    → ℕ
    → Option (List ℕ)
    → ℕ
    → Bool
    → Foundation × Option (List ℕ) × Option ℕ
decode input_address input input_size output_address output output_size no_size =
    let aliased = input_address == output_address in
    let (status, required) = decoded_size (if aliased then output else input) input_size false in
    let (output', written) =
      decode_loop input_size aliased (elements input) input_size (elements output) 0 0 in
    if no_size || (is_null output || (is_null input && ltb 0 input_size))
    then (invalid_argument, output, none)
    else if not aliased && ranges_overlap input_address input_size output_address output_size
    then (invalid_argument, output, none)
    else if not (is_fine status)
    then (status, output, none)
    else if ltb output_size (or_else required 0)
    then (buffer_too_small, output, none)
    else (ok, some output', some written)
