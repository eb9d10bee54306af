-- ===== src/Snapshot.antt =====
-- libraries/snapshot_buffer/src/snapshot_buffer.c of archive/legacy_src: two slots, of which a writer
-- fills the one that is not published. A pointer is its address, 0 for NULL; the bytes of the slots
-- stand beside the buffer, and what a handle holds beside its address. `size_t` and pointers are 32
-- bits wide.
pub mod Readers
pub mod Steps
pub mod Inv
pub mod Latest
pub mod Leases
pub mod Publish
mod Tests
use embedded_library.Prelude.{
  ℕ, zero, suc, ◌+◌, ◌-◌, Bool, true, false, not, ◌&&◌, ◌||◌, ◌==◌, if◌then◌else◌, ltb, size_max,
  Option, none, some, List, take,
}
use embedded_library.Foundation.{
  Foundation, ok, invalid_argument, not_initialized, invalid_state, empty, buffer_too_small,
  overflow, busy, is_fine, overlaps,
}

-- `snapshot_buffer_lease_t`
pub record Lease : Type 0 where
  location : ℕ
  size : ℕ
  sequence : ℕ
  timestamp : ℕ

-- `snapshot_buffer_writer_t`
pub record Writer : Type 0 where
  location : ℕ
  capacity : ℕ

-- `snapshot_buffer_info_t`
pub record Info : Type 0 where
  size : ℕ
  sequence : ℕ
  timestamp : ℕ

-- `snapshot_buffer_t`, beside the bytes of the two slots. `writer` and `readers` are addresses.
pub record Buffer : Type 0 where
  slots : ℕ × ℕ
  capacity : ℕ
  active : ℕ
  writing : ℕ
  published : Bool
  writer : ℕ
  readers : ℕ × ℕ
  info : Info × Info
  bytes : List ℕ × List ℕ

-- `pair[index]` and `pair[index] = value`
abbrev pub at {ℓ} : {A : Type ℓ} → A × A → ℕ → A
at pair index = if index == 0 then pair.0 else pair.1

abbrev pub put {ℓ} : {A : Type ℓ} → A × A → ℕ → A → A × A
put pair index value = if index == 0 then (value, pair.1) else (pair.0, value)

-- `sizeof` of the buffer, of the two handles, of an info and of a word.
abbrev pub buffer_bytes : ℕ
buffer_bytes = 60

abbrev pub writer_bytes : ℕ
writer_bytes = 8

abbrev pub lease_bytes : ℕ
lease_bytes = 16

abbrev pub info_bytes : ℕ
info_bytes = 12

abbrev pub word_bytes : ℕ
word_bytes = 4

abbrev pub no_info : Info
no_info = record { size = 0; sequence = 0; timestamp = 0 }

abbrev pub no_writer : Writer
no_writer = record { location = 0; capacity = 0 }

abbrev pub no_lease : Lease
no_lease = record { location = 0; size = 0; sequence = 0; timestamp = 0 }

unfoldable pub check : Option Buffer → Foundation
check none = invalid_argument
check (some buffer) =
    if buffer.slots.0 == 0 || buffer.slots.1 == 0 || buffer.capacity == 0
    then not_initialized
    else if ltb 1 buffer.active || ltb 1 buffer.writing
    then invalid_state
    else ok

abbrev pub overlaps_reader : ℕ → ℕ → ℕ → Bool
overlaps_reader output size reader = not (reader == 0) && overlaps output size reader lease_bytes

-- The arguments: the buffer's address, the buffer, and the range of the output.
unfoldable pub valid_output : ℕ → Buffer → ℕ → ℕ → Bool
valid_output address buffer output size =
    if (not (size == 0) && output == 0)
      || overlaps output size address buffer_bytes
      || overlaps output size buffer.slots.0 buffer.capacity
      || overlaps output size buffer.slots.1 buffer.capacity
    then false
    else if not (buffer.writer == 0) && overlaps output size buffer.writer writer_bytes
    then false
    else if overlaps_reader output size buffer.readers.0
    then false
    else if overlaps_reader output size buffer.readers.1
    then false
    else true

abbrev pub new_buffer : ℕ → ℕ → ℕ → List ℕ × List ℕ → Buffer
new_buffer first second capacity bytes = record {
  slots = (first, second);
  capacity = capacity;
  active = 0;
  writing = 0;
  published = false;
  writer = 0;
  readers = (0, 0);
  info = (no_info, no_info);
  bytes = bytes;
}

-- The last argument is what the two arrays hold.
unfoldable pub init : ℕ → Option Buffer → ℕ → ℕ → ℕ → List ℕ × List ℕ → Foundation × Option Buffer
init address none first second capacity bytes = (invalid_argument, none)
init address (some buffer) first second capacity bytes =
    if first == 0
      || second == 0
      || capacity == 0
      || overlaps first capacity second capacity
      || overlaps address buffer_bytes first capacity
      || overlaps address buffer_bytes second capacity
    then (invalid_argument, some buffer)
    else if not (buffer.writer == 0) || not (buffer.readers.0 == 0) || not (buffer.readers.1 == 0)
    then (busy, some buffer)
    else (ok, some (new_buffer first second capacity bytes))

-- The slot that the next writer fills.
abbrev pub next_slot : Buffer → ℕ
next_slot buffer = if buffer.published then 1 - buffer.active else 0

abbrev pub begun : Buffer → ℕ → Buffer
begun buffer writer = record buffer { writing = next_slot buffer; writer = writer }

-- The status, the buffer, and what is stored at `writer`.
unfoldable pub begin : ℕ → Option Buffer → ℕ → Foundation × Option Buffer × Option Writer
begin address none writer = (check none, none, none)
begin address (some buffer) writer =
    if not (is_fine (check (some buffer)))
    then (check (some buffer), some buffer, none)
    else if writer == 0
    then (invalid_argument, some buffer, none)
    else if not (buffer.writer == 0)
    then (busy, some buffer, none)
    else if not (valid_output address buffer writer writer_bytes)
    then (invalid_argument, some buffer, none)
    else if not (at buffer.readers (next_slot buffer) == 0)
    then (busy, some buffer, none)
    else (
      ok,
      some (begun buffer writer),
      some record { location = at buffer.slots (next_slot buffer); capacity = buffer.capacity },
    )

-- The arguments: the buffer, the writer's address and what it holds.
unfoldable pub valid_writer : Buffer → ℕ → Writer → Bool
valid_writer buffer writer held =
    not (writer == 0)
    && buffer.writer == writer
    && held.location == at buffer.slots buffer.writing
    && held.capacity == buffer.capacity

-- The sequence of what is published.
abbrev pub last_sequence : Buffer → ℕ
last_sequence buffer = if buffer.published then (at buffer.info buffer.active).sequence else 0

abbrev pub announced : Buffer → ℕ → ℕ → Buffer
announced buffer size timestamp = record buffer {
  info =
      put buffer.info buffer.writing
        record { size = size; sequence = last_sequence buffer + 1; timestamp = timestamp };
  active = buffer.writing;
  published = true;
  writer = 0;
}

unfoldable pub publish :
    Option Buffer → ℕ → Writer → ℕ → ℕ → Foundation × Option Buffer × Option Writer
publish none writer held size timestamp = (check none, none, none)
publish (some buffer) writer held size timestamp =
    if not (is_fine (check (some buffer)))
    then (check (some buffer), some buffer, none)
    else if writer == 0
    then (invalid_argument, some buffer, none)
    else if not (valid_writer buffer writer held)
    then (invalid_state, some buffer, none)
    else if ltb buffer.capacity size
    then (buffer_too_small, some buffer, none)
    else if last_sequence buffer == size_max
    then (overflow, some buffer, none)
    else (ok, some (announced buffer size timestamp), some no_writer)

unfoldable pub cancel : Option Buffer → ℕ → Writer → Foundation × Option Buffer × Option Writer
cancel none writer held = (check none, none, none)
cancel (some buffer) writer held =
    if not (is_fine (check (some buffer)))
    then (check (some buffer), some buffer, none)
    else if writer == 0
    then (invalid_argument, some buffer, none)
    else if not (valid_writer buffer writer held)
    then (invalid_state, some buffer, none)
    else (ok, some (record buffer { writer = 0 }), some no_writer)
