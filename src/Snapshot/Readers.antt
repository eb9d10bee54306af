-- ===== src/Snapshot/Readers.antt =====
-- The readers of snapshot_buffer.c: snapshot_buffer_acquire, _release, _copy and the two queries.
use embedded_library.Prelude.{
  ℕ, zero, suc, Bool, not, ◌&&◌, ◌||◌, ◌==◌, if◌then◌else◌, ltb, Option, none, some, List, take,
}
use embedded_library.Foundation.{
  Foundation, ok, invalid_argument, invalid_state, empty, buffer_too_small, busy, is_fine, overlaps,
}
use embedded_library.Snapshot.{
  Buffer, Info, Lease, at, check, info_bytes, lease_bytes, no_lease, put, valid_output, word_bytes,
}

abbrev pub lease_of : Buffer → ℕ → Lease
lease_of buffer slot = record {
  location = at buffer.slots slot;
  size = (at buffer.info slot).size;
  sequence = (at buffer.info slot).sequence;
  timestamp = (at buffer.info slot).timestamp;
}

unfoldable pub acquire : ℕ → Option Buffer → ℕ → Foundation × Option Buffer × Option Lease
acquire address none lease = (check none, none, none)
acquire address (some buffer) lease =
    if not (is_fine (check (some buffer)))
    then (check (some buffer), some buffer, none)
    else if lease == 0
    then (invalid_argument, some buffer, none)
    else if not buffer.published
    then (empty, some buffer, none)
    else if not (at buffer.readers buffer.active == 0)
    then (busy, some buffer, none)
    else if not (valid_output address buffer lease lease_bytes)
    then (invalid_argument, some buffer, none)
    else (
      ok,
      some (record buffer { readers = put buffer.readers buffer.active lease }),
      some (lease_of buffer buffer.active),
    )

-- Whether a lease still says what its slot holds.
abbrev pub is_intact : Buffer → ℕ → Lease → Bool
is_intact buffer slot held =
    held.location == at buffer.slots slot
    && held.size == (at buffer.info slot).size
    && held.sequence == (at buffer.info slot).sequence
    && held.timestamp == (at buffer.info slot).timestamp

-- The loop of snapshot_buffer_release with `left` slots to go.
unfoldable pub release_loop : ℕ → Buffer → ℕ → ℕ → Lease → Foundation × Option Buffer × Option Lease
release_loop zero buffer slot lease held = (invalid_state, some buffer, none)
release_loop (suc left) buffer slot lease held =
    let rest = release_loop left buffer (suc slot) lease held in
    if at buffer.readers slot == lease
    then (if not (is_intact buffer slot held)
        then (invalid_state, some buffer, none)
        else (ok, some (record buffer { readers = put buffer.readers slot 0 }), some no_lease))
    else rest

unfoldable pub release : Option Buffer → ℕ → Lease → Foundation × Option Buffer × Option Lease
release none lease held = (check none, none, none)
release (some buffer) lease held =
    if not (is_fine (check (some buffer)))
    then (check (some buffer), some buffer, none)
    else if lease == 0
    then (invalid_argument, some buffer, none)
    else release_loop 2 buffer 0 lease held

-- The status, the bytes copied to `output`, and the info stored at `result`.
unfoldable pub copy : ℕ → Option Buffer → ℕ → ℕ → ℕ → Foundation × Option (List ℕ) × Option Info
copy address none output capacity result = (check none, none, none)
copy address (some buffer) output capacity result =
    let info = at buffer.info buffer.active in
    if not (is_fine (check (some buffer)))
    then (check (some buffer), none, none)
    else if result == 0
        || not (valid_output address buffer result info_bytes)
        || not (valid_output address buffer output capacity)
        || overlaps output capacity result info_bytes
    then (invalid_argument, none, none)
    else if not buffer.published
    then (empty, none, none)
    else if ltb capacity info.size
    then (buffer_too_small, none, none)
    else (ok, some (take info.size (at buffer.bytes buffer.active)), some info)

-- What the two queries share: the checks, then a field of the published info.
unfoldable pub query : (Info → ℕ) → ℕ → Option Buffer → ℕ → Foundation × Option ℕ
query field address none result = (check none, none)
query field address (some buffer) result =
    if not (is_fine (check (some buffer)))
    then (check (some buffer), none)
    else if result == 0 || not (valid_output address buffer result word_bytes)
    then (invalid_argument, none)
    else if not buffer.published
    then (empty, none)
    else (ok, some (field (at buffer.info buffer.active)))

abbrev pub sequence : ℕ → Option Buffer → ℕ → Foundation × Option ℕ
sequence address buffer result = query (λ i. i.sequence) address buffer result

abbrev pub timestamp : ℕ → Option Buffer → ℕ → Foundation × Option ℕ
timestamp address buffer result = query (λ i. i.timestamp) address buffer result
