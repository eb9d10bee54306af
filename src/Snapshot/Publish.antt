-- ===== src/Snapshot/Publish.antt =====
-- A writer's turn from snapshot_buffer_begin to snapshot_buffer_publish.
use embedded_library.Prelude.{
  ℕ, ◌≤◌, ◌<◌, ◌≡◌, refl, sym, ◌∙◌, ap, ap₂, subst, true, false, not, ◌==◌, if_elim, ltb, size_max,
  Option, some, List, take, arith,
}
use Prim.{Unit, tt}
use embedded_library.Foundation.{Foundation, ok}
use embedded_library.Snapshot.{
  Buffer, Writer, at, put, begin, next_slot, announced, valid_output, writer_bytes, last_sequence,
  publish, no_writer, valid_writer,
}
use embedded_library.Snapshot.Steps.{filled}
use embedded_library.Snapshot.Inv.{IsValid, check-ok}
use embedded_library.Snapshot.Inv.Kept.{begun-IsValid, filled-IsValid}
use embedded_library.Snapshot.Latest.{
  latest, following, latest-announced, latest-filled, at-put_self,
}

abbrev IsBegun : Buffer → ℕ → Foundation × Option Buffer × Option Writer → Type 0
IsBegun b writer (ok, some b', some held) =
    IsValid b'
    × (0 < writer)
    × (b'.writer ≡ writer)
    × (b'.capacity ≡ b.capacity)
    × (held.location ≡ at b'.slots b'.writing)
    × (held.capacity ≡ b'.capacity)
    × (latest b' ≡ latest b)
    × (last_sequence b' ≡ last_sequence b)
IsBegun b writer _ = Unit {0}

begin-IsBegun :
    (address : ℕ) (b : Buffer) (writer : ℕ)
    → IsValid b
    → IsBegun b writer (begin address (some b) writer)
unfolding begin
begin-IsBegun address b writer v = rw (check-ok v) (
    if_elim (IsBegun b writer) (writer == 0) (λ _. tt)
      (λ given.
        if_elim (IsBegun b writer) (not (b.writer == 0)) (λ _. tt)
          (λ _.
            if_elim (IsBegun b writer) (not (valid_output address b writer writer_bytes)) (λ _. tt)
              (λ _.
                if_elim (IsBegun b writer) (not (at b.readers (next_slot b) == 0)) (λ _. tt)
                  (λ free. (
                    begun-IsValid v writer (ground (arith, free)),
                    ground (arith, given),
                    refl,
                    refl,
                    refl,
                    refl,
                    refl,
                    refl,
                  ))))))

publish_accepts :
    (c : Buffer) (writer : ℕ) (held : Writer) (size timestamp : ℕ)
    → IsValid c
    → 0 < writer
    → c.writer ≡ writer
    → held.location ≡ at c.slots c.writing
    → held.capacity ≡ c.capacity
    → size ≤ c.capacity
    → (last_sequence c == size_max) ≡ false
    → publish (some c) writer held size timestamp
      ≡ (ok, some (announced c size timestamp), some no_writer)
unfolding publish valid_writer
publish_accepts c writer held size timestamp v given writes location capacity fits below =
    let some_writer : (writer == 0) ≡ false = ground (arith, given) in
    let same_writer : (c.writer == writer) ≡ true = ground (arith, writes) in
    let same_location : (held.location == at c.slots c.writing) ≡ true = ground (arith, location) in
    let same_capacity : (held.capacity == c.capacity) ≡ true = ground (arith, capacity) in
    let enough : ltb c.capacity size ≡ false = ground (arith, fits) in
    rw (check-ok v, some_writer, same_writer, same_location, same_capacity, enough, below) refl

-- The answer of a publication that is accepted, which shows `bytes` under the next sequence.
abbrev pub IsPublished :
    Buffer → List ℕ → ℕ → ℕ → Foundation × Option Buffer × Option Writer → Type 0
IsPublished b bytes size timestamp r =
    (c : Buffer) × (r ≡ (ok, some c, some no_writer))
    × (latest c
        ≡ some (
          record { size = size; sequence = following (latest b); timestamp = timestamp },
          take size bytes,
        ))

-- After a successful snapshot_buffer_begin on a valid buffer and the writer's stores through its handle,
-- snapshot_buffer_publish with that handle and a size of at most the capacity returns OK, unless the
-- last sequence is UINT32_MAX; what is then published are the bytes stored, of that size, under the
-- sequence that follows the last one, or 1 where nothing was published.
pub publish_begun :
    (address : ℕ) (b b' : Buffer) (writer : ℕ) (held : Writer) (bytes : List ℕ) (size timestamp : ℕ)
    → IsValid b
    → begin address (some b) writer ≡ (ok, some b', some held)
    → size ≤ b.capacity
    → (last_sequence b == size_max) ≡ false
    → IsPublished b bytes size timestamp
        (publish (some (filled b' bytes)) writer held size timestamp)
publish_begun address b b' writer held bytes size timestamp v begun_ok fits below =
    let (v', given, writes, same_capacity, location, capacity, same, same_sequence) : IsBegun b
        writer (ok, some b', some held) =
      subst (IsBegun b writer) begun_ok (begin-IsBegun address b writer v) in
    let c : Buffer = record b' { bytes = put b'.bytes b'.writing bytes } in
    let is_writing : (b'.writer == 0) ≡ false = ground (arith, given, writes) in
    let stores : filled b' bytes ≡ c = rw is_writing refl in
    let valid : IsValid c = subst IsValid stores (filled-IsValid v' bytes) in
    let unchanged : latest c ≡ latest b =
      ap latest (sym stores) ∙ latest-filled address v' bytes ∙ same in
    let accepted =
      publish_accepts c writer held size timestamp valid given writes location capacity
        (omega (arith, fits, same_capacity)) (ap (λ k. k == size_max) same_sequence ∙ below) in
    let shown = latest-announced address valid size timestamp in
    let stored = at-put_self b'.bytes b'.writing bytes v'.writing_in in
    subst (λ d. IsPublished b bytes size timestamp (publish (some d) writer held size timestamp))
      (sym stores)
      (
        announced c size timestamp,
        accepted,
        shown
            ∙ ap₂
                (λ n (l : List ℕ).
                  some (record { size = size; sequence = n; timestamp = timestamp }, take size l))
                (ap following unchanged) stored,
      )
