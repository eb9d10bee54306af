-- ===== src/Snapshot/Latest.antt =====
-- What the buffer has published, and how the events change it.
use embedded_library.Prelude.{
  ℕ, zero, suc, ◌+◌, ◌≤◌, ◌<◌, ◌≡◌, inl, inr, refl, ap, true, false, not, ◌||◌, ◌==◌, if◌then◌else◌,
  if_elim, ltb, size_max, Option, none, some, or_else, List, take, arith, Bool-cases,
}
use embedded_library.Foundation.{Foundation, ok, empty, buffer_too_small, is_fine, overlaps}
use embedded_library.Snapshot.{
  Buffer, Info, Writer, at, put, init, buffer_bytes, announced, valid_output, info_bytes,
  last_sequence, publish, valid_writer,
}
use embedded_library.Snapshot.Readers.{copy}
use embedded_library.Snapshot.Steps.{
  Event, binds, begins, fills, publishes, cancels, acquires, releases, filled, step, begin_elim,
  cancel_elim, acquire_elim, release_elim,
}
use embedded_library.Snapshot.Inv.{IsValid, check-ok, other}
use embedded_library.Snapshot.Inv.Kept.{step-IsValid}

-- The info and the bytes of the snapshot that was published last.
abbrev pub Snapshot : Type 0
Snapshot = Option (Info × List ℕ)

abbrev pub latest : Buffer → Snapshot
latest b =
    if b.published
    then some (at b.info b.active, take (at b.info b.active).size (at b.bytes b.active))
    else none

-- The sequence that follows a snapshot.
abbrev pub following : Snapshot → ℕ
following none = 1
following (some (info, bytes)) = info.sequence + 1

-- A publication that is accepted: the bytes that the writer stored, under the next sequence. A binding
-- that is accepted forgets the snapshot, and nothing else touches it.
abbrev pub latest_after : ℕ → Buffer → Event → Snapshot
latest_after address b (publishes writer held size timestamp) =
    if is_fine (publish (some b) writer held size timestamp).0
    then some (
      record { size = size; sequence = following (latest b); timestamp = timestamp },
      take size (at b.bytes b.writing),
    )
    else latest b
latest_after address b (binds first second capacity bytes) =
    if is_fine (init address (some b) first second capacity bytes).0 then none else latest b
latest_after address b _ = latest b

sequence_follows : (b : Buffer) → last_sequence b + 1 ≡ following (latest b)
sequence_follows b = elim (Bool-cases b.published) [ inl e ↦ rw e refl | inr e ↦ rw e refl ]

pub at-put_self {ℓ} :
    {A : Type ℓ} (pair : A × A) (i : ℕ) (value : A) → i ≤ 1 → at (put pair i value) i ≡ value
at-put_self pair zero value l = refl
at-put_self pair (suc zero) value l = refl
at-put_self pair (suc (suc i)) value l = absurd (omega (arith, l))

module _ (address : ℕ) {b : Buffer} (v : IsValid b) where
  abbrev new_snapshot : ℕ → ℕ → Snapshot
  new_snapshot size timestamp = some (
    record { size = size; sequence = following (latest b); timestamp = timestamp },
    take size (at b.bytes b.writing),
  )

  pub latest-announced :
      (size timestamp : ℕ) → latest (announced b size timestamp) ≡ new_snapshot size timestamp
  latest-announced size timestamp =
      let stored =
        at-put_self b.info b.writing
          record { size = size; sequence = last_sequence b + 1; timestamp = timestamp }
          v.writing_in in
      rw (stored, sequence_follows b) refl

  latest-publish :
      (writer : ℕ) (held : Writer) (size timestamp : ℕ)
      → latest (or_else (publish (some b) writer held size timestamp).1 b)
        ≡ latest_after address b (publishes writer held size timestamp)
  unfolding publish
  latest-publish writer held size timestamp = rw (check-ok v) (
      if_elim P (writer == 0) (λ _. refl)
        (λ _.
          if_elim P (not (valid_writer b writer held)) (λ _. refl)
            (λ _.
              if_elim P (ltb b.capacity size) (λ _. refl)
                (λ _.
                  if_elim P (last_sequence b == size_max) (λ _. refl)
                    (λ _. latest-announced size timestamp)))))
    where
      P : Foundation × Option Buffer × Option Writer → Type 0
      P r = latest (or_else r.1 b) ≡ (if is_fine r.0 then new_snapshot size timestamp else latest b)

  latest-init :
      (first second capacity : ℕ) (bytes : List ℕ × List ℕ)
      → latest (or_else (init address (some b) first second capacity bytes).1 b)
        ≡ latest_after address b (binds first second capacity bytes)
  unfolding init
  latest-init first second capacity bytes =
      if_elim P
        (first == 0
          || second == 0
          || capacity == 0
          || overlaps first capacity second capacity
          || overlaps address buffer_bytes first capacity
          || overlaps address buffer_bytes second capacity)
        (λ _. refl)
        (λ _.
          if_elim P (not (b.writer == 0) || not (b.readers.0 == 0) || not (b.readers.1 == 0))
            (λ _. refl) (λ _. refl))
    where
      P : Foundation × Option Buffer → Type 0
      P r = latest (or_else r.1 b) ≡ (if is_fine r.0 then none else latest b)

  pub latest-filled : (bytes : List ℕ) → latest (filled b bytes) ≡ latest b
  latest-filled bytes =
      if_elim (λ (c : Buffer). latest c ≡ latest b) (b.writer == 0) (λ _. refl)
        (λ w. elim (Bool-cases b.published) [
          | inl e ↦
              let apart = v.apart (ground (arith, w)) e in
              let kept =
                other b.bytes b.writing b.active bytes v.writing_in v.active_in
                  (λ same. absurd (omega (arith, apart, same))) in
              ap
                (λ x.
                  if b.published
                  then some (at b.info b.active, take (at b.info b.active).size x)
                  else none)
                kept
          | inr e ↦ rw e refl
        ])

-- On a valid buffer, with any arguments: a call of publish that returns OK makes the bytes that the
-- writer stored, up to the size given, the published snapshot, under the sequence that follows the
-- last one; a call of init that returns OK forgets the snapshot; every other call, and a writer's
-- store, leaves it as it was. The buffer stays valid.
pub step_latest :
    (address : ℕ) (b : Buffer) (event : Event)
    → IsValid b
    → (latest (step address b event) ≡ latest_after address b event)
      × IsValid (step address b event)
unfolding step
step_latest address b event v = (changes event, step-IsValid address b event v)
  where
    Same : Buffer → Type 0
    Same c = latest c ≡ latest b

    changes : (event : Event) → latest (step address b event) ≡ latest_after address b event
    changes (binds first second capacity bytes) = latest-init address v first second capacity bytes
    changes (begins writer) = begin_elim Same address b refl writer (λ _ _ _. refl)
    changes (fills bytes) = latest-filled address v bytes
    changes (publishes writer held size timestamp) =
        latest-publish address v writer held size timestamp
    changes (cancels writer held) = cancel_elim Same address b refl writer held refl
    changes (acquires lease) = acquire_elim Same address b refl lease (λ _ _ _ _. refl)
    changes (releases lease held) = release_elim Same address b refl lease held (λ _ _ _ _. refl)

-- What a copy into a buffer of some capacity is to answer.
abbrev pub copied : ℕ → Snapshot → Foundation × Option (List ℕ) × Option Info
copied capacity none = (empty, none, none)
copied capacity (some (info, bytes)) =
    if ltb capacity info.size then (buffer_too_small, none, none) else (ok, some bytes, some info)

-- On a valid buffer, with outputs that overlap neither the buffer, its slots, its handles nor each other:
-- snapshot_buffer_copy returns the error of an empty buffer while nothing is published, that of a buffer
-- too small for what is published, and else OK, the published bytes and their info.
pub copy-latest :
    (address : ℕ) (b : Buffer) (output capacity result : ℕ)
    → IsValid b
    → 0 < result
    → valid_output address b result info_bytes ≡ true
    → valid_output address b output capacity ≡ true
    → overlaps output capacity result info_bytes ≡ false
    → copy address (some b) output capacity result ≡ copied capacity (latest b)
unfolding copy
copy-latest address b output capacity result v given valid_result valid_bytes apart =
    let some_result : (result == 0) ≡ false = ground (arith, given) in
    elim (Bool-cases b.published) [
      | inl e ↦ rw (check-ok v, some_result, valid_result, valid_bytes, apart, e) refl
      | inr e ↦ rw (check-ok v, some_result, valid_result, valid_bytes, apart, e) refl
    ]
