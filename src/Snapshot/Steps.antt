-- ===== src/Snapshot/Steps.antt =====
-- The events of a buffer, and for each the one change it makes when its guards let it.
use embedded_library.Prelude.{
  ℕ, ◌≤◌, ◌<◌, ◌≡◌, true, false, not, ◌||◌, ◌==◌, if◌then◌else◌, if_elim, ltb, ltb→ge, size_max,
  Option, some, or_else, List, [], ◌∷◌, arith,
}
use embedded_library.Foundation.{Foundation, is_fine, overlaps}
use embedded_library.Snapshot.{
  Buffer, Writer, Lease, check, at, put, init, new_buffer, buffer_bytes, begin, begun, next_slot,
  valid_output, writer_bytes, publish, announced, valid_writer, last_sequence, cancel, lease_bytes,
}
use embedded_library.Snapshot.Readers.{acquire, release, release_loop, is_intact}

-- The calls that change the buffer, and the client's stores through the writer's handle: the bytes that
-- the slot then holds.
pub data Event : Type 0 where
  binds : ℕ → ℕ → ℕ → List ℕ × List ℕ → Event
  begins : ℕ → Event
  fills : List ℕ → Event
  publishes : ℕ → Writer → ℕ → ℕ → Event
  cancels : ℕ → Writer → Event
  acquires : ℕ → Event
  releases : ℕ → Lease → Event

abbrev pub filled : Buffer → List ℕ → Buffer
filled b bytes = if b.writer == 0 then b else record b { bytes = put b.bytes b.writing bytes }

unfoldable pub step : ℕ → Buffer → Event → Buffer
step address b (binds first second capacity bytes) =
    or_else (init address (some b) first second capacity bytes).1 b
step address b (begins writer) = or_else (begin address (some b) writer).1 b
step address b (fills bytes) = filled b bytes
step address b (publishes writer held size timestamp) =
    or_else (publish (some b) writer held size timestamp).1 b
step address b (cancels writer held) = or_else (cancel (some b) writer held).1 b
step address b (acquires lease) = or_else (acquire address (some b) lease).1 b
step address b (releases lease held) = or_else (release (some b) lease held).1 b

unfoldable pub run : ℕ → Buffer → List Event → Buffer
run address b [] = b
run address b (event ∷ events) = run address (step address b event) events

-- What holds of the buffer as it was, and of the buffer after an accepted call, holds after the call.
module _ {ℓ} (Q : Buffer → Type ℓ) (address : ℕ) (b : Buffer) (same : Q b) where
  pub init_elim :
      (first second capacity : ℕ) (bytes : List ℕ × List ℕ)
      → (0 < first
          → 0 < second
          → 0 < capacity
          → b.writer ≡ 0
          → b.readers.0 ≡ 0
          → b.readers.1 ≡ 0
          → Q (new_buffer first second capacity bytes))
      → Q (or_else (init address (some b) first second capacity bytes).1 b)
  unfolding init
  init_elim first second capacity bytes accepted =
      if_elim (λ (r : Foundation × Option Buffer). Q (or_else r.1 b))
        (first == 0
          || second == 0
          || capacity == 0
          || overlaps first capacity second capacity
          || overlaps address buffer_bytes first capacity
          || overlaps address buffer_bytes second capacity)
        (λ _. same)
        (λ given.
          if_elim (λ (r : Foundation × Option Buffer). Q (or_else r.1 b))
            (not (b.writer == 0) || not (b.readers.0 == 0) || not (b.readers.1 == 0)) (λ _. same)
            (λ idle.
              accepted (ground (arith, given)) (ground (arith, given)) (ground (arith, given))
                (ground (arith, idle)) (ground (arith, idle)) (ground (arith, idle))))

  abbrev Then {κ} : {A : Type κ} → Foundation × Option Buffer × A → Type ℓ
  Then r = Q (or_else r.1 b)

  pub begin_elim :
      (writer : ℕ)
      → (0 < writer → b.writer ≡ 0 → at b.readers (next_slot b) ≡ 0 → Q (begun b writer))
      → Q (or_else (begin address (some b) writer).1 b)
  unfolding begin
  begin_elim writer accepted =
      if_elim Then (not (is_fine (check (some b)))) (λ _. same)
        (λ _.
          if_elim Then (writer == 0) (λ _. same)
            (λ given.
              if_elim Then (not (b.writer == 0)) (λ _. same)
                (λ idle.
                  if_elim Then (not (valid_output address b writer writer_bytes)) (λ _. same)
                    (λ _.
                      if_elim Then (not (at b.readers (next_slot b) == 0)) (λ _. same)
                        (λ free.
                          accepted (ground (arith, given)) (ground (arith, idle))
                            (ground (arith, free)))))))

  pub publish_elim :
      (writer : ℕ) (held : Writer) (size timestamp : ℕ)
      → (0 < b.writer
          → size ≤ b.capacity
          → (last_sequence b == size_max) ≡ false
          → Q (announced b size timestamp))
      → Q (or_else (publish (some b) writer held size timestamp).1 b)
  unfolding publish valid_writer
  publish_elim writer held size timestamp accepted =
      if_elim Then (not (is_fine (check (some b)))) (λ _. same)
        (λ _.
          if_elim Then (writer == 0) (λ _. same)
            (λ given.
              if_elim Then (not (valid_writer b writer held)) (λ _. same)
                (λ valid.
                  if_elim Then (ltb b.capacity size) (λ _. same)
                    (λ fits.
                      if_elim Then (last_sequence b == size_max) (λ _. same)
                        (λ below.
                          accepted (ground (arith, given, valid)) (ltb→ge b.capacity size fits)
                            below)))))

  pub cancel_elim :
      (writer : ℕ) (held : Writer)
      → Q (record b { writer = 0 })
      → Q (or_else (cancel (some b) writer held).1 b)
  unfolding cancel
  cancel_elim writer held accepted =
      if_elim Then (not (is_fine (check (some b)))) (λ _. same)
        (λ _.
          if_elim Then (writer == 0) (λ _. same)
            (λ _. if_elim Then (not (valid_writer b writer held)) (λ _. same) (λ _. accepted)))

  pub acquire_elim :
      (lease : ℕ)
      → (0 < lease
          → b.published ≡ true
          → at b.readers b.active ≡ 0
          → valid_output address b lease lease_bytes ≡ true
          → Q (record b { readers = put b.readers b.active lease }))
      → Q (or_else (acquire address (some b) lease).1 b)
  unfolding acquire
  acquire_elim lease accepted =
      if_elim Then (not (is_fine (check (some b)))) (λ _. same)
        (λ _.
          if_elim Then (lease == 0) (λ _. same)
            (λ given.
              if_elim Then (not b.published) (λ _. same)
                (λ published.
                  if_elim Then (not (at b.readers b.active == 0)) (λ _. same)
                    (λ free.
                      if_elim Then (not (valid_output address b lease lease_bytes)) (λ _. same)
                        (λ valid.
                          accepted (ground (arith, given)) (ground (arith, published))
                            (ground (arith, free)) (ground (arith, valid)))))))

  pub release_elim :
      (lease : ℕ) (held : Lease)
      → ((slot : ℕ)
          → slot ≤ 1
          → 0 < lease
          → at b.readers slot ≡ lease
          → Q (record b { readers = put b.readers slot 0 }))
      → Q (or_else (release (some b) lease held).1 b)
  unfolding release release_loop
  release_elim lease held accepted =
      if_elim Then (not (is_fine (check (some b)))) (λ _. same)
        (λ _.
          if_elim Then (lease == 0) (λ _. same)
            (λ given.
              if_elim Then (at b.readers 0 == lease)
                (λ first.
                  if_elim Then (not (is_intact b 0 held)) (λ _. same)
                    (λ _. accepted 0 (omega arith) (ground (arith, given)) (ground (arith, first))))
                (λ _.
                  if_elim Then (at b.readers 1 == lease)
                    (λ second.
                      if_elim Then (not (is_intact b 1 held)) (λ _. same)
                        (λ _.
                          accepted 1 (omega arith) (ground (arith, given))
                            (ground (arith, second))))
                    (λ _. same))))
