-- ===== src/Snapshot/Inv.antt =====
-- The invariant of a buffer that is bound, and that every event keeps it.
pub mod Kept
use embedded_library.Prelude.{
  ℕ, zero, suc, ◌+◌, ◌≤◌, ◌<◌, ◌≡◌, ◌≢◌, refl, sym, ◌∙◌, ap, Bool, ◌||◌, not, true, false, ◌==◌,
  if◌then◌else◌, if_elim, subst, Option, some, List, arith,
}
use Prim.{Unit, tt}
use embedded_library.Foundation.{Foundation, ok, overlaps}
use embedded_library.Snapshot.{
  Buffer, init, buffer_bytes, check, at, put, new_buffer, begun, next_slot, announced, valid_output,
  lease_bytes, overlaps_reader,
}
use embedded_library.Snapshot.Steps.{
  Event, binds, begins, fills, publishes, cancels, acquires, releases, filled, step, init_elim,
  begin_elim, publish_elim, cancel_elim, acquire_elim, release_elim,
}

-- While a writer fills a slot, no reader holds it and it is not the one published; before the first
-- publication no reader holds a slot; no lease holds both slots; and the sequence is above 0 once
-- published.
pub record IsValid (b : Buffer) : Type 0 where
  pub first_set : 0 < b.slots.0
  pub second_set : 0 < b.slots.1
  pub large : 0 < b.capacity
  pub active_in : b.active ≤ 1
  pub writing_in : b.writing ≤ 1
  pub unread : 0 < b.writer → at b.readers b.writing ≡ 0
  pub apart : 0 < b.writer → b.published ≡ true → b.writing + b.active ≡ 1
  pub idle : b.published ≡ false → (b.readers.0 ≡ 0) × (b.readers.1 ≡ 0)
  pub distinct : 0 < b.readers.0 → b.readers.0 ≢ b.readers.1
  pub fits : b.published ≡ true → (at b.info b.active).size ≤ b.capacity

pub check-ok : {b : Buffer} → IsValid b → check (some b) ≡ ok
unfolding check
check-ok v = ground (arith, v.first_set, v.second_set, v.large, v.active_in, v.writing_in)

pub at-put {ℓ} :
    {A : Type ℓ} (pair : A × A) (i j : ℕ) (value : A)
    → i ≤ 1
    → j ≤ 1
    → at (put pair i value) j ≡ (if i == j then value else at pair j)
at-put pair zero zero value l m = refl
at-put pair zero (suc zero) value l m = refl
at-put pair (suc zero) zero value l m = refl
at-put pair (suc zero) (suc zero) value l m = refl
at-put pair zero (suc (suc j)) value l m = absurd (omega (arith, m))
at-put pair (suc (suc i)) j value l m = absurd (omega (arith, l))
at-put pair (suc zero) (suc (suc j)) value l m = absurd (omega (arith, m))

-- What is put in one slot leaves the other.
pub other {ℓ} :
    {A : Type ℓ} (pair : A × A) (i j : ℕ) (value : A)
    → i ≤ 1
    → j ≤ 1
    → i ≢ j
    → at (put pair i value) j ≡ at pair j
other pair i j value l m differ =
    let apart : (i == j) ≡ false = ground (arith, differ) in
    at-put pair i j value l m ∙ ap (λ t. if t then value else at pair j) apart

pub new_buffer-IsValid :
    (first second capacity : ℕ) (bytes : List ℕ × List ℕ)
    → 0 < first
    → 0 < second
    → 0 < capacity
    → IsValid (new_buffer first second capacity bytes)
new_buffer-IsValid first second capacity bytes f s c = record {
  first_set = f;
  second_set = s;
  large = c;
  active_in = omega arith;
  writing_in = omega arith;
  unread = λ _. refl;
  apart = λ h. absurd (omega (arith, h));
  idle = λ _. (refl, refl);
  distinct = λ h. absurd (omega (arith, h));
  fits = λ _. omega arith;
}

abbrev IsBound : Foundation × Option Buffer → Type 0
IsBound (ok, some b) = IsValid b
IsBound _ = Unit {0}

-- When snapshot_buffer_init returns OK, on any buffer, the buffer is valid.
pub init-IsValid :
    (address : ℕ) (b b' : Buffer) (first second capacity : ℕ) (bytes : List ℕ × List ℕ)
    → init address (some b) first second capacity bytes ≡ (ok, some b')
    → IsValid b'
unfolding init
init-IsValid address b b' first second capacity bytes e = subst IsBound e (
    if_elim IsBound
      (first == 0
        || second == 0
        || capacity == 0
        || overlaps first capacity second capacity
        || overlaps address buffer_bytes first capacity
        || overlaps address buffer_bytes second capacity)
      (λ _. tt)
      (λ given.
        if_elim IsBound (not (b.writer == 0) || not (b.readers.0 == 0) || not (b.readers.1 == 0))
          (λ _. tt)
          (λ _.
            new_buffer-IsValid first second capacity bytes (ground (arith, given))
              (ground (arith, given)) (ground (arith, given)))))
