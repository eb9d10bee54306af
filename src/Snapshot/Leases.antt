-- ===== src/Snapshot/Leases.antt =====
-- A lease reads the same bytes until it is released, whatever the writers do.
use embedded_library.Prelude.{
  ℕ, zero, suc, ◌≤◌, ◌<◌, ◌≡◌, ◌≢◌, refl, sym, ◌∙◌, ap, ap₂, subst, Bool, true, false, not, ◌||◌,
  ◌==◌, if_elim, Option, some, List, [], ◌∷◌, arith,
}
use Prim.{Unit, tt}
use embedded_library.Foundation.{Foundation, ok}
use embedded_library.Snapshot.{Buffer, Info, Lease, at, valid_output, lease_bytes}
use embedded_library.Snapshot.Readers.{acquire, release, release_loop, lease_of, is_intact}
use embedded_library.Snapshot.Steps.{
  Event, binds, begins, fills, publishes, cancels, acquires, releases, step, run, init_elim,
  begin_elim, publish_elim, cancel_elim, acquire_elim, release_elim,
}
use embedded_library.Snapshot.Inv.{IsValid, check-ok, at-put, other}
use embedded_library.Snapshot.Inv.Kept.{acquired-IsValid, step-IsValid}

-- Whether an event, or one of a list of them, is a call of release with this lease.
abbrev pub ends : ℕ → Event → Bool
ends lease (releases l held) = l == lease
ends lease _ = false

unfoldable pub ends_in : ℕ → List Event → Bool
ends_in lease [] = false
ends_in lease (event ∷ events) = ends lease event || ends_in lease events

-- A slot, its reader and what the reader sees are in `b'` what they are in `b`.
pub record IsHeld (b : Buffer) (slot : ℕ) (b' : Buffer) : Type 0 where
  pub reader : at b'.readers slot ≡ at b.readers slot
  pub info : at b'.info slot ≡ at b.info slot
  pub bytes : at b'.bytes slot ≡ at b.bytes slot
  pub location : at b'.slots slot ≡ at b.slots slot

held_self : (b : Buffer) (slot : ℕ) → IsHeld b slot b
held_self b slot = record { reader = refl; info = refl; bytes = refl; location = refl }

IsHeld_trans : {b c d : Buffer} {slot : ℕ} → IsHeld b slot c → IsHeld c slot d → IsHeld b slot d
IsHeld_trans h k = record {
  reader = k.reader ∙ h.reader;
  info = k.info ∙ h.info;
  bytes = k.bytes ∙ h.bytes;
  location = k.location ∙ h.location;
}

module _ {b : Buffer} (v : IsValid b) (slot : ℕ) (inside : slot ≤ 1)
    (read : 0 < at b.readers slot) where
  -- The slot that is read is not the one that a writer fills.
  not_writing : 0 < b.writer → b.writing ≢ slot
  not_writing w e = ground (arith, read, v.unread w, ap (at b.readers) e)

  step-IsHeld :
      (address : ℕ) (event : Event)
      → ends (at b.readers slot) event ≡ false
      → IsHeld b slot (step address b event)
  unfolding step
  step-IsHeld address (binds first second capacity bytes) e =
      init_elim (IsHeld b slot) address b (held_self b slot) first second capacity bytes
        (λ _ _ _ _ none₁ none₂. absurd (ground (arith, read, none₁, none₂)))
  step-IsHeld address (begins writer) e =
      begin_elim (IsHeld b slot) address b (held_self b slot) writer
        (λ _ _ _. record { reader = refl; info = refl; bytes = refl; location = refl })
  step-IsHeld address (fills bytes) e =
      if_elim (IsHeld b slot) (b.writer == 0) (λ _. held_self b slot)
        (λ w. record {
          reader = refl;
          info = refl;
          bytes =
              other b.bytes b.writing slot bytes v.writing_in inside
                (not_writing (ground (arith, w)));
          location = refl;
        })
  step-IsHeld address (publishes writer held size timestamp) e =
      publish_elim (IsHeld b slot) address b (held_self b slot) writer held size timestamp (λ w _ _.
        record {
          reader = refl;
          info = other b.info b.writing slot _ v.writing_in inside (not_writing w);
          bytes = refl;
          location = refl;
        })
  step-IsHeld address (cancels writer held) e =
      cancel_elim (IsHeld b slot) address b (held_self b slot) writer held
        record { reader = refl; info = refl; bytes = refl; location = refl }
  step-IsHeld address (acquires lease) e =
      acquire_elim (IsHeld b slot) address b (held_self b slot) lease (λ _ _ free _. record {
        reader =
            other b.readers b.active slot lease v.active_in inside
              (λ same. ground (arith, free, read, ap (at b.readers) same));
        info = refl;
        bytes = refl;
        location = refl;
      })
  step-IsHeld address (releases lease held) e =
      release_elim (IsHeld b slot) address b (held_self b slot) lease held (λ s s_in _ found.
        record {
          reader =
              other b.readers s slot 0 s_in inside
                (λ same. ground (arith, e, found, ap (at b.readers) same));
          info = refl;
          bytes = refl;
          location = refl;
        })

-- While no call releases its lease, a slot that is read keeps its reader, its info and its bytes over
-- any history of calls and of stores by the writers, and the buffer stays valid.
pub run-IsHeld :
    (address : ℕ) (b : Buffer) (slot : ℕ) (events : List Event)
    → IsValid b
    → slot ≤ 1
    → 0 < at b.readers slot
    → ends_in (at b.readers slot) events ≡ false
    → IsValid (run address b events) × IsHeld b slot (run address b events)
unfolding run ends_in
run-IsHeld address b slot [] v inside read e = (v, held_self b slot)
run-IsHeld address b slot (event ∷ events) v inside read e =
    let next = step address b event in
    let now : ends (at b.readers slot) event ≡ false = ground (arith, e) in
    let later : ends_in (at b.readers slot) events ≡ false = ground (arith, e) in
    let held = step-IsHeld v slot inside read address event now in
    let (valid, held') =
      run-IsHeld address next slot events (step-IsValid address b event v) inside
        (subst (λ (r : ℕ). 0 < r) (sym held.reader) read)
        (subst (λ r. ends_in r events ≡ false) (sym held.reader) later) in
    (valid, IsHeld_trans held held')

abbrev IsTaken : Buffer → ℕ → Foundation × Option Buffer × Option Lease → Type 0
IsTaken b lease (ok, some b', some held) =
    IsValid b'
    × (0 < lease)
    × (at b'.readers b.active ≡ lease)
    × (held ≡ lease_of b' b.active)
    × (at b'.bytes b.active ≡ at b.bytes b.active)
IsTaken b lease _ = Unit {0}

acquire-IsTaken :
    (address : ℕ) (b : Buffer) (lease : ℕ)
    → IsValid b
    → IsTaken b lease (acquire address (some b) lease)
unfolding acquire
acquire-IsTaken address b lease v = rw (check-ok v) (
    if_elim (IsTaken b lease) (lease == 0) (λ _. tt)
      (λ given.
        if_elim (IsTaken b lease) (not b.published) (λ _. tt)
          (λ published.
            if_elim (IsTaken b lease) (not (at b.readers b.active == 0)) (λ _. tt)
              (λ free.
                if_elim (IsTaken b lease) (not (valid_output address b lease lease_bytes)) (λ _. tt)
                  (λ valid.
                    let some_lease : 0 < lease = ground (arith, given) in
                    (
                      acquired-IsValid v address lease some_lease (ground (arith, published))
                          (ground (arith, free)) (ground (arith, valid)),
                      some_lease,
                      ground
                          (arith, at-put b.readers b.active b.active lease v.active_in v.active_in),
                      refl,
                      refl,
                    ))))))

==_self : (a : ℕ) → (a == a) ≡ true
==_self a = ground arith

intact_self : (b : Buffer) (slot : ℕ) → is_intact b slot (lease_of b slot) ≡ true
intact_self b slot = simp (
  ==_self (at b.slots slot),
  ==_self (at b.info slot).size,
  ==_self (at b.info slot).sequence,
  ==_self (at b.info slot).timestamp,
)

release-ok :
    (b : Buffer) (slot lease : ℕ)
    → IsValid b
    → slot ≤ 1
    → 0 < lease
    → at b.readers slot ≡ lease
    → (release (some b) lease (lease_of b slot)).0 ≡ ok
unfolding release release_loop
release-ok b zero lease v inside given read =
    let some_lease : (lease == 0) ≡ false = ground (arith, given) in
    let found : (b.readers.0 == lease) ≡ true = ground (arith, read) in
    let intact = intact_self b 0 in rw (check-ok v, some_lease, found, intact) refl
release-ok b (suc zero) lease v inside given read =
    let some_lease : (lease == 0) ≡ false = ground (arith, given) in
    let not_first : (b.readers.0 == lease) ≡ false = ground (arith, read, given, v.distinct) in
    let found : (b.readers.1 == lease) ≡ true = ground (arith, read) in
    let intact = intact_self b 1 in rw (check-ok v, some_lease, not_first, found, intact) refl
release-ok b (suc (suc slot)) lease v inside given read = absurd (omega (arith, inside))

abbrev lease_with : ℕ → Info → Lease
lease_with location info = record {
  location = location;
  size = info.size;
  sequence = info.sequence;
  timestamp = info.timestamp;
}

-- After a successful snapshot_buffer_acquire on a valid buffer, and any history of calls and of stores
-- by the writers in which no call releases the lease: the slot still holds the bytes it held, the
-- lease points to it, and a release of the lease with the contents it got returns OK.
pub lease_lem :
    (address : ℕ) (b b' : Buffer) (lease : ℕ) (held : Lease) (events : List Event)
    → IsValid b
    → acquire address (some b) lease ≡ (ok, some b', some held)
    → ends_in lease events ≡ false
    → (at (run address b' events).bytes b.active ≡ at b.bytes b.active)
      × (at (run address b' events).slots b.active ≡ held.location)
      × ((release (some (run address b' events)) lease held).0 ≡ ok)
lease_lem address b b' lease held events v acquired kept =
    let (v', given, read, is_held, same) : IsTaken b lease (ok, some b', some held) =
      subst (IsTaken b lease) acquired (acquire-IsTaken address b lease v) in
    let after = run address b' events in
    let (valid, stays) =
      run-IsHeld address b' b.active events v' v.active_in
        (subst (λ (r : ℕ). 0 < r) (sym read) given)
        (subst (λ r. ends_in r events ≡ false) (sym read) kept) in
    let contents : lease_of after b.active ≡ held =
      ap₂ lease_with stays.location stays.info ∙ sym is_held in
    (
      stays.bytes ∙ same,
      stays.location ∙ sym (ap (λ (l : Lease). l.location) is_held),
      subst (λ l. (release (some after) lease l).0 ≡ ok) contents
          (release-ok after b.active lease valid v.active_in given (stays.reader ∙ read)),
    )
