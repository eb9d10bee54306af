-- ===== src/Snapshot/Inv/Kept.antt =====
-- Every event keeps the invariant of the buffer.
use embedded_library.Prelude.{
  ℕ, ◌≤◌, ◌<◌, ◌≡◌, ◌≢◌, refl, sym, ◌∙◌, ap, Bool, true, false, ◌==◌, if◌then◌else◌, if_elim, List,
  arith,
}
use embedded_library.Foundation.{overlaps}
use embedded_library.Snapshot.{
  Buffer, at, put, begun, next_slot, announced, valid_output, lease_bytes, overlaps_reader,
}
use embedded_library.Snapshot.Steps.{
  Event, binds, begins, fills, publishes, cancels, acquires, releases, filled, step, init_elim,
  begin_elim, publish_elim, cancel_elim, acquire_elim, release_elim,
}
use embedded_library.Snapshot.Inv.{IsValid, at-put, new_buffer-IsValid}

last_two_guards :
    (a b c d : Bool)
    → (if a then false else if b then false else if c then false else if d then false else true)
      ≡ true
    → (c ≡ false) × (d ≡ false)
last_two_guards false false false false e = (refl, refl)
last_two_guards true b c d e = ground (arith, e)
last_two_guards false true c d e = ground (arith, e)
last_two_guards false false true d e = ground (arith, e)
last_two_guards false false false true e = ground (arith, e)

true-ne-false : true ≢ false
true-ne-false e = ground (arith, e)

overlaps_reader-itself : (lease : ℕ) → 0 < lease → overlaps_reader lease lease_bytes lease ≡ true
unfolding overlaps
overlaps_reader-itself lease given = ground (arith, given)

module _ {b : Buffer} (v : IsValid b) where
  next_slot_in : next_slot b ≤ 1
  next_slot_in = ground (arith, v.active_in)

  pub begun-IsValid : (writer : ℕ) → at b.readers (next_slot b) ≡ 0 → IsValid (begun b writer)
  begun-IsValid writer free = record {
    first_set = v.first_set;
    second_set = v.second_set;
    large = v.large;
    active_in = v.active_in;
    writing_in = next_slot_in;
    unread = λ _. free;
    apart = λ _ published. ground (arith, published, v.active_in);
    idle = v.idle;
    distinct = v.distinct;
    fits = v.fits;
  }

  pub filled-IsValid : (bytes : List ℕ) → IsValid (filled b bytes)
  filled-IsValid bytes =
      if_elim IsValid (b.writer == 0) (λ _. v)
        (λ _. record {
          first_set = v.first_set;
          second_set = v.second_set;
          large = v.large;
          active_in = v.active_in;
          writing_in = v.writing_in;
          unread = v.unread;
          apart = v.apart;
          idle = v.idle;
          distinct = v.distinct;
          fits = v.fits;
        })

  announced-IsValid :
      (size timestamp : ℕ) → size ≤ b.capacity → IsValid (announced b size timestamp)
  announced-IsValid size timestamp fits = record {
    first_set = v.first_set;
    second_set = v.second_set;
    large = v.large;
    active_in = v.writing_in;
    writing_in = v.writing_in;
    unread = λ h. absurd (omega (arith, h));
    apart = λ h. absurd (omega (arith, h));
    idle = λ h. (ground (arith, h), ground (arith, h));
    distinct = v.distinct;
    fits = λ _. ground (arith, fits);
  }

  released-IsValid : IsValid (record b { writer = 0 })
  released-IsValid = record {
    first_set = v.first_set;
    second_set = v.second_set;
    large = v.large;
    active_in = v.active_in;
    writing_in = v.writing_in;
    unread = λ h. absurd (omega (arith, h));
    apart = λ h. absurd (omega (arith, h));
    idle = v.idle;
    distinct = v.distinct;
    fits = v.fits;
  }

  -- A lease's address that is accepted is not yet a reader's.
  not_reader :
      (address lease : ℕ)
      → 0 < lease
      → valid_output address b lease lease_bytes ≡ true
      → (b.readers.0 ≢ lease) × (b.readers.1 ≢ lease)
  unfolding valid_output
  not_reader address lease given valid =
      let (first, second) = last_two_guards _ _ _ _ valid in
      let hit = overlaps_reader-itself lease given in
      (
        (λ e. true-ne-false (sym hit ∙ ap (overlaps_reader lease lease_bytes) (sym e) ∙ first)),
        (λ e. true-ne-false (sym hit ∙ ap (overlaps_reader lease lease_bytes) (sym e) ∙ second)),
      )

  pub acquired-IsValid :
      (address lease : ℕ)
      → 0 < lease
      → b.published ≡ true
      → at b.readers b.active ≡ 0
      → valid_output address b lease lease_bytes ≡ true
      → IsValid (record b { readers = put b.readers b.active lease })
  acquired-IsValid address lease given published free valid = record {
    first_set = v.first_set;
    second_set = v.second_set;
    large = v.large;
    active_in = v.active_in;
    writing_in = v.writing_in;
    unread = λ w. ground (
      arith,
      at-put b.readers b.active b.writing lease v.active_in v.writing_in,
      v.unread w,
      v.apart w published,
    );
    apart = v.apart;
    idle = λ e. (ground (arith, published, e), ground (arith, published, e));
    distinct = λ h e. ground (arith, not_reader address lease given valid, free, e, v.active_in);
    fits = v.fits;
  }

  read-IsValid : (slot : ℕ) → slot ≤ 1 → IsValid (record b { readers = put b.readers slot 0 })
  read-IsValid slot inside = record {
    first_set = v.first_set;
    second_set = v.second_set;
    large = v.large;
    active_in = v.active_in;
    writing_in = v.writing_in;
    unread = λ w. ground (arith, at-put b.readers slot b.writing 0 inside v.writing_in, v.unread w);
    apart = v.apart;
    idle = λ e. (ground (arith, v.idle e), ground (arith, v.idle e));
    distinct = λ h e. ground (arith, h, e, v.distinct);
    fits = v.fits;
  }

pub step-IsValid :
    (address : ℕ) (b : Buffer) (event : Event) → IsValid b → IsValid (step address b event)
unfolding step
step-IsValid address b (binds first second capacity bytes) v =
    init_elim IsValid address b v first second capacity bytes
      (λ f s c _ _ _. new_buffer-IsValid first second capacity bytes f s c)
step-IsValid address b (begins writer) v =
    begin_elim IsValid address b v writer (λ _ _ free. begun-IsValid v writer free)
step-IsValid address b (fills bytes) v = filled-IsValid v bytes
step-IsValid address b (publishes writer held size timestamp) v =
    publish_elim IsValid address b v writer held size timestamp
      (λ _ fits _. announced-IsValid v size timestamp fits)
step-IsValid address b (cancels writer held) v =
    cancel_elim IsValid address b v writer held (released-IsValid v)
step-IsValid address b (acquires lease) v =
    acquire_elim IsValid address b v lease (acquired-IsValid v address lease)
step-IsValid address b (releases lease held) v =
    release_elim IsValid address b v lease held (λ slot inside _ _. read-IsValid v slot inside)
