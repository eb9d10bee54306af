-- ===== src/Snapshot/Tests.antt =====
-- A buffer of two slots of four bytes, and runs of it.
use embedded_library.Prelude.{◌≡◌, refl, true, false, some, List, [], ◌∷◌, arith}
use embedded_library.Foundation.{ok, overlaps}
use embedded_library.Snapshot.{
  Buffer, Writer, Lease, at, check, begin, publish, valid_writer, valid_output, no_info,
}
use embedded_library.Snapshot.Readers.{acquire, release, copy}
use embedded_library.Snapshot.Steps.{Event, begins, fills, publishes, filled, step, run}
use embedded_library.Snapshot.Inv.{IsValid}
use embedded_library.Snapshot.Inv.Kept.{begun-IsValid}
use embedded_library.Snapshot.Latest.{latest, latest_after, step_latest, copied, copy-latest}
use embedded_library.Snapshot.Leases.{lease_lem, ends_in}
use embedded_library.Snapshot.Publish.{IsPublished, publish_begun}

-- The buffer after one publication of three bytes.
abbrev shown : Buffer
shown = record {
  slots = (4096, 8192);
  capacity = 4;
  active = 0;
  writing = 0;
  published = true;
  writer = 0;
  readers = (0, 0);
  info = (record { size = 3; sequence = 1; timestamp = 77 }, no_info);
  bytes = (1 ∷ 2 ∷ 3 ∷ 0 ∷ [], 0 ∷ 0 ∷ 0 ∷ 0 ∷ []);
}

abbrev leased : Buffer
leased = record shown { readers = (128, 0) }

abbrev writing : Buffer
writing = record shown { writing = 1; writer = 256 }

abbrev handle : Writer
handle = record { location = 8192; capacity = 4 }

abbrev lease : Lease
lease = record { location = 4096; size = 3; sequence = 1; timestamp = 77 }

shown-IsValid : IsValid shown
shown-IsValid = record {
  first_set = omega arith;
  second_set = omega arith;
  large = omega arith;
  active_in = omega arith;
  writing_in = omega arith;
  unread = λ h. absurd (omega (arith, h));
  apart = λ h. absurd (omega (arith, h));
  idle = λ e. (refl, refl);
  distinct = λ h. absurd (omega (arith, h));
  fits = λ _. omega arith;
}

-- A turn of the writer, and the reader's release of the first snapshot.
abbrev turn : List Event
turn = begins 256 ∷ fills (9 ∷ 8 ∷ 7 ∷ 6 ∷ []) ∷ publishes 256 handle 4 78 ∷ begins 256 ∷ []

acquires_shown : acquire 512 (some shown) 128 ≡ (ok, some leased, some lease)
unfolding acquire check valid_output overlaps
acquires_shown = refl

begins_shown : begin 512 (some shown) 256 ≡ (ok, some writing, some handle)
unfolding begin check valid_output overlaps
begins_shown = refl

turn_publishes :
    latest (run 512 leased turn)
    ≡ some (record { size = 4; sequence = 2; timestamp = 78 }, 9 ∷ 8 ∷ 7 ∷ 6 ∷ [])
unfolding run step begin publish check valid_writer valid_output overlaps
turn_publishes = refl

keeps_lease : ends_in 128 turn ≡ false
unfolding ends_in
keeps_lease = refl

lease_lem_example :
    (at (run 512 leased turn).bytes 0 ≡ 1 ∷ 2 ∷ 3 ∷ 0 ∷ [])
    × (at (run 512 leased turn).slots 0 ≡ 4096)
    × ((release (some (run 512 leased turn)) 128 lease).0 ≡ ok)
lease_lem_example =
    lease_lem 512 shown leased 128 lease turn shown-IsValid acquires_shown keeps_lease

writing-IsValid : IsValid writing
writing-IsValid = begun-IsValid shown-IsValid 256 refl

step_latest_example :
    (latest (step 512 writing (publishes 256 handle 4 78))
      ≡ latest_after 512 writing (publishes 256 handle 4 78))
    × IsValid (step 512 writing (publishes 256 handle 4 78))
step_latest_example = step_latest 512 writing (publishes 256 handle 4 78) writing-IsValid

result_accepted : valid_output 512 shown 1024 12 ≡ true
unfolding valid_output overlaps
result_accepted = refl

output_accepted : valid_output 512 shown 2048 8 ≡ true
unfolding valid_output overlaps
output_accepted = refl

outputs_apart : overlaps 2048 8 1024 12 ≡ false
unfolding overlaps
outputs_apart = refl

copy-latest_example : copy 512 (some shown) 2048 8 1024 ≡ copied 8 (latest shown)
copy-latest_example =
    copy-latest 512 shown 2048 8 1024 shown-IsValid (omega arith) result_accepted output_accepted
      outputs_apart

publish_begun_example :
    IsPublished shown
      (9 ∷ 8 ∷ 7 ∷ 6 ∷ [])
      4
      78
      (publish (some (filled writing (9 ∷ 8 ∷ 7 ∷ 6 ∷ []))) 256 handle 4 78)
publish_begun_example =
    publish_begun 512 shown writing 256 handle (9 ∷ 8 ∷ 7 ∷ 6 ∷ []) 4 78 shown-IsValid begins_shown
      (omega arith) refl
