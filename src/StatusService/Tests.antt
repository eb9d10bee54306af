-- ===== src/StatusService/Tests.antt =====
-- Runs of the status service on three slots, of which the middle one is empty.
use embedded_library.Prelude.{
  ℕ, ◌≤◌, ◌≡◌, ◌≢◌, refl, some, List, [], ◌∷◌, ◌==◌, if◌then◌else◌, arith, true, false, ◌&&◌,
}
use embedded_library.Status.{Status, busy, overflow, is_ok}
use embedded_library.StatusService.{
  Record, StatusService, empty_record, find_source, find_slot, find_empty, check, store, report,
}
use embedded_library.StatusService.Search.{count_source}
use embedded_library.StatusService.Inv.{IsValid, report_status}
use embedded_library.StatusService.View.{fault, report_lem}

abbrev recorded : ℕ → Status → Record
recorded id status = record { source_id = id; status = status }

abbrev sample : StatusService
sample = record {
  records = recorded 4 busy ∷ empty_record ∷ recorded 6 overflow ∷ [];
  record_count = 3;
  active_count = 2;
  initialized = true;
}

abbrev blank : StatusService
blank = record { records = []; record_count = 0; active_count = 0; initialized = false }

abbrev storage : List Record
storage = recorded 9 busy ∷ recorded 9 busy ∷ []

sample_unique : (id : ℕ) → id ≢ 0 → count_source id sample.records ≤ 1
unfolding count_source
sample_unique id p = ground arith

sample-IsValid : IsValid sample
unfolding count_source
sample-IsValid = record {
  live = refl;
  sized = refl;
  small = omega arith;
  unique = sample_unique;
  active = refl;
}

report_fills :
    (report (some sample) 5 busy).1
    ≡ some (record sample {
      records = recorded 4 busy ∷ recorded 5 busy ∷ recorded 6 overflow ∷ [];
      active_count = 3;
    })
unfolding report check store find_slot find_empty find_source
report_fills = refl

report_lem_example :
    (s' : StatusService) × (report (some sample) 5 busy ≡ (report_status sample 5, some s'))
    × IsValid s'
    × (fault s' 6
        ≡ (if is_ok (report_status sample 5) && 6 == 5 then some busy else fault sample 6))
report_lem_example = report_lem sample 5 busy 6 sample-IsValid (omega arith) refl (omega arith)
