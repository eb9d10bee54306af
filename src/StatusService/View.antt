-- ===== src/StatusService/View.antt =====
-- What a client sees of a valid status service: a map from sources to statuses.
use embedded_library.Prelude.{
  ℕ, zero, suc, ◌+◌, ◌-◌, ◌%◌, ◌^◌, ◌<◌, ◌≡◌, ◌≢◌, refl, Option, none, some, List, [], ◌∷◌, length,
  ◌==◌, if◌then◌else◌, arith, true, false, ◌&&◌, ℕ_discrete,
}
use embedded_library.Status.{Status, ok, full, out_of_range, is_ok}
use embedded_library.StatusService.{
  Record, StatusService, find_slot, find_empty, check, store, clear_records, init, report, clear,
  count, get_by_source,
}
use embedded_library.StatusService.Search.{
  count_source, lookup, lookup-find_source, lookup-set_found, lookup-set_new, lookup-set_empty,
  lookup-none, source_at-find_source,
}
use embedded_library.StatusService.Inv.{
  IsValid, report_status, find_slot_lem, find_empty_lem, found, found_empty, found-IsValid,
  new-IsValid, empty-IsValid,
}

abbrev pub fault : StatusService → ℕ → Option Status
fault s id = lookup id s.records

report-valid :
    (s : StatusService) (id : ℕ) (status : Status)
    → IsValid s
    → id ≢ 0
    → is_ok status ≡ false
    → report (some s) id status ≡ (
        if count_source id s.records == 0
        then (if count_source 0 s.records == 0
            then (full, some s)
            else (ok, some (store s (find_empty s) ((s.active_count + 1) % 2 ^ 32) id status)))
        else (ok, some (store s (find_slot s id) s.active_count id status)))
unfolding report check
report-valid s id status v p q = ground (arith, v.live, found v id, found_empty v)

-- What a report of `status` for the source `id` leaves, in one of its three cases.
record Reported (s : StatusService) (id : ℕ) (status : Status) (j : ℕ)
    (r : Status × Option StatusService) : Type 0 where
  next : StatusService
  result : r ≡ (report_status s id, some next)
  valid : IsValid next
  seen : fault next j ≡ (if is_ok (report_status s id) && j == id then some status else fault s j)

report-Reported :
    (s : StatusService) (id : ℕ) (status : Status) (j : ℕ)
    → IsValid s
    → id ≢ 0
    → is_ok status ≡ false
    → j ≢ 0
    → Reported s id status j (report (some s) id status)
unfolding report_status store
report-Reported s id status j v p q h = elim (ℕ_discrete (count_source id s.records) 0) [
  | yes e ↦ elim (ℕ_discrete (count_source 0 s.records) 0) [
    | yes k ↦ record {
      next = s;
      result = ground (arith, report-valid s id status v p q);
      valid = v;
      seen = ground arith;
    }
    | no k ↦ record {
      next = store s (find_empty s) ((s.active_count + 1) % 2 ^ 32) id status;
      result = ground (arith, report-valid s id status v p q);
      valid = new-IsValid v id status p e k;
      seen = ground (arith, find_empty_lem v, lookup-set_new id j s.records status e k h);
    }
  ]
  | no e ↦ record {
    next = store s (find_slot s id) s.active_count id status;
    result = ground (arith, report-valid s id status v p q);
    valid = found-IsValid v id status p e;
    seen = ground (arith, find_slot_lem v id, lookup-set_found id j s.records status e);
  }
]

-- On a valid service, a report of a status other than OK for a source other than 0 returns FULL if the
-- source is new and no slot is empty, else OK; the service stays valid, and on OK the source, and no
-- other one, has the reported status, on FULL every source has the status that it had.
pub report_lem :
    (s : StatusService) (id : ℕ) (status : Status) (j : ℕ)
    → IsValid s
    → id ≢ 0
    → is_ok status ≡ false
    → j ≢ 0
    → (s' : StatusService) × (report (some s) id status ≡ (report_status s id, some s'))
      × IsValid s'
      × (fault s' j ≡ (if is_ok (report_status s id) && j == id then some status else fault s j))
report_lem s id status j v p q h =
    let r = report-Reported s id status j v p q h in (r.next, r.result, r.valid, r.seen)

clear-valid :
    (s : StatusService) (id : ℕ)
    → IsValid s
    → id ≢ 0
    → clear (some s) id ≡ (
        if count_source id s.records == 0
        then (out_of_range, some s)
        else (ok, some (store s (find_slot s id) ((s.active_count + 2 ^ 32 - 1) % 2 ^ 32) 0 ok)))
unfolding clear check
clear-valid s id v p = ground (arith, v.live, found v id)

-- On a valid service, clearing a source other than 0 returns OUT_OF_RANGE if it has no record, else OK;
-- the service stays valid, the source has no status afterwards, and every other one has what it had.
pub clear_lem :
    (s : StatusService) (id j : ℕ)
    → IsValid s
    → id ≢ 0
    → j ≢ 0
    → (s' : StatusService) × (clear (some s) id
        ≡ ((if count_source id s.records == 0 then out_of_range else ok), some s'))
      × IsValid s'
      × (fault s' j ≡ (if j == id then none else fault s j))
unfolding store
clear_lem s id j v p h = elim (ℕ_discrete (count_source id s.records) 0) [
  | yes e ↦ (s, ground (arith, clear-valid s id v p), v, ground (arith, lookup-none id s.records e))
  | no e ↦ (
    store s (find_slot s id) ((s.active_count + 2 ^ 32 - 1) % 2 ^ 32) 0 ok,
    ground (arith, clear-valid s id v p),
    empty-IsValid v id p e,
    ground (
      arith,
      find_slot_lem v id,
      lookup-set_empty id j s.records (omega (arith, v.unique id p)) h,
    ),
  )
]

-- On a valid service, a query of a source other than 0 returns its record, or OUT_OF_RANGE if the source
-- has no status; and the count is the number of the records that are not empty.
pub queries_lem :
    (s : StatusService) (id : ℕ)
    → IsValid s
    → id ≢ 0
    → (get_by_source (some s) id false ≡ (elim (fault s id) [
      | none ↦ (out_of_range, none)
      | some status ↦ (ok, some (record { source_id = id; status = status }))
    ]))
      × (count (some s) false ≡ (ok, some (s.record_count - count_source 0 s.records)))
unfolding get_by_source count check
queries_lem s id v p = (
  ground (
    arith,
    v.live,
    v.sized,
    find_slot_lem v id,
    lookup-find_source id s.records,
    source_at-find_source id s.records,
  ),
  ground (arith, v.live, v.active),
)

count_source-cleared :
    (id : ℕ) (records : List Record)
    → count_source id (clear_records (length records) records)
      ≡ (if id == 0 then length records else 0)
unfolding count_source clear_records
count_source-cleared id [] = ground arith
count_source-cleared id (r ∷ records) = ground (arith, count_source-cleared id records)

length-clear_records :
    (n : ℕ) (records : List Record) → length (clear_records n records) ≡ length records
unfolding clear_records
length-clear_records zero records = refl
length-clear_records (suc n) [] = refl
length-clear_records (suc n) (r ∷ records) = omega (arith, length-clear_records n records)

-- mizu_status_service_init of an object that is not initialised, with an array of at least one record,
-- returns OK and a valid service in which no source has a status.
pub init_empty :
    (s : StatusService) (records : List Record) (j : ℕ)
    → s.initialized ≡ false
    → 0 < length records
    → length records < 2 ^ 32
    → j ≢ 0
    → (s' : StatusService) × (init (some s) (some records) (length records) ≡ (ok, some s'))
      × IsValid s'
      × (fault s' j ≡ none)
unfolding init
init_empty s records j e h k p =
    let cleared = clear_records (length records) records in
    (
      record {
        records = cleared;
        record_count = length records;
        active_count = 0;
        initialized = true;
      },
      ground arith,
      record {
        live = refl;
        sized = length-clear_records (length records) records;
        small = k;
        unique = λ id q. ground (arith, count_source-cleared id records);
        active = ground (arith, count_source-cleared 0 records);
      },
      lookup-none j cleared (ground (arith, count_source-cleared j records)),
    )
