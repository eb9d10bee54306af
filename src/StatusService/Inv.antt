-- ===== src/StatusService/Inv.antt =====
-- The invariant of an initialised status service, kept by every operation.
use embedded_library.Prelude.{
  ℕ, ◌+◌, ◌-◌, ◌%◌, ◌^◌, ◌≤◌, ◌<◌, ◌≡◌, ◌≢◌, refl, length, set, length-set, ◌==◌, if◌then◌else◌,
  arith, true,
}
use embedded_library.Status.{Status, ok, full}
use embedded_library.StatusService.{
  Record, StatusService, record_at, find_source, find_slot, find_empty, empty_record, store,
}
use embedded_library.StatusService.Search.{
  count_source, find_source-le, find_source-count, source_at-find_source, count_source-set,
  count_source-add-le,
}

pub record IsValid (s : StatusService) : Type 0 where
  pub live : s.initialized ≡ true
  pub sized : length s.records ≡ s.record_count
  pub small : s.record_count < 2 ^ 32
  pub unique : (id : ℕ) → id ≢ 0 → count_source id s.records ≤ 1
  pub active : s.active_count + count_source 0 s.records ≡ s.record_count

-- The status of a report of a source other than 0 with a status other than OK.
unfoldable pub report_status : StatusService → ℕ → Status
report_status s id =
    if count_source id s.records == 0
    then (if count_source 0 s.records == 0 then full else ok)
    else ok

module _ {s : StatusService} (v : IsValid s) where
  -- The slot that a search finds, with the length of the array for its count.
  pub find_slot_lem : (id : ℕ) → find_slot s id ≡ find_source id (length s.records) s.records
  unfolding find_slot
  find_slot_lem id = rw v.sized

  pub find_empty_lem : find_empty s ≡ find_source 0 (length s.records) s.records
  unfolding find_empty
  find_empty_lem = rw v.sized

  pub found : (id : ℕ) → (find_slot s id == s.record_count) ≡ (count_source id s.records == 0)
  found id = ground (arith, find_slot_lem id, v.sized, find_source-count id s.records)

  pub found_empty : (find_empty s == s.record_count) ≡ (count_source 0 s.records == 0)
  found_empty = ground (arith, find_empty_lem, v.sized, find_source-count 0 s.records)

  -- The slots in which report and clear write.
  pub written_at :
      (id : ℕ)
      → count_source id s.records ≢ 0
      → (find_slot s id < length s.records)
        × ((record_at s.records (find_slot s id)).source_id ≡ id)
  written_at id h = ground (
    arith,
    find_slot_lem id,
    find_source-le id s.records,
    find_source-count id s.records,
    source_at-find_source id s.records,
  )

  pub written_empty :
      count_source 0 s.records ≢ 0
      → (find_empty s < length s.records) × ((record_at s.records (find_empty s)).source_id ≡ 0)
  written_empty h = ground (
    arith,
    find_empty_lem,
    find_source-le 0 s.records,
    find_source-count 0 s.records,
    source_at-find_source 0 s.records,
  )

  -- Writing a record over another keeps the invariant if it keeps the count of active ones and makes no
  -- second record of a source.
  pub store-IsValid :
      (slot active id : ℕ) (status : Status)
      → slot < length s.records
      → active + count_source 0 (set s.records slot (record { source_id = id; status = status }))
        ≡ s.record_count
      → (id ≢ 0 → (record_at s.records slot).source_id ≢ id → count_source id s.records ≡ 0)
      → IsValid (store s slot active id status)
  unfolding store
  store-IsValid slot active id status h a u =
      let r : Record = record { source_id = id; status = status } in
      record {
        live = v.live;
        sized = omega (arith, length-set s.records slot r, v.sized);
        small = v.small;
        unique = λ j p. ground (arith, count_source-set j slot s.records r h, v.unique j p, u);
        active = a;
      }

  pub found-IsValid :
      (id : ℕ) (status : Status)
      → id ≢ 0
      → count_source id s.records ≢ 0
      → IsValid (store s (find_slot s id) s.active_count id status)
  found-IsValid id status p h =
      let (inside, same) = written_at id h in
      let r : Record = record { source_id = id; status = status } in
      store-IsValid (find_slot s id) s.active_count id status inside
        (ground (arith, count_source-set 0 (find_slot s id) s.records r inside, v.active, same))
        (λ _ n. absurd (n same))

  pub new-IsValid :
      (id : ℕ) (status : Status)
      → id ≢ 0
      → count_source id s.records ≡ 0
      → count_source 0 s.records ≢ 0
      → IsValid (store s (find_empty s) ((s.active_count + 1) % 2 ^ 32) id status)
  new-IsValid id status p h k =
      let (inside, same) = written_empty k in
      let r : Record = record { source_id = id; status = status } in
      store-IsValid (find_empty s) ((s.active_count + 1) % 2 ^ 32) id status inside
        (ground
          (arith, count_source-set 0 (find_empty s) s.records r inside, v.active, v.small, same))
        (λ _ _. h)

  pub empty-IsValid :
      (id : ℕ)
      → id ≢ 0
      → count_source id s.records ≢ 0
      → IsValid (store s (find_slot s id) ((s.active_count + 2 ^ 32 - 1) % 2 ^ 32) 0 ok)
  empty-IsValid id p h =
      let (inside, same) = written_at id h in
      store-IsValid (find_slot s id) ((s.active_count + 2 ^ 32 - 1) % 2 ^ 32) 0 ok inside
        (ground (
          arith,
          count_source-set 0 (find_slot s id) s.records empty_record inside,
          v.active,
          v.small,
          v.sized,
          same,
          count_source-add-le id s.records p,
        ))
        (λ q _. absurd (q refl))
