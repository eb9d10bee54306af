-- ===== src/StatusService.antt =====
-- services/mizu_status_service/mizu_status_service.c: the record of current errors, one per source.
-- The caller's array of records is a list, `none` is NULL, and source id 0 marks an empty slot.
pub mod Search
pub mod Inv
pub mod View
mod Tests
use embedded_library.Prelude.{
  ℕ, zero, suc, ◌+◌, ◌-◌, ◌%◌, ◌^◌, Bool, true, false, not, ◌&&◌, ◌||◌, Option, none, some, List,
  [], ◌∷◌, length, get_or, set, ltb, leb, ◌==◌, if◌then◌else◌,
}
use embedded_library.Status.{
  Status, ok, invalid_argument, invalid_state, not_initialized, out_of_range, full, is_ok,
}

pub record Record : Type 0 where
  pub source_id : ℕ
  pub status : Status

pub record StatusService : Type 0 where
  pub records : List Record
  pub record_count : ℕ
  pub active_count : ℕ
  pub initialized : Bool

-- `(mizu_status_record_t){0}`
abbrev pub empty_record : Record
empty_record = record { source_id = 0; status = ok }

abbrev pub record_at : List Record → ℕ → Record
record_at records i = get_or records i empty_record

-- The first of `n` records with the id, or `n`.
unfoldable pub find_source : ℕ → ℕ → List Record → ℕ
find_source id zero records = 0
find_source id (suc n) [] = suc n
find_source id (suc n) (r ∷ records) =
    if r.source_id == id then 0 else suc (find_source id n records)

unfoldable pub find_slot : StatusService → ℕ → ℕ
find_slot s id = find_source id s.record_count s.records

unfoldable pub find_empty : StatusService → ℕ
find_empty s = find_source 0 s.record_count s.records

unfoldable pub check : Option StatusService → Status
check none = invalid_argument
check (some s) = if not s.initialized then not_initialized else ok

-- `for (index = 0; index < n; ++index) records[index] = empty_record;`
unfoldable pub clear_records : ℕ → List Record → List Record
clear_records zero records = records
clear_records (suc n) [] = []
clear_records (suc n) (_ ∷ records) = empty_record ∷ clear_records n records

unfoldable pub init :
    Option StatusService → Option (List Record) → ℕ → Status × Option StatusService
init none records count = (invalid_argument, none)
init (some s) none count =
    if s.initialized then (invalid_state, some s) else (invalid_argument, some s)
init (some s) (some records) count =
    if s.initialized
    then (invalid_state, some s)
    else if count == 0
    then (invalid_argument, some s)
    else (
      ok,
      some (record {
        records = clear_records count records;
        record_count = count;
        active_count = 0;
        initialized = true;
      }),
    )

-- What a report writes: the slot, and one more active record if the source is new.
unfoldable pub store : StatusService → ℕ → ℕ → ℕ → Status → StatusService
store s slot active source_id status = record s {
  records = set s.records slot (record { source_id = source_id; status = status });
  active_count = active;
}

unfoldable pub report : Option StatusService → ℕ → Status → Status × Option StatusService
report none source_id status = (check none, none)
report (some s) source_id status =
    if not (is_ok (check (some s)))
    then (check (some s), some s)
    else if source_id == 0 || is_ok status
    then (invalid_argument, some s)
    else if not (find_slot s source_id == s.record_count)
    then (ok, some (store s (find_slot s source_id) s.active_count source_id status))
    else if find_empty s == s.record_count
    then (full, some s)
    else (ok, some (store s (find_empty s) ((s.active_count + 1) % 2 ^ 32) source_id status))

unfoldable pub clear : Option StatusService → ℕ → Status × Option StatusService
clear none source_id = (check none, none)
clear (some s) source_id =
    if not (is_ok (check (some s)))
    then (check (some s), some s)
    else if source_id == 0
    then (invalid_argument, some s)
    else if find_slot s source_id == s.record_count
    then (out_of_range, some s)
    else (ok, some (store s (find_slot s source_id) ((s.active_count + 2 ^ 32 - 1) % 2 ^ 32) 0 ok))

-- For the queries the option is what goes through the output pointer, and `null` says that this
-- pointer is NULL.
unfoldable pub count : Option StatusService → Bool → Status × Option ℕ
count none null = (check none, none)
count (some s) null =
    if not (is_ok (check (some s)))
    then (check (some s), none)
    else if null
    then (invalid_argument, none)
    else (ok, some s.active_count)

unfoldable pub get_at : Option StatusService → ℕ → Bool → Status × Option Record
get_at none index null = (check none, none)
get_at (some s) index null =
    if not (is_ok (check (some s)))
    then (check (some s), none)
    else if null
    then (invalid_argument, none)
    else if leb s.record_count index || (record_at s.records index).source_id == 0
    then (out_of_range, none)
    else (ok, some (record_at s.records index))

unfoldable pub get_by_source : Option StatusService → ℕ → Bool → Status × Option Record
get_by_source none source_id null = (check none, none)
get_by_source (some s) source_id null =
    if not (is_ok (check (some s)))
    then (check (some s), none)
    else if source_id == 0 || null
    then (invalid_argument, none)
    else if find_slot s source_id == s.record_count
    then (out_of_range, none)
    else (ok, some (record_at s.records (find_slot s source_id)))
