-- ===== src/StatusService/Search.antt =====
-- The search loops of mizu_status_service.c and what a write does to the records.
use embedded_library.Prelude.{
  ℕ, zero, suc, ◌+◌, ◌≤◌, ◌<◌, ◌≡◌, ◌≢◌, refl, Option, none, some, List, [], ◌∷◌, length, set, ◌==◌,
  if◌then◌else◌, arith,
}
use embedded_library.Status.{Status}
use embedded_library.StatusService.{Record, record_at, find_source, empty_record}

-- How many records have the id.
unfoldable pub count_source : ℕ → List Record → ℕ
count_source id [] = 0
count_source id (r ∷ records) = (if r.source_id == id then 1 else 0) + count_source id records

-- The status of the first record with the id.
unfoldable pub lookup : ℕ → List Record → Option Status
lookup id [] = none
lookup id (r ∷ records) = if r.source_id == id then some r.status else lookup id records

pub find_source-le :
    (id : ℕ) (records : List Record) → find_source id (length records) records ≤ length records
unfolding find_source
find_source-le id [] = omega arith
find_source-le id (r ∷ records) = ground (arith, find_source-le id records)

-- A record with the id is found exactly if there is one.
pub find_source-count :
    (id : ℕ) (records : List Record)
    → (find_source id (length records) records == length records) ≡ (count_source id records == 0)
unfolding find_source count_source
find_source-count id [] = refl
find_source-count id (r ∷ records) = ground (arith, find_source-count id records)

pub lookup-find_source :
    (id : ℕ) (records : List Record)
    → lookup id records ≡ (
        if find_source id (length records) records == length records
        then none
        else some (record_at records (find_source id (length records) records)).status)
unfolding find_source lookup
lookup-find_source id [] = refl
lookup-find_source id (r ∷ records) = ground (arith, lookup-find_source id records)

pub source_at-find_source :
    (id : ℕ) (records : List Record)
    → find_source id (length records) records ≢ length records
    → (record_at records (find_source id (length records) records)).source_id ≡ id
unfolding find_source
source_at-find_source id [] h = absurd (h refl)
source_at-find_source id (r ∷ records) h = ground (arith, source_at-find_source id records)

pub count_source-set :
    (id i : ℕ) (records : List Record) (r : Record)
    → i < length records
    → count_source id (set records i r) + (if (record_at records i).source_id == id then 1 else 0)
      ≡ count_source id records + (if r.source_id == id then 1 else 0)
unfolding count_source
count_source-set id i [] r h = absurd (omega arith)
count_source-set id zero (x ∷ records) r h = omega arith
count_source-set id (suc i) (x ∷ records) r h =
    omega (arith, count_source-set id i records r (omega arith))

pub count_source-add-le :
    (id : ℕ) (records : List Record)
    → id ≢ 0
    → count_source id records + count_source 0 records ≤ length records
unfolding count_source
count_source-add-le id [] h = omega arith
count_source-add-le id (r ∷ records) h = ground (arith, count_source-add-le id records h)

-- A report of a source that has a record.
pub lookup-set_found :
    (id j : ℕ) (records : List Record) (status : Status)
    → count_source id records ≢ 0
    → lookup j (
        set records
          (find_source id (length records) records)
          (record { source_id = id; status = status }))
      ≡ (if j == id then some status else lookup j records)
unfolding find_source lookup count_source
lookup-set_found id j [] status h = absurd (h refl)
lookup-set_found id j (r ∷ records) status h = ground (arith, lookup-set_found id j records status)

-- A report of a new source into an empty slot.
pub lookup-set_new :
    (id j : ℕ) (records : List Record) (status : Status)
    → count_source id records ≡ 0
    → count_source 0 records ≢ 0
    → j ≢ 0
    → lookup j (
        set records
          (find_source 0 (length records) records)
          (record { source_id = id; status = status }))
      ≡ (if j == id then some status else lookup j records)
unfolding find_source lookup count_source
lookup-set_new id j [] status h k p = absurd (k refl)
lookup-set_new id j (r ∷ records) status h k p = ground (arith, lookup-set_new id j records status)

pub lookup-none :
    (id : ℕ) (records : List Record) → count_source id records ≡ 0 → lookup id records ≡ none
unfolding lookup count_source
lookup-none id [] h = refl
lookup-none id (r ∷ records) h = ground (arith, lookup-none id records)

-- The removal of a source that has one record.
pub lookup-set_empty :
    (id j : ℕ) (records : List Record)
    → count_source id records ≡ 1
    → j ≢ 0
    → lookup j (set records (find_source id (length records) records) empty_record)
      ≡ (if j == id then none else lookup j records)
unfolding find_source lookup count_source
lookup-set_empty id j [] h p = absurd (omega arith)
lookup-set_empty id j (r ∷ records) h p =
    ground (arith, lookup-set_empty id j records, lookup-none id records)
