-- ===== src/Fifo.antt =====
-- `mizu_fifo_t` of libraries/mizu_fifo/mizu_fifo.c: a byte ring over the caller's storage, with a
-- read and a write cursor. An operation takes its pointers as options (`none` is NULL) and returns
-- its status beside what it may have written. `size_t` is 32 bits wide, as on the ARM target.
pub mod Queue
pub mod Copy
pub mod Inv
pub mod Refine
pub mod Run
mod Tests
use embedded_library.Prelude.{
  is_null, ℕ, zero, suc, ◌+◌, ◌-◌, ◌%◌, ◌^◌, Bool, true, false, ◌||◌, Option, none, some, List, [],
  ◌∷◌, get_or, set, ltb, leb, ◌==◌, if◌then◌else◌, not,
}
use embedded_library.Status.{
  Status, ok, invalid_argument, invalid_state, not_initialized, full, empty, is_ok,
}

abbrev pub size_mod : ℕ
size_mod = 2 ^ 32

abbrev pub add_size : ℕ → ℕ → ℕ
add_size a b = (a + b) % size_mod

abbrev pub sub_size : ℕ → ℕ → ℕ
sub_size a b = (a + size_mod - b) % size_mod

pub record Fifo : Type 0 where
  pub storage : Option (List ℕ)
  pub storage_size : ℕ
  pub read_index : ℕ
  pub write_index : ℕ
  pub initialized : Bool

-- The bytes behind the storage pointer.
abbrev pub bytes : Option (List ℕ) → List ℕ
bytes none = []
bytes (some b) = b

pub advance : Fifo → ℕ → Bool → ℕ
advance f count writing =
    let index = if writing then f.write_index else f.read_index in
    let tail = sub_size f.storage_size index in
    if leb tail count then sub_size count tail else add_size index count

pub check : Option Fifo → Status
check none = invalid_argument
check (some f) =
    if not f.initialized
    then not_initialized
    else if is_null f.storage
        || ltb f.storage_size 2
        || leb f.storage_size f.read_index
        || leb f.storage_size f.write_index
    then invalid_state
    else ok

pub used : Fifo → ℕ
used f =
    if leb f.read_index f.write_index
    then sub_size f.write_index f.read_index
    else add_size (sub_size f.storage_size f.read_index) f.write_index

pub free : Fifo → ℕ
unfolding used
free f = sub_size (sub_size f.storage_size 1) (used f)

pub init : Option Fifo → Option (List ℕ) → ℕ → Status × Option Fifo
init none storage size = (invalid_argument, none)
init (some f) storage size =
    if f.initialized
    then (invalid_state, some f)
    else if is_null storage || ltb size 2
    then (invalid_argument, some f)
    else (ok, some bound)
  where
    bound : Fifo
    bound = record {
      storage = storage;
      storage_size = size;
      read_index = 0;
      write_index = 0;
      initialized = true;
    }

-- `for (k = 0; k < n; ++k) dst[to + k] = src[from + k];`
unfoldable pub copy : List ℕ → ℕ → List ℕ → ℕ → ℕ → List ℕ
copy dst to src from zero = dst
copy dst to src from (suc n) = copy (set dst to (get_or src from 0)) (to + 1) src (from + 1) n

-- The length of the run of `n` bytes from `index` before the storage wraps.
pub first_run : Fifo → ℕ → ℕ → ℕ
first_run f index n = let first = sub_size f.storage_size index in if ltb n first then n else first

-- What a write leaves behind once the checks have passed.
pub written : Fifo → List ℕ → ℕ → Fifo
unfolding first_run advance copy
written f src n =
    let first = first_run f f.write_index n in
    let head = copy (bytes f.storage) f.write_index src 0 first in
    record f { storage = some (copy head 0 src first (n - first)); write_index = advance f n true }

pub write : Option Fifo → Option (List ℕ) → ℕ → Status × Option Fifo
write none src n = (check none, none)
write (some f) src n =
    if not (is_ok (check (some f)))
    then (check (some f), some f)
    else if n == 0
    then (ok, some f)
    else if is_null src
    then (invalid_argument, some f)
    else if ltb (free f) n
    then (full, some f)
    else (ok, some (written f (bytes src) n))

-- The caller's buffer after a read has passed its checks.
pub fetched : Fifo → List ℕ → ℕ → List ℕ
unfolding first_run copy
fetched f dst n =
    let first = first_run f f.read_index n in
    copy (copy dst 0 (bytes f.storage) f.read_index first) first (bytes f.storage) 0 (n - first)

-- The last component is the caller's buffer.
pub read : Option Fifo → Option (List ℕ) → ℕ → Status × Option Fifo × Option (List ℕ)
read none dst n = (check none, none, dst)
read (some f) dst n =
    if not (is_ok (check (some f)))
    then (check (some f), some f, dst)
    else if n == 0
    then (ok, some f, dst)
    else if is_null dst
    then (invalid_argument, some f, dst)
    else if ltb (used f) n
    then (empty, some f, dst)
    else (ok, some (record f { read_index = advance f n false }), some (fetched f (bytes dst) n))

pub push : Option Fifo → ℕ → Status × Option Fifo
push f value = write f (some (value ∷ [])) 1

pub pop : Option Fifo → Option (List ℕ) → Status × Option Fifo × Option (List ℕ)
pop f value = read f value 1
