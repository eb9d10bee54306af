-- ===== src/Pool.antt =====
-- libraries/object_pool/src/object_pool.c of archive/legacy_src: a pool of slots of one size, which hands
-- out the free slot of the lowest index. A pointer is its address, 0 for NULL; the bytes at `states`
-- stand beside the pool. `size_t` and pointers are 32 bits wide.
pub mod Slots
pub mod Inv
pub mod Ledger
pub mod Calls
pub mod History
mod Tests
use embedded_library.Prelude.{
  ℕ, zero, suc, ◌+◌, ◌-◌, ◌*◌, ◌/◌, ◌%◌, ◌^◌, Bool, not, ◌&&◌, ◌||◌, ◌==◌, if◌then◌else◌, ltb, leb,
  size_max, Option, none, some, List, [], ◌∷◌, get_or, set,
}
use Prim.Native.Nat.{bit_and}
use embedded_library.Foundation.{
  Foundation, ok, invalid_argument, not_initialized, invalid_state, full, buffer_too_small,
  overflow, busy, is_fine, overlaps,
}

-- `object_pool_config_t`, beside the bytes at `states`.
pub record PoolConfig : Type 0 where
  storage : ℕ
  storage_size : ℕ
  states : ℕ
  states_size : ℕ
  slot_size : ℕ
  capacity : ℕ
  alignment : ℕ
  bytes : List ℕ

-- `object_pool_t`, beside the bytes at `states`.
pub record Pool : Type 0 where
  storage : ℕ
  states : ℕ
  slot_size : ℕ
  capacity : ℕ
  available : ℕ
  lowest_free_index : ℕ
  exhausted_count : ℕ
  bytes : List ℕ

-- `sizeof` of the pool, of its configuration and of a pointer or a `size_t`.
abbrev pub pool_bytes : ℕ
pool_bytes = 28

abbrev pub config_bytes : ℕ
config_bytes = 28

abbrev pub word_bytes : ℕ
word_bytes = 4

unfoldable pub check : Option Pool → Foundation
check none = invalid_argument
check (some pool) =
    if pool.storage == 0 || pool.states == 0 || pool.capacity == 0 || pool.slot_size == 0
    then not_initialized
    else if ltb (size_max / pool.slot_size) pool.capacity
        || ltb pool.capacity pool.available
        || ltb pool.capacity pool.lowest_free_index
    then invalid_state
    else ok

-- The arguments: the pool's address, the pool, and the range of the output. `check` has refused a
-- capacity whose bytes `size_t` does not count.
unfoldable pub valid_output : ℕ → Pool → ℕ → ℕ → Bool
valid_output address pool output size =
    not (output == 0)
    && not (overlaps output size address pool_bytes)
    && not (overlaps output size pool.states pool.capacity)
    && not (overlaps output size pool.storage (pool.capacity * pool.slot_size))

-- `memset(states, 0, count)`.
unfoldable pub clear_states : ℕ → List ℕ → List ℕ
clear_states zero bytes = bytes
clear_states (suc count) [] = []
clear_states (suc count) (b ∷ bytes) = 0 ∷ clear_states count bytes

-- The first guard of object_pool_init, past the NULL tests on the structs.
unfoldable pub is_misconfigured : PoolConfig → Bool
is_misconfigured config =
    config.storage == 0
    || config.states == 0
    || config.capacity == 0
    || config.slot_size == 0
    || config.alignment == 0
    || not (bit_and config.alignment (config.alignment - 1) == 0)
    || not (config.storage % config.alignment == 0)
    || not (config.slot_size % config.alignment == 0)

-- The six tests of object_pool_init on ranges that overlap.
unfoldable pub is_overlapping : ℕ → ℕ → PoolConfig → Bool
is_overlapping address config_address config =
    overlaps address pool_bytes config.storage config.storage_size
    || overlaps address pool_bytes config.states config.states_size
    || overlaps config.storage config.storage_size config.states config.states_size
    || overlaps config_address config_bytes config.storage config.storage_size
    || overlaps config_address config_bytes config.states config.states_size
    || overlaps address pool_bytes config_address config_bytes

abbrev pub new_pool : PoolConfig → Pool
new_pool config = record {
  storage = config.storage;
  states = config.states;
  slot_size = config.slot_size;
  capacity = config.capacity;
  available = config.capacity;
  lowest_free_index = 0;
  exhausted_count = 0;
  bytes = clear_states config.capacity config.bytes;
}

unfoldable pub init : ℕ → Option Pool → ℕ → Option PoolConfig → Foundation × Option Pool
init address none config_address config = (invalid_argument, none)
init address (some pool) config_address none = (invalid_argument, some pool)
init address (some pool) config_address (some config) =
    if is_misconfigured config
    then (invalid_argument, some pool)
    else if ltb (size_max / config.slot_size) config.capacity
    then (overflow, some pool)
    else if ltb config.storage_size (config.capacity * config.slot_size)
        || ltb config.states_size config.capacity
    then (buffer_too_small, some pool)
    else if is_overlapping address config_address config
    then (invalid_argument, some pool)
    else if not (pool.storage == 0) && not (pool.available == pool.capacity)
    then (busy, some pool)
    else (ok, some (new_pool config))

-- The loop of object_pool_acquire, with the fuel of the slots.
unfoldable pub next_free : ℕ → List ℕ → ℕ → ℕ → ℕ
next_free zero bytes capacity next = next
next_free (suc fuel) bytes capacity next =
    let rest = next_free fuel bytes capacity (suc next) in
    if ltb next capacity && not (get_or bytes next 0 == 0) then rest else next

abbrev pub exhausted : Pool → Pool
exhausted pool =
    if ltb pool.exhausted_count size_max
    then record pool { exhausted_count = suc pool.exhausted_count }
    else pool

abbrev pub lend : Pool → Pool
lend pool = record pool {
  bytes = set pool.bytes pool.lowest_free_index 1;
  available = pool.available - 1;
  lowest_free_index = next_free pool.capacity pool.bytes pool.capacity (suc pool.lowest_free_index);
}

-- The status, the pool, and the outputs: the address of the slot and its index.
unfoldable pub acquire : ℕ → Option Pool → ℕ → ℕ → Foundation × Option Pool × Option (ℕ × ℕ)
acquire address none result index = (check none, none, none)
acquire address (some pool) result index =
    let slot = pool.lowest_free_index in
    if not (is_fine (check (some pool)))
    then (check (some pool), some pool, none)
    else if not (valid_output address pool result word_bytes)
        || not (valid_output address pool index word_bytes)
        || overlaps result word_bytes index word_bytes
    then (invalid_argument, some pool, none)
    else if pool.available == 0
    then (full, some (exhausted pool), none)
    else if leb pool.capacity slot || not (get_or pool.bytes slot 0 == 0)
    then (invalid_state, some pool, none)
    else (ok, some (lend pool), some (pool.storage + slot * pool.slot_size, slot))

abbrev pub give_back : Pool → ℕ → Pool
give_back pool slot = record pool {
  bytes = set pool.bytes slot 0;
  available = (pool.available + 1) % 2 ^ 32;
  lowest_free_index = if ltb slot pool.lowest_free_index then slot else pool.lowest_free_index;
}

unfoldable pub release : Option Pool → ℕ → Foundation × Option Pool
release none pointer = (check none, none)
release (some pool) pointer =
    let offset = pointer - pool.storage in
    let slot = offset / pool.slot_size in
    if not (is_fine (check (some pool)))
    then (check (some pool), some pool)
    else if pointer == 0 || ltb pointer pool.storage
    then (invalid_argument, some pool)
    else if leb (pool.capacity * pool.slot_size) offset || not (offset % pool.slot_size == 0)
    then (invalid_argument, some pool)
    else if not (get_or pool.bytes slot 0 == 1)
    then (invalid_state, some pool)
    else (ok, some (give_back pool slot))

-- What the four queries share: the checks, then the value of one field.
unfoldable pub query : (Pool → ℕ) → ℕ → Option Pool → ℕ → Foundation × Option ℕ
query field address none result = (check none, none)
query field address (some pool) result =
    if not (is_fine (check (some pool)))
    then (check (some pool), none)
    else if not (valid_output address pool result word_bytes)
    then (invalid_argument, none)
    else (ok, some (field pool))

abbrev pub capacity : ℕ → Option Pool → ℕ → Foundation × Option ℕ
capacity address pool result = query (λ p. p.capacity) address pool result

abbrev pub available : ℕ → Option Pool → ℕ → Foundation × Option ℕ
available address pool result = query (λ p. p.available) address pool result

abbrev pub lowest_free_index : ℕ → Option Pool → ℕ → Foundation × Option ℕ
lowest_free_index address pool result = query (λ p. p.lowest_free_index) address pool result

abbrev pub exhausted_count : ℕ → Option Pool → ℕ → Foundation × Option ℕ
exhausted_count address pool result = query (λ p. p.exhausted_count) address pool result
