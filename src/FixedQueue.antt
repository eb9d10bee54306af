-- ===== src/FixedQueue.antt =====
-- libraries/fixed_queue/src/fixed_queue.c of archive/legacy_src: a ring of elements of one size. A
-- pointer is its address, 0 for NULL; the bytes of the storage stand beside the queue, and those at
-- `input` or `output` beside the address. `size_t` and pointers are 32 bits wide.
pub mod Queries
pub mod Storage
pub mod Inv
pub mod Loops
pub mod Transfer
pub mod Peek
pub mod History
mod Tests
use embedded_library.Prelude.{
  ℕ, zero, suc, ◌+◌, ◌-◌, ◌*◌, ◌/◌, Bool, true, false, not, ◌&&◌, ◌||◌, ◌==◌, if◌then◌else◌, ltb,
  leb, size_max, Option, none, some, List,
}
use embedded_library.Foundation.{
  Foundation, ok, invalid_argument, not_initialized, invalid_state, out_of_range, empty, full,
  buffer_too_small, overflow, is_fine, overlaps,
}
use embedded_library.Fifo.{copy}

-- `fixed_queue_t`, beside the bytes of the storage.
pub record FixedQueue : Type 0 where
  storage : ℕ
  element_size : ℕ
  capacity : ℕ
  head : ℕ
  size : ℕ
  rejected_count : ℕ
  high_water_mark : ℕ
  bytes : List ℕ

-- `sizeof` of the queue and of a `size_t`.
abbrev pub queue_bytes : ℕ
queue_bytes = 28

abbrev pub word_bytes : ℕ
word_bytes = 4

unfoldable pub advance : ℕ → ℕ → ℕ → ℕ
advance index count capacity =
    let tail = capacity - index in if leb tail count then count - tail else index + count

unfoldable pub check : Option FixedQueue → Foundation
check none = invalid_argument
check (some queue) =
    if queue.storage == 0 || queue.capacity == 0 || queue.element_size == 0
    then not_initialized
    else if ltb (size_max / queue.element_size) queue.capacity
        || ltb queue.capacity queue.size
        || leb queue.capacity queue.head
    then invalid_state
    else ok

-- The arguments: the queue's address, the queue, and the range of the data.
unfoldable pub valid_data : ℕ → FixedQueue → ℕ → ℕ → Bool
valid_data address queue pointer size =
    (size == 0 || not (pointer == 0))
    && not (overlaps pointer size address queue_bytes)
    && not (overlaps pointer size queue.storage (queue.capacity * queue.element_size))

abbrev pub new_queue : ℕ → List ℕ → ℕ → ℕ → FixedQueue
new_queue storage bytes element_size capacity = record {
  storage = storage;
  element_size = element_size;
  capacity = capacity;
  head = 0;
  size = 0;
  rejected_count = 0;
  high_water_mark = 0;
  bytes = bytes;
}

unfoldable pub init :
    ℕ → Option FixedQueue → ℕ → List ℕ → ℕ → ℕ → ℕ → Foundation × Option FixedQueue
init address none storage bytes storage_size element_size capacity = (invalid_argument, none)
init address (some queue) storage bytes storage_size element_size capacity =
    if storage == 0 || element_size == 0 || capacity == 0
    then (invalid_argument, some queue)
    else if ltb (size_max / element_size) capacity
    then (overflow, some queue)
    else if ltb storage_size (capacity * element_size)
    then (buffer_too_small, some queue)
    else if overlaps address queue_bytes storage storage_size
    then (invalid_argument, some queue)
    else (ok, some (new_queue storage bytes element_size capacity))

-- A round of the loop of `transfer` that writes: the element `index` of the input, to the slot behind
-- the last.
abbrev pub stored : FixedQueue → List ℕ → ℕ → FixedQueue
stored queue input index = record queue {
  bytes =
      copy queue.bytes (advance queue.head queue.size queue.capacity * queue.element_size) input
        (index * queue.element_size) queue.element_size;
  size = suc queue.size;
}

-- The loop with `left` elements to go.
unfoldable pub store_loop : ℕ → FixedQueue → List ℕ → ℕ → FixedQueue
store_loop zero queue input index = queue
store_loop (suc left) queue input index =
    store_loop left (stored queue input index) input (suc index)

-- A round that reads: the queue after it, and the output.
abbrev pub fetched : FixedQueue → FixedQueue
fetched queue = record queue { head = advance queue.head 1 queue.capacity; size = queue.size - 1 }

abbrev pub delivered : FixedQueue → List ℕ → ℕ → List ℕ
delivered queue output index =
    copy output (index * queue.element_size) queue.bytes (queue.head * queue.element_size)
      queue.element_size

unfoldable pub fetch_loop : ℕ → FixedQueue → List ℕ → ℕ → FixedQueue × List ℕ
fetch_loop zero queue output index = (queue, output)
fetch_loop (suc left) queue output index =
    fetch_loop left (fetched queue) (delivered queue output index) (suc index)

-- A write of more elements than are free is counted.
abbrev pub rejected : FixedQueue → Bool → ℕ → ℕ → FixedQueue
rejected queue writing count room =
    if writing && ltb room count && ltb queue.rejected_count size_max
    then record queue { rejected_count = suc queue.rejected_count }
    else queue

abbrev pub marked : FixedQueue → FixedQueue
marked queue =
    if ltb queue.high_water_mark queue.size
    then record queue { high_water_mark = queue.size }
    else queue

abbrev pub room_for : FixedQueue → Bool → ℕ
room_for queue writing = if writing then queue.capacity - queue.size else queue.size

-- The loop and what follows it, for an amount.
abbrev pub moved : FixedQueue → List ℕ → ℕ → Bool → FixedQueue × List ℕ
moved queue data_bytes amount writing =
    if writing
    then (marked (store_loop amount queue data_bytes 0), data_bytes)
    else let rest = fetch_loop amount queue data_bytes 0 in (marked rest.0, rest.1)

-- The arguments: the queue's address, the queue, the address and the bytes of the data (`input` when
-- writing, else `output`), the count, the address of the result, and the direction. The answer: the
-- status, the queue, the bytes of the data, and the result.
unfoldable pub transfer :
    ℕ
    → Option FixedQueue
    → ℕ
    → List ℕ
    → ℕ
    → ℕ
    → Bool
    → Foundation × Option FixedQueue × List ℕ × Option ℕ
transfer address none pointer data_bytes count result writing = (check none, none, data_bytes, none)
transfer address (some queue) pointer data_bytes count result writing =
    let bytes = count * queue.element_size in
    let room = room_for queue writing in
    let amount = if ltb room count then room else count in
    let queue' = rejected queue writing count room in
    let rest = moved queue' data_bytes amount writing in
    if not (is_fine (check (some queue)))
    then (check (some queue), some queue, data_bytes, none)
    else if ltb (size_max / queue.element_size) count
    then (overflow, some queue, data_bytes, none)
    else if not (valid_data address queue pointer bytes)
        || result == 0
        || not (valid_data address queue result word_bytes)
        || overlaps pointer bytes result word_bytes
    then (invalid_argument, some queue, data_bytes, none)
    else if not (count == 0) && amount == 0
    then ((if writing then full else empty), some queue', data_bytes, none)
    else (ok, some rest.0, rest.1, some amount)

-- The `local` of the single transfers is the address of their local variable for the result.
abbrev pub push :
    ℕ → Option FixedQueue → ℕ → List ℕ → ℕ → Foundation × Option FixedQueue × List ℕ × Option ℕ
push address queue pointer data_bytes local = transfer address queue pointer data_bytes 1 local true

abbrev pub push_some :
    ℕ → Option FixedQueue → ℕ → List ℕ → ℕ → ℕ → Foundation × Option FixedQueue × List ℕ × Option ℕ
push_some address queue pointer data_bytes count result =
    transfer address queue pointer data_bytes count result true

abbrev pub pop :
    ℕ → Option FixedQueue → ℕ → List ℕ → ℕ → Foundation × Option FixedQueue × List ℕ × Option ℕ
pop address queue pointer data_bytes local = transfer address queue pointer data_bytes 1 local false

abbrev pub pop_some :
    ℕ → Option FixedQueue → ℕ → List ℕ → ℕ → ℕ → Foundation × Option FixedQueue × List ℕ × Option ℕ
pop_some address queue pointer data_bytes count result =
    transfer address queue pointer data_bytes count result false
