-- ===== src/FixedQueue/Queries.antt =====
-- The calls of fixed_queue.c that change nothing: fixed_queue_peek_at, _peek and the five queries.
use embedded_library.Prelude.{
  ℕ, ◌-◌, ◌*◌, not, ◌||◌, ◌==◌, if◌then◌else◌, leb, Option, none, some, List,
}
use embedded_library.Foundation.{Foundation, ok, invalid_argument, out_of_range, empty, is_fine}
use embedded_library.Fifo.{copy}
use embedded_library.FixedQueue.{FixedQueue, advance, check, valid_data, word_bytes}

-- The status and the bytes of the output.
unfoldable pub peek_at : ℕ → Option FixedQueue → ℕ → ℕ → List ℕ → Foundation × List ℕ
peek_at address none index pointer output = (check none, output)
peek_at address (some queue) index pointer output =
    let slot = advance queue.head index queue.capacity in
    if not (is_fine (check (some queue)))
    then (check (some queue), output)
    else if not (valid_data address queue pointer queue.element_size)
    then (invalid_argument, output)
    else if leb queue.size index
    then (out_of_range, output)
    else (ok, copy output 0 queue.bytes (slot * queue.element_size) queue.element_size)

unfoldable pub peek : ℕ → Option FixedQueue → ℕ → List ℕ → Foundation × List ℕ
peek address none pointer output = (check none, output)
peek address (some queue) pointer output =
    if not (is_fine (check (some queue)))
    then (check (some queue), output)
    else if not (valid_data address queue pointer queue.element_size)
    then (invalid_argument, output)
    else if queue.size == 0
    then (empty, output)
    else peek_at address (some queue) 0 pointer output

-- What the five queries share: the checks, then a value of the queue.
unfoldable pub query : (FixedQueue → ℕ) → ℕ → Option FixedQueue → ℕ → Foundation × Option ℕ
query value address none result = (check none, none)
query value address (some queue) result =
    if not (is_fine (check (some queue)))
    then (check (some queue), none)
    else if result == 0 || not (valid_data address queue result word_bytes)
    then (invalid_argument, none)
    else (ok, some (value queue))

abbrev pub size : ℕ → Option FixedQueue → ℕ → Foundation × Option ℕ
size address queue result = query (λ q. q.size) address queue result

abbrev pub capacity : ℕ → Option FixedQueue → ℕ → Foundation × Option ℕ
capacity address queue result = query (λ q. q.capacity) address queue result

abbrev pub free : ℕ → Option FixedQueue → ℕ → Foundation × Option ℕ
free address queue result = query (λ q. q.capacity - q.size) address queue result

abbrev pub rejected_count : ℕ → Option FixedQueue → ℕ → Foundation × Option ℕ
rejected_count address queue result = query (λ q. q.rejected_count) address queue result

abbrev pub high_water_mark : ℕ → Option FixedQueue → ℕ → Foundation × Option ℕ
high_water_mark address queue result = query (λ q. q.high_water_mark) address queue result
