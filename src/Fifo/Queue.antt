-- ===== src/Fifo/Queue.antt =====
-- What the byte FIFO promises: a queue of at most `cap` bytes with all-or-nothing transfers.
use embedded_library.Prelude.{ℕ, ◌-◌, List, [], ◌++◌, length, take, drop, ltb, if◌then◌else◌}
use embedded_library.Status.{Status, ok, full, empty}

-- The first `n` bytes of the input, or none of them.
unfoldable pub write : ℕ → List ℕ → List ℕ → ℕ → Status × List ℕ
write cap q src n = if ltb (cap - length q) n then (full, q) else (ok, q ++ take n src)

-- Status, bytes that come out, queue that is left.
unfoldable pub read : List ℕ → ℕ → Status × List ℕ × List ℕ
read q n = if ltb (length q) n then (empty, [], q) else (ok, take n q, drop n q)
