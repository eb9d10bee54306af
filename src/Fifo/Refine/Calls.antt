-- ===== src/Fifo/Refine/Calls.antt =====
-- mizu_fifo_write and mizu_fifo_read against the bounded queue.
use embedded_library.Prelude.{
  ℕ, ◌-◌, ◌≤◌, ◌≡◌, false, Option, none, some, List, [], ◌++◌, length, drop, length-take,
  append-nil, ◌==◌, ltb, if◌then◌else◌, arith,
}
use embedded_library.Status.{ok, full, empty}
use embedded_library.Fifo.Queue
use embedded_library.Fifo.{Fifo, bytes, used, free, advance, written, fetched, write, read}
use embedded_library.Fifo.Inv.{IsValid, check-ok, used-lt, free_lem}
use embedded_library.Fifo.Refine.{
  fetched_lem, contents-written, contents-rest, contents, length-contents,
}

-- What a call of `write` leaves of the object.
abbrev pub held : Option Fifo → List ℕ
held none = []
held (some f) = contents f

pub write-valid :
    {f : Fifo} (src : List ℕ) (n : ℕ)
    → IsValid f
    → write (some f) (some src) n ≡ (
        if n == 0
        then (ok, some f)
        else if ltb (free f) n
        then (full, some f)
        else (ok, some (written f src n)))
unfolding write
write-valid src n v = rw (check-ok v)

pub read-valid :
    {f : Fifo} (dst : List ℕ) (n : ℕ)
    → IsValid f
    → read (some f) (some dst) n ≡ (
        if n == 0
        then (ok, some f, some dst)
        else if ltb (used f) n
        then (empty, some f, some dst)
        else (ok, some (record f { read_index = advance f n false }), some (fetched f dst n)))
unfolding read
read-valid dst n v = rw (check-ok v)

-- On a valid FIFO, mizu_fifo_write with a source of at least `n` bytes returns the status of the
-- bounded queue of capacity `storage_size - 1`, and leaves the FIFO holding that queue: all `n`
-- bytes are appended in order, or, if they do not fit, none.
pub write_refines :
    {f : Fifo} (src : List ℕ) (n : ℕ)
    → IsValid f
    → n ≤ length src
    → ((write (some f) (some src) n).0, held (write (some f) (some src) n).1)
      ≡ Queue.write (f.storage_size - 1) (contents f) src n
unfolding Queue.write
write_refines {f} src n v h = rw (write-valid src n v) (
    ground (
      arith,
      append-nil (contents f),
      length-contents f,
      free_lem v,
      used-lt v,
      λ (p : n ≤ f.storage_size - 1 - used f). contents-written v n src p h,
    ))

-- On a valid FIFO, mizu_fifo_read into a buffer of at least `n` bytes returns the status of the
-- queue, leaves the FIFO holding the rest of the queue, and puts the queue's first `n` bytes at the
-- start of the buffer, whose other bytes stay; if fewer than `n` bytes are held nothing changes.
pub read_refines :
    {f : Fifo} (dst : List ℕ) (n : ℕ)
    → IsValid f
    → n ≤ length dst
    → let (status, f', dst') = read (some f) (some dst) n in
      let (status', out, rest) = Queue.read (contents f) n in
      (status ≡ status') × (held f' ≡ rest) × (bytes dst' ≡ out ++ drop (length out) dst)
unfolding Queue.read
read_refines {f} dst n v h = rw (read-valid dst n v) (
    ground (
      arith,
      length-contents f,
      length-take n (contents f),
      λ (p : n ≤ used f). contents-rest v n p,
      λ (p : n ≤ used f). fetched_lem v n p dst h,
    ))
