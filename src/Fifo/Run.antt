-- ===== src/Fifo/Run.antt =====
-- Whole sequences of calls on one FIFO, its set-up, and its error branches.
use embedded_library.Prelude.{
  ℕ, ◌-◌, ◌≤◌, ◌<◌, ◌≡◌, ◌⊎◌, refl, Bool, true, false, Option, none, some, List, [], ◌∷◌, ◌++◌,
  length, drop, arith, subst, if◌then◌else◌, ltb, ◌==◌,
}
use embedded_library.Status.{Status, ok, invalid_argument, invalid_state}
use embedded_library.Fifo.{Fifo, size_mod, bytes, init, write, read, written, free, used}
use embedded_library.Fifo.Queue
use embedded_library.Fifo.Inv.{
  IsValid, size-written, written-IsValid, fetched-IsValid, free_lem, used-lt,
}
use embedded_library.Fifo.Refine.{contents}
use embedded_library.Fifo.Refine.Calls.{held, write_refines, read_refines, write-valid, read-valid}

pub data Op : Type 0 where
  put : List ℕ → Op
  get : List ℕ → Op

-- Status and buffer that the caller sees.
abbrev pub Reply : Type 0
Reply = Status × List ℕ

-- Each call transfers the whole buffer.
unfoldable pub run : Option Fifo → List Op → List Reply
run f [] = []
run f (put src ∷ ops) = let (s, f') = write f (some src) (length src) in (s, src) ∷ run f' ops
run f (get dst ∷ ops) =
    let (s, f', dst') = read f (some dst) (length dst) in (s, bytes dst') ∷ run f' ops

unfoldable pub run_queue : ℕ → List ℕ → List Op → List Reply
run_queue cap q [] = []
run_queue cap q (put src ∷ ops) =
    let (s, q') = Queue.write cap q src (length src) in (s, src) ∷ run_queue cap q' ops
run_queue cap q (get dst ∷ ops) =
    let (s, out, q') = Queue.read q (length dst) in
    (s, out ++ drop (length out) dst) ∷ run_queue cap q' ops

-- A valid object of a fixed size behind a pointer.
pub data Live (size : ℕ) : Option Fifo → Type 0 where
  live : {f : Fifo} → IsValid f → f.storage_size ≡ size → Live size (some f)

Live-if :
    {A : Type 0} {size : ℕ} (g : A → Option Fifo) (b : Bool) {x y : A}
    → (b ≡ true → Live size (g x))
    → (b ≡ false → Live size (g y))
    → Live size (g (if b then x else y))
Live-if g true p q = p refl
Live-if g false p q = q refl

write-Live :
    {f : Fifo} (src : List ℕ) (n : ℕ)
    → IsValid f
    → Live f.storage_size (write (some f) (some src) n).1
write-Live {f} src n v = rw (write-valid src n v) (
    Live-if (λ (r : Status × Option Fifo). r.1) (n == 0) (λ _. live v refl)
      (λ _.
        Live-if (λ (r : Status × Option Fifo). r.1) (ltb (free f) n) (λ _. live v refl)
          (λ e. live (written-IsValid src n v (room e)) (size_kept src))))
  where
    room : ltb (free f) n ≡ false → n < f.storage_size
    room e = ground (arith, free_lem v, v.big)

    size_kept : (src : List ℕ) → (written f src n).storage_size ≡ f.storage_size
    size_kept src = size-written f src n

read-Live :
    {f : Fifo} (dst : List ℕ) (n : ℕ)
    → IsValid f
    → Live f.storage_size (read (some f) (some dst) n).1
read-Live {f} dst n v = rw (read-valid dst n v) (
    Live-if (λ (r : Status × Option Fifo × Option (List ℕ)). r.1) (n == 0) (λ _. live v refl)
      (λ _.
        Live-if (λ (r : Status × Option Fifo × Option (List ℕ)). r.1) (ltb (used f) n)
          (λ _. live v refl) (λ e. live (fetched-IsValid n v (room e)) refl)))
  where
    room : ltb (used f) n ≡ false → n < f.storage_size
    room e = ground (arith, used-lt v)

run-Live :
    (size : ℕ) (ops : List Op) {f : Option Fifo}
    → Live size f
    → run f ops ≡ run_queue (size - 1) (held f) ops
unfolding run run_queue
run-Live size [] l = refl
run-Live size (put src ∷ ops) (live {f} v e) =
    subst (λ k. run (some f) (put src ∷ ops) ≡ run_queue (k - 1) (contents f) (put src ∷ ops)) e
      (rw (
        run-Live f.storage_size ops (write-Live src (length src) v),
        ← write_refines src (length src) v (omega arith),
      ))
run-Live size (get dst ∷ ops) (live {f} v e) =
    let (status, kept, out) = read_refines dst (length dst) v (omega arith) in
    subst (λ k. run (some f) (get dst ∷ ops) ≡ run_queue (k - 1) (contents f) (get dst ∷ ops)) e
      (rw (run-Live f.storage_size ops (read-Live dst (length dst) v), status, kept, out))

-- No sequence of writes and reads tells a valid FIFO from the bounded queue of the bytes it holds:
-- the statuses and the caller's buffers agree call by call.
pub run_refines :
    {f : Fifo} (ops : List Op)
    → IsValid f
    → run (some f) ops ≡ run_queue (f.storage_size - 1) (contents f) ops
run_refines {f} ops v = run-Live f.storage_size ops (live v refl)

abbrev pub bound : Option (List ℕ) → ℕ → Fifo
bound storage size = record {
  storage = storage;
  storage_size = size;
  read_index = 0;
  write_index = 0;
  initialized = true;
}

-- mizu_fifo_init on an object and a storage of `size` bytes has one of three outcomes: an object that
-- is initialised is refused as an invalid state; a NULL storage or one of fewer than two bytes is
-- refused as an invalid argument; or the object becomes a valid FIFO over that storage, of that size,
-- that holds nothing. A refused object stays as it was.
pub init_outcomes :
    (f : Fifo) (storage : Option (List ℕ)) (size : ℕ)
    → size < size_mod
    → size ≤ length (bytes storage)
    → ((f.initialized ≡ true) × (init (some f) storage size ≡ (invalid_state, some f)))
      ⊎ ((f.initialized ≡ false)
          × ((storage ≡ none) ⊎ (size < 2))
          × (init (some f) storage size ≡ (invalid_argument, some f)))
      ⊎ ((f.initialized ≡ false)
          × (2 ≤ size)
          × (init (some f) storage size ≡ (ok, some (bound storage size)))
          × IsValid (bound storage size)
          × (contents (bound storage size) ≡ []))
unfolding init contents used
init_outcomes f storage size h k = ground arith

-- Whatever the pointers and the state of the object, a write returns OK or leaves the object as it
-- was, and a read returns OK or leaves both the object and the caller's buffer as they were.
pub failure_keeps :
    (f : Option Fifo) (buffer : Option (List ℕ)) (n : ℕ)
    → (((write f buffer n).0 ≡ ok) ⊎ ((write f buffer n).1 ≡ f))
      × (((read f buffer n).0 ≡ ok) ⊎ ((read f buffer n).1 ≡ f) × ((read f buffer n).2 ≡ buffer))
unfolding write read
failure_keeps none buffer n = ground arith
failure_keeps (some f) buffer n = ground arith
