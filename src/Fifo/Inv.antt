-- ===== src/Fifo/Inv.antt =====
-- The representation invariant of an initialised FIFO, and that its arithmetic does not wrap.
use embedded_library.Prelude.{
  is_null, ℕ, ◌+◌, ◌-◌, ◌≤◌, ◌<◌, ◌≡◌, refl, true, false, some, List, length, leb, ltb,
  if◌then◌else◌, arith,
}
use embedded_library.Status.{ok}
use embedded_library.Fifo.{
  Fifo, size_mod, bytes, check, used, free, advance, first_run, written, copy,
}
use embedded_library.Fifo.Copy.{length-copy}

pub record IsValid (f : Fifo) : Type 0 where
  pub live : f.initialized ≡ true
  pub bound : is_null f.storage ≡ false
  pub holds : f.storage_size ≤ length (bytes f.storage)
  pub big : 2 ≤ f.storage_size
  pub small : f.storage_size < size_mod
  pub read_in : f.read_index < f.storage_size
  pub write_in : f.write_index < f.storage_size

pub check-ok : {f : Fifo} → IsValid f → check (some f) ≡ ok
unfolding check
check-ok v = ground arith

-- The number of bytes held, with the wrap-around of `size_t` gone.
pub used_lem :
    {f : Fifo}
    → IsValid f
    → used f ≡ (
        if leb f.read_index f.write_index
        then f.write_index - f.read_index
        else f.storage_size - f.read_index + f.write_index)
unfolding used
used_lem v = ground arith

pub used-lt : {f : Fifo} → IsValid f → used f < f.storage_size
used-lt {f} v = ground (arith, used_lem v)

pub free_lem : {f : Fifo} → IsValid f → free f ≡ f.storage_size - 1 - used f
unfolding free
free_lem {f} v = ground (arith, used-lt v)

module _ {f : Fifo} (v : IsValid f) (n : ℕ) (fits : n < f.storage_size) where
  pub advance-write : advance f n true ≡ (
      if leb f.storage_size (f.write_index + n)
      then f.write_index + n - f.storage_size
      else f.write_index + n)
  unfolding advance
  advance-write = ground arith

  pub advance-read : advance f n false ≡ (
      if leb f.storage_size (f.read_index + n)
      then f.read_index + n - f.storage_size
      else f.read_index + n)
  unfolding advance
  advance-read = ground arith

pub first_run_lem :
    (f : Fifo) (index n : ℕ)
    → index < f.storage_size
    → f.storage_size < size_mod
    → first_run f index n ≡ (if ltb n (f.storage_size - index) then n else f.storage_size - index)
unfolding first_run
first_run_lem f index n h k = ground arith

pub written-IsValid :
    {f : Fifo} (src : List ℕ) (n : ℕ) → IsValid f → n < f.storage_size → IsValid (written f src n)
unfolding written
written-IsValid {f} src n v h =
    let first = first_run f f.write_index n in
    let head = copy (bytes f.storage) f.write_index src 0 first in
    ground (
      arith,
      advance-write v n h,
      length-copy (bytes f.storage) src f.write_index 0 first,
      length-copy head src 0 first (n - first),
    )

pub fetched-IsValid :
    {f : Fifo} (n : ℕ)
    → IsValid f
    → n < f.storage_size
    → IsValid (record f { read_index = advance f n false })
fetched-IsValid {f} n v h = ground (arith, advance-read v n h)

pub size-written :
    (f : Fifo) (src : List ℕ) (n : ℕ) → (written f src n).storage_size ≡ f.storage_size
unfolding written
size-written f src n = refl
