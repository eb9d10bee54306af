-- ===== src/Fifo/Refine.antt =====
-- A valid FIFO behaves as the bounded queue of the bytes it holds.
pub mod Calls
use embedded_library.Prelude.{
  ℕ, ◌+◌, ◌-◌, ◌≤◌, ◌<◌, ◌≡◌, sym, ◌∙◌, ap, ap₂, false, Option, none, some, List, [], ◌++◌, length,
  take, drop, get_or, tabulate, tabulate_ext, tabulate-add, tabulate-get_or, take-tabulate,
  drop-tabulate, tabulate-drop, split_entries, length-tabulate, length-take, append-nil, ◌==◌,
  dec_lt, leb, ltb, if◌then◌else◌, arith,
}
use embedded_library.Status.{ok, full, empty}
use embedded_library.Fifo.{
  Fifo, bytes, used, free, advance, first_run, written, fetched, write, read, copy,
}
use embedded_library.Fifo.Copy.{length-copy, get_or-copy}
use embedded_library.Fifo.Queue
use embedded_library.Fifo.Inv.{
  IsValid, check-ok, used_lem, used-lt, free_lem, advance-write, advance-read, first_run_lem,
  written-IsValid, fetched-IsValid,
}

-- The storage index of the byte `i` places behind the read cursor.
abbrev pub ring_index : Fifo → ℕ → ℕ
ring_index f i =
    if leb f.storage_size (f.read_index + i)
    then f.read_index + i - f.storage_size
    else f.read_index + i

abbrev pub entry : Fifo → ℕ → ℕ
entry f i = get_or (bytes f.storage) (ring_index f i) 0

-- The bytes held, oldest first.
unfoldable pub contents : Fifo → List ℕ
contents f = tabulate (used f) (entry f)

-- The two copies of a write into a ring of `size` bytes at cursor `w`.
module _ (buf src : List ℕ) (w size n first k : ℕ) (inside : w < size) (holds : size ≤ length buf)
    (room : n < size) (split : first ≡ (if ltb n (size - w) then n else size - w)) where
  abbrev head : List ℕ
  head = copy buf w src 0 first

  abbrev whole : List ℕ
  whole = copy head 0 src first (n - first)

  whole_new_head : (j : ℕ) → j < n → k ≡ w + j → k < size → get_or whole k 0 ≡ get_or src j 0
  whole_new_head j h e b = ground (
    arith,
    length-copy buf src w 0 first,
    get_or-copy buf src w 0 first k,
    get_or-copy head src 0 first (n - first) k,
  )

  whole_new_tail : (j : ℕ) → j < n → size + k ≡ w + j → get_or whole k 0 ≡ get_or src j 0
  whole_new_tail j h e = ground (
    arith,
    length-copy buf src w 0 first,
    get_or-copy buf src w 0 first k,
    get_or-copy head src 0 first (n - first) k,
  )

  whole_old :
      k < size
      → (w ≤ k → w + n ≤ k)
      → (k < w → w + n ≤ size + k)
      → get_or whole k 0 ≡ get_or buf k 0
  whole_old b h g = ground (
    arith,
    length-copy buf src w 0 first,
    get_or-copy buf src w 0 first k,
    get_or-copy head src 0 first (n - first) k,
  )

pub length-contents : (f : Fifo) → length (contents f) ≡ used f
unfolding contents
length-contents f = length-tabulate (used f) (entry f)

module _ {f : Fifo} (v : IsValid f) (n : ℕ) where
  module _ (src : List ℕ) (fits : n ≤ f.storage_size - 1 - used f) where
    room : n < f.storage_size
    room = omega (arith, v.big)

    used-written : used (written f src n) ≡ used f + n
    unfolding written
    used-written =
        let after = written-IsValid src n v room in
        ground (arith, used_lem v, used_lem after, advance-write v n room)

    first_run-write :
        first_run f f.write_index n
        ≡ (if ltb n (f.storage_size - f.write_index) then n else f.storage_size - f.write_index)
    first_run-write = first_run_lem f f.write_index n v.write_in v.small

    entry-written_old : (i : ℕ) → i < used f → entry (written f src n) i ≡ entry f i
    unfolding written
    entry-written_old i h =
        whole_old (bytes f.storage) src f.write_index f.storage_size n (first_run f f.write_index n)
          (ring_index f i) v.write_in v.holds room first_run-write
          (ground (arith, v.read_in, used-lt v)) (ground (arith, v.read_in, used_lem v))
          (ground (arith, v.read_in, used_lem v))

    entry-written_new : (i : ℕ) → i < n → entry (written f src n) (used f + i) ≡ get_or src i 0
    unfolding written
    entry-written_new i h = elim (dec_lt (f.write_index + i) f.storage_size) [
      | yes p ↦
          whole_new_head (bytes f.storage) src f.write_index f.storage_size n
            (first_run f f.write_index n) (ring_index f (used f + i)) v.write_in v.holds room
            first_run-write i h (ground (arith, v.read_in, used_lem v))
            (ground (arith, v.read_in, used_lem v))
      | no p ↦
          whole_new_tail (bytes f.storage) src f.write_index f.storage_size n
            (first_run f f.write_index n) (ring_index f (used f + i)) v.write_in v.holds room
            first_run-write i h (ground (arith, v.read_in, used_lem v))
    ]

    pub contents-written : n ≤ length src → contents (written f src n) ≡ contents f ++ take n src
    unfolding contents
    contents-written enough =
        ap (λ k. tabulate k (entry (written f src n))) used-written
        ∙ sym (tabulate-add (used f) n (entry (written f src n)))
        ∙ ap₂ ◌++◌ (tabulate_ext (used f) _ _ entry-written_old) (
            tabulate_ext n _ (λ i. get_or src i 0) entry-written_new
            ∙ tabulate-get_or n src 0 enough)

  module _ (fits : n ≤ used f) where
    abbrev rest : Fifo
    rest = record f { read_index = advance f n false }

    small : n < f.storage_size
    small = omega (arith, used-lt v)

    used-rest : used rest ≡ used f - n
    used-rest =
        ground (arith, used_lem v, used_lem (fetched-IsValid n v small), advance-read v n small)

    entry-rest : (i : ℕ) → i < used f - n → entry rest i ≡ entry f (n + i)
    entry-rest i h =
        ap (λ k. get_or (bytes f.storage) k 0)
          (ground (arith, v.read_in, used-lt v, advance-read v n small))

    pub contents-rest : contents rest ≡ drop n (contents f)
    unfolding contents
    contents-rest =
        ap (λ k. tabulate k (entry rest)) used-rest
        ∙ tabulate_ext (used f - n) _ _ entry-rest
        ∙ sym (drop-tabulate n (used f) (entry f) fits)

    first_run-read :
        first_run f f.read_index n
        ≡ (if ltb n (f.storage_size - f.read_index) then n else f.storage_size - f.read_index)
    first_run-read = first_run_lem f f.read_index n v.read_in v.small

    module _ (dst : List ℕ) (enough : n ≤ length dst) where
      abbrev run : ℕ
      run = first_run f f.read_index n

      abbrev partial : List ℕ
      partial = copy dst 0 (bytes f.storage) f.read_index run

      get_or-fetched_new : (i : ℕ) → i < n → get_or (fetched f dst n) i 0 ≡ entry f i
      unfolding fetched
      get_or-fetched_new i h = ground (
        arith,
        v.read_in,
        first_run-read,
        length-copy dst (bytes f.storage) 0 f.read_index run,
        get_or-copy dst (bytes f.storage) 0 f.read_index run i,
        get_or-copy partial (bytes f.storage) run 0 (n - run) i,
      )

      get_or-fetched_old : (i : ℕ) → get_or (fetched f dst n) (n + i) 0 ≡ get_or dst (n + i) 0
      unfolding fetched
      get_or-fetched_old i = ground (
        arith,
        first_run-read,
        length-copy dst (bytes f.storage) 0 f.read_index run,
        get_or-copy dst (bytes f.storage) 0 f.read_index run (n + i),
        get_or-copy partial (bytes f.storage) run 0 (n - run) (n + i),
      )

      length-fetched : length (fetched f dst n) ≡ length dst
      unfolding fetched
      length-fetched =
          length-copy partial (bytes f.storage) run 0 (n - run)
          ∙ length-copy dst (bytes f.storage) 0 f.read_index run

      pub fetched_lem : fetched f dst n ≡ take n (contents f) ++ drop n dst
      unfolding contents
      fetched_lem =
          split_entries n (fetched f dst n) 0 (omega (arith, length-fetched))
          ∙ ap₂ ◌++◌
              (tabulate_ext n _ (entry f) get_or-fetched_new
                ∙ sym (take-tabulate n (used f) (entry f) fits))
              (tabulate_ext (length (fetched f dst n) - n) _ (λ i. get_or dst (n + i) 0)
                  (λ i _. get_or-fetched_old i)
                ∙ ap (λ k. tabulate (k - n) (λ i. get_or dst (n + i) 0)) length-fetched
                ∙ tabulate-drop n dst 0)
