-- ===== src/Fifo/Copy.antt =====
-- The copy loops of mizu_fifo.c, by what they leave at each index.
use embedded_library.Prelude.{
  ℕ, zero, suc, ◌+◌, ◌-◌, ◌≤◌, ◌≡◌, refl, ◌∙◌, List, length, get_or, set, length-set, get_or-set,
  leb, ltb, ◌&&◌, if◌then◌else◌, arith,
}
use embedded_library.Fifo.{copy}

pub length-copy : (dst src : List ℕ) (to from n : ℕ) → length (copy dst to src from n) ≡ length dst
unfolding copy
length-copy dst src to from zero = refl
length-copy dst src to from (suc n) =
    length-copy (set dst to (get_or src from 0)) src (to + 1) (from + 1) n
    ∙ length-set dst to (get_or src from 0)

-- Inside the target range stands the source, outside it what was there.
pub get_or-copy :
    (dst src : List ℕ) (to from n k : ℕ)
    → to + n ≤ length dst
    → get_or (copy dst to src from n) k 0
      ≡ (if leb to k && ltb k (to + n) then get_or src (from + (k - to)) 0 else get_or dst k 0)
unfolding copy
get_or-copy dst src to from zero k h = ground arith
get_or-copy dst src to from (suc n) k h = ground (
  arith,
  length-set dst to (get_or src from 0),
  get_or-copy (set dst to (get_or src from 0)) src (to + 1) (from + 1) n k,
  get_or-set dst to k (get_or src from 0) 0,
)
