-- ===== src/Cobs/Reading.antt =====
-- What cobs_decoded_size returns: the index loop against the recursion over the bytes.
use embedded_library.Prelude.{
  ℕ, zero, suc, ◌+◌, ◌-◌, ◌≤◌, ◌<◌, ◌≡◌, refl, sym, ap, ap₂, ◌∙◌, Bool, true, false, not, ◌&&◌,
  ◌==◌, if◌then◌else◌, ltb, size_max, Option, some, none, List, [], ◌∷◌, ◌++◌, length, take, drop,
  get_or, length-append, length-take, Bool-cases, inl, inr, arith,
}
use embedded_library.Foundation.{Foundation, ok, invalid_data}
use embedded_library.Cobs.{previous, full_code, size_loop}
use embedded_library.Cobs.Stuffing.{unstuff, is_stuffed, owed_bytes, AreBytes}

-- From the index on, the buffer holds the bytes.
abbrev pub Reads : List ℕ → ℕ → List ℕ → Type 0
Reads buffer index bytes =
    (j : ℕ) → j < length bytes → get_or buffer (index + j) 0 ≡ get_or bytes j 0

pub Reads-head :
    (buffer : List ℕ) (index byte : ℕ) (bytes : List ℕ)
    → Reads buffer index (byte ∷ bytes)
    → get_or buffer index 0 ≡ byte
Reads-head buffer index byte bytes r =
    let same : index ≡ index + 0 = omega arith in
    ap (λ i. get_or buffer i 0) same ∙ r 0 (omega arith)

pub Reads-tail :
    (buffer : List ℕ) (index byte : ℕ) (bytes : List ℕ)
    → Reads buffer index (byte ∷ bytes)
    → Reads buffer (suc index) bytes
Reads-tail buffer index byte bytes r j l =
    let same : suc index + j ≡ index + suc j = omega arith in
    ap (λ i. get_or buffer i 0) same ∙ r (suc j) (omega (arith, l))

pub Reads-drop :
    (n : ℕ) (buffer : List ℕ) (index : ℕ) (bytes : List ℕ)
    → Reads buffer index bytes
    → Reads buffer (index + n) (drop n bytes)
Reads-drop zero buffer index bytes r j l =
    let same : index + 0 + j ≡ index + j = omega arith in ap (λ i. get_or buffer i 0) same ∙ r j l
Reads-drop (suc n) buffer index [] r j l = absurd (omega (arith, l))
Reads-drop (suc n) buffer index (b ∷ bytes) r j l =
    let same : index + suc n + j ≡ suc index + n + j = omega arith in
    ap (λ i. get_or buffer i 0) same
    ∙ Reads-drop n buffer (suc index) bytes (Reads-tail buffer index b bytes r) j l

pub length-drop : (n : ℕ) (bytes : List ℕ) → length (drop n bytes) ≡ length bytes - n
length-drop zero bytes = omega arith
length-drop (suc n) [] = omega arith
length-drop (suc n) (b ∷ bytes) = omega (arith, length-drop n bytes)

pub drop-AreBytes : (n : ℕ) (bytes : List ℕ) → AreBytes bytes → AreBytes (drop n bytes)
drop-AreBytes zero bytes a = a
drop-AreBytes (suc n) [] a = tt
drop-AreBytes (suc n) (b ∷ bytes) a = drop-AreBytes n bytes a.1

pub unstuff-drop :
    (n : ℕ) (bytes : List ℕ) (owed : Bool)
    → n ≤ length bytes
    → unstuff n owed bytes ≡ take n bytes ++ unstuff 0 owed (drop n bytes)
unfolding unstuff
unstuff-drop zero bytes owed l = refl
unstuff-drop (suc n) [] owed l = absurd (omega (arith, l))
unstuff-drop (suc n) (b ∷ bytes) owed l = ap (◌∷◌ b) (unstuff-drop n bytes owed (omega (arith, l)))

pub is_stuffed-drop :
    (n : ℕ) (bytes : List ℕ) → n ≤ length bytes → is_stuffed n bytes ≡ is_stuffed 0 (drop n bytes)
unfolding is_stuffed
is_stuffed-drop zero bytes l = refl
is_stuffed-drop (suc n) [] l = absurd (omega (arith, l))
is_stuffed-drop (suc n) (b ∷ bytes) l = is_stuffed-drop n bytes (omega (arith, l))

pub is_stuffed-short : (n : ℕ) (bytes : List ℕ) → length bytes < n → is_stuffed n bytes ≡ false
unfolding is_stuffed
is_stuffed-short zero bytes l = absurd (omega (arith, l))
is_stuffed-short (suc n) [] l = ground arith
is_stuffed-short (suc n) (b ∷ bytes) l = is_stuffed-short n bytes (omega (arith, l))

abbrev pub has_more : List ℕ → Bool
has_more [] = false
has_more (b ∷ bytes) = true

-- A zero is owed only if another block follows.
pub unstuff-owed :
    (owed : Bool) (bytes : List ℕ)
    → unstuff 0 owed bytes ≡ owed_bytes (owed && has_more bytes) ++ unstuff 0 false bytes
unfolding unstuff
unstuff-owed true [] = refl
unstuff-owed false [] = refl
unstuff-owed true (b ∷ bytes) = refl
unstuff-owed false (b ∷ bytes) = refl

pub ltb-has_more :
    (index size : ℕ) (bytes : List ℕ)
    → size ≡ index + length bytes
    → ltb index size ≡ has_more bytes
ltb-has_more index size [] e = ground (arith, e)
ltb-has_more index size (b ∷ bytes) e = ground (arith, e)

-- The size that one block and the zero it owes add.
pub length-unstuff :
    (n : ℕ) (bytes : List ℕ) (owed : Bool)
    → n ≤ length bytes
    → length (unstuff n owed bytes)
      ≡ n
        + length (owed_bytes (owed && has_more (drop n bytes)))
        + length (unstuff 0 false (drop n bytes))
length-unstuff n bytes owed l =
    let behind = drop n bytes in
    let due = owed_bytes (owed && has_more behind) in
    let parts =
      ap length
        (unstuff-drop n bytes owed l ∙ ap (◌++◌ (take n bytes)) (unstuff-owed owed behind)) in
    let outer = length-append (take n bytes) (due ++ unstuff 0 false behind) in
    let inner = length-append due (unstuff 0 false behind) in
    let taken = length-take n bytes in omega (arith, parts, outer, inner, taken, l)

-- The answer of the loop where `result` bytes are counted and `bytes` are left.
abbrev pub sized_answer : ℕ → List ℕ → Foundation × Option ℕ
sized_answer result bytes =
    if is_stuffed 0 bytes
    then (ok, some (result + length (unstuff 0 false bytes)))
    else (invalid_data, none)

pub previous-suc : (n : ℕ) → suc n < 256 → previous (suc n) ≡ n
previous-suc n l = omega (arith, l)

due_counted :
    (due : Bool) (result n rest total : ℕ)
    → total ≡ n + length (owed_bytes due) + rest
    → (if due then suc (result + n) else result + n) + rest ≡ result + total
due_counted true result n rest total e = omega (arith, e)
due_counted false result n rest total e = omega (arith, e)

-- Counting a block and the zero it owes first changes nothing.
sized_answer-block :
    (result n : ℕ) (bytes : List ℕ)
    → n ≤ length bytes
    → let due = not (suc n == full_code) && has_more (drop n bytes) in
      sized_answer (if due then suc (result + n) else result + n) (drop n bytes)
      ≡ sized_answer result (suc n ∷ bytes)
unfolding is_stuffed unstuff
sized_answer-block result n bytes within =
    let due = not (suc n == full_code) && has_more (drop n bytes) in
    let less : suc n - 1 ≡ n = omega arith in
    let sized = length-unstuff n bytes (not (suc n == full_code)) within in
    let counted : (if due then suc (result + n) else result + n)
          + length (unstuff 0 false (drop n bytes))
        ≡ result + length (unstuff (suc n - 1) (not (suc n == full_code)) bytes) =
      due_counted due result n _ _ (rw less sized) in
    ap₂ (λ s k. if s then (ok, some k) else (invalid_data, none))
      (sym (is_stuffed-drop n bytes within)) counted

pub size_loop-sized_answer :
    (fuel : ℕ) (bytes encoded : List ℕ) (size index result : ℕ)
    → length bytes ≤ fuel
    → Reads encoded index bytes
    → AreBytes bytes
    → size ≡ index + length bytes
    → result ≤ index
    → size ≤ size_max
    → size_loop fuel encoded size index result ≡ sized_answer result bytes
unfolding size_loop is_stuffed unstuff
size_loop-sized_answer zero [] encoded size index result f r a e le m =
    let same : result ≡ result + 0 = omega arith in ap (λ n. (ok, some n)) same
size_loop-sized_answer zero (b ∷ bytes) encoded size index result f r a e le m =
    absurd (omega (arith, f))
size_loop-sized_answer (suc fuel) [] encoded size index result f r a e le m =
    let same : result ≡ result + 0 = omega arith in
    let ended : ltb index size ≡ false = ground (arith, e) in
    let stop : size_loop (suc fuel) encoded size index result ≡ (ok, some result) = simp ended in
    stop ∙ ap (λ n. (ok, some n)) same
size_loop-sized_answer (suc fuel) (zero ∷ bytes) encoded size index result f r a e le m =
    let code = Reads-head encoded index zero bytes r in
    let more : ltb index size ≡ true = ground (arith, e) in simp (more, code)
size_loop-sized_answer (suc fuel) (suc n ∷ bytes) encoded size index result f r a e le m =
    let code = Reads-head encoded index (suc n) bytes r in
    let more : ltb index size ≡ true = ground (arith, e) in
    let copied = previous-suc n a.0 in
    let nonzero : (suc n == 0) ≡ false = ground arith in
    elim (Bool-cases (ltb (length bytes) n)) [
      | inl short ↦
          let over : ltb (size - suc index) n ≡ true = ground (arith, short, e) in
          let broken : is_stuffed n bytes ≡ false =
            is_stuffed-short n bytes (ground (arith, short)) in
          simp (more, code, copied, nonzero, over, broken)
      | inr long ↦
          let within : n ≤ length bytes = ground (arith, long) in
          let over : ltb (size - suc index) n ≡ false = ground (arith, long, e) in
          let room : ltb (size_max - n) result ≡ false = ground (arith, long, e, le, m) in
          let behind = drop n bytes in
          let left = length-drop n bytes in
          let due = not (suc n == full_code) && has_more behind in
          let end : size ≡ suc index + n + length behind = omega (arith, e, left, within) in
          let last = ltb-has_more (suc index + n) size behind end in
          let stuffed = is_stuffed-drop n bytes within in
          let rest =
            size_loop-sized_answer fuel behind encoded size (suc index + n)
              (if due then suc (result + n) else result + n) (omega (arith, f, left))
              (Reads-drop n encoded (suc index) bytes (Reads-tail encoded index (suc n) bytes r))
              (drop-AreBytes n bytes a.1) end (ground (arith, le)) m in
          let step : size_loop (suc fuel) encoded size index result
              ≡ size_loop fuel encoded size (suc index + n)
                  (if due then suc (result + n) else result + n) =
            simp (more, code, copied, nonzero, over, room, last) in
          step ∙ rest ∙ sized_answer-block result n bytes within
    ]
