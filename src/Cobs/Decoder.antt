-- ===== src/Cobs/Decoder.antt =====
-- The copies of cobs_decode, into a buffer of its own or over the encoding.
use embedded_library.Prelude.{
  ℕ, zero, suc, ◌+◌, ◌≤◌, ◌<◌, ◌≡◌, refl, sym, subst, ◌∙◌, Bool, true, false, ◌==◌, if◌then◌else◌,
  if_elim, List, [], ◌∷◌, ◌++◌, length, set, get_or, length-append, length-set, get_or-set,
  get_or-append_left, append-nil, append_assoc, arith,
}
use embedded_library.Cobs.{byte_at, copy_bytes}
use embedded_library.Cobs.Reading.{Reads, Reads-head, Reads-tail}

-- The buffer starts with the bytes.
abbrev pub StartsWith : List ℕ → List ℕ → Type 0
StartsWith buffer bytes = (j : ℕ) → j < length bytes → get_or buffer j 0 ≡ get_or bytes j 0

get_or-append_right : (xs : List ℕ) (y j : ℕ) → j ≡ length xs → get_or (xs ++ (y ∷ [])) j 0 ≡ y
get_or-append_right [] y j e = rw e refl
get_or-append_right (x ∷ xs) y zero e = absurd (omega (arith, e))
get_or-append_right (x ∷ xs) y (suc j) e = get_or-append_right xs y j (omega (arith, e))

-- A write behind the bytes.
pub set-StartsWith :
    (buffer bytes : List ℕ) (out byte value : ℕ)
    → StartsWith buffer bytes
    → out ≡ length bytes
    → value ≡ byte
    → out < length buffer
    → StartsWith (set buffer out value) (bytes ++ (byte ∷ []))
set-StartsWith buffer bytes out byte value s o v l j b =
    let grown = length-append bytes (byte ∷ []) in
    let whole = bytes ++ (byte ∷ []) in
    get_or-set buffer out j value 0 l
    ∙ if_elim (λ x. x ≡ get_or whole j 0) (out == j)
        (λ e. v ∙ sym (get_or-append_right bytes byte j (ground (arith, e, o))))
        (λ n.
          let inside : j < length bytes = ground (arith, n, o, b, grown) in
          s j inside ∙ sym (get_or-append_left bytes (byte ∷ []) j 0 inside))

-- A write before the index that the reading has reached.
set-Reads :
    (buffer bytes : List ℕ) (index out value : ℕ)
    → Reads buffer index bytes
    → out < index
    → out < length buffer
    → Reads (set buffer out value) index bytes
set-Reads buffer bytes index out value r l m j b =
    get_or-set buffer out (index + j) value 0 m
    ∙ if_elim (λ x. x ≡ get_or bytes j 0) (out == index + j) (λ e. absurd (ground (arith, e, l)))
        (λ _. r j b)

-- The buffer that is read: its own, or the one that is written.
abbrev pub source : Bool → List ℕ → List ℕ → List ℕ
source aliased input output = if aliased then output else input

pub source-Reads :
    (aliased : Bool) (input output bytes : List ℕ) (index out value : ℕ)
    → Reads (source aliased input output) index bytes
    → out < index
    → out < length output
    → Reads (source aliased input (set output out value)) index bytes
source-Reads true input output bytes index out value r l m =
    set-Reads output bytes index out value r l m
source-Reads false input output bytes index out value r l m = r

-- `output'` starts with `done`, the reading stands before `bytes`, and the size has not changed.
abbrev pub IsAt : Bool → List ℕ → ℕ → List ℕ → List ℕ → List ℕ → List ℕ → Type 0
IsAt aliased input index bytes done output output' =
    Reads (source aliased input output') index bytes
    × StartsWith output' done
    × (length output' ≡ length output)

pub copy_bytes-IsAt :
    (block : List ℕ) (aliased : Bool) (input output bytes done : List ℕ) (index out : ℕ)
    → Reads (source aliased input output) index (block ++ bytes)
    → StartsWith output done
    → out ≡ length done
    → out < index
    → out + length block ≤ length output
    → IsAt aliased input
        (index + length block)
        bytes
        (done ++ block)
        output
        (copy_bytes aliased input (length block) output index out)
unfolding copy_bytes
copy_bytes-IsAt [] aliased input output bytes done index out r s o l m =
    let same : index ≡ index + 0 = omega arith in
    (
      subst (λ i. Reads (source aliased input output) i bytes) same r,
      subst (StartsWith output) (sym (append-nil done)) s,
      refl,
    )
copy_bytes-IsAt (b ∷ block) aliased input output bytes done index out r s o l m =
    let src = source aliased input output in
    let value = byte_at aliased input output index in
    let output' = set output out value in
    let kept = length-set output out value in
    let grown = length-append done (b ∷ []) in
    let (reads, starts, size) =
      copy_bytes-IsAt block aliased input output' bytes (done ++ (b ∷ [])) (suc index) (suc out)
        (source-Reads aliased input output (block ++ bytes) (suc index) out value
          (Reads-tail src index b (block ++ bytes) r) (omega (arith, l)) (omega (arith, m)))
        (set-StartsWith output done out b value s o (Reads-head src index b (block ++ bytes) r)
          (omega (arith, m)))
        (omega (arith, o, grown)) (omega (arith, l)) (omega (arith, m, kept)) in
    let same : suc index + length block ≡ index + suc (length block) = omega arith in
    let last = copy_bytes aliased input (length block) output' (suc index) (suc out) in
    (
      subst (λ i. Reads (source aliased input last) i bytes) same reads,
      subst (StartsWith last) (append_assoc done (b ∷ []) block) starts,
      size ∙ kept,
    )
