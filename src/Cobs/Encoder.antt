-- ===== src/Cobs/Encoder.antt =====
-- The loop of cobs_encode writes the encoding.
use embedded_library.Prelude.{
  ℕ, zero, suc, ◌+◌, ◌%◌, ◌≤◌, ◌<◌, ◌≡◌, refl, sym, ap, ap₂, subst, ◌∙◌, Bool, true, false, ◌==◌,
  if◌then◌else◌, List, [], ◌∷◌, ◌++◌, length, set, length-append, append_assoc, arith,
}
use embedded_library.Cobs.{encode_loop, full_code}
use embedded_library.Cobs.Stuffing.{stuff, stuff-longer}

set-append :
    (xs : List ℕ) (y : ℕ) (ys : List ℕ) (i v : ℕ)
    → i ≡ length xs
    → set (xs ++ (y ∷ ys)) i v ≡ xs ++ (v ∷ ys)
set-append [] y ys zero v e = refl
set-append [] y ys (suc i) v e = absurd (omega (arith, e))
set-append (x ∷ xs) y ys zero v e = absurd (omega (arith, e))
set-append (x ∷ xs) y ys (suc i) v e = ap (◌∷◌ x) (set-append xs y ys i v (omega (arith, e)))

-- Two conditionals whose conditions agree.
if_both {ℓ κ μ} :
    {A : Type ℓ} {B : Type κ} (P : A → B → Type μ) (b c : Bool) {x x' : A} {y y' : B}
    → b ≡ c
    → (b ≡ true → P x y)
    → (b ≡ false → P x' y')
    → P (if b then x else x') (if c then y else y')
if_both P true true e p q = p refl
if_both P false false e p q = q refl
if_both P true false e p q = cc
if_both P false true e p q = cc

-- The loop has put the bytes behind the ones of `front`.
abbrev pub HasWritten : List ℕ → List ℕ × ℕ → List ℕ → Type 0
HasWritten front r encoding =
    (rest : List ℕ) × (r ≡ (front ++ (encoding ++ rest), length front + length encoding))

-- What was written behind a longer front.
regroup :
    (front part encoding : List ℕ) (r : List ℕ × ℕ)
    → HasWritten (front ++ part) r encoding
    → HasWritten front r (part ++ encoding)
regroup front part encoding r (rest, e) =
    let size = length-append part encoding in
    let behind = length-append front part in
    let moved =
      append_assoc front part (encoding ++ rest)
      ∙ ap (◌++◌ front) (sym (append_assoc part encoding rest)) in
    let counted : length (front ++ part) + length encoding
        ≡ length front + length (part ++ encoding) =
      omega (arith, size, behind) in
    (rest, e ∙ ap₂ (λ o n. (o, n)) moved counted)

filled_place :
    (front block tail output : List ℕ) (place i code : ℕ)
    → output ≡ front ++ (place ∷ (block ++ tail))
    → i ≡ length front
    → set output i code ≡ (front ++ (code ∷ block)) ++ tail
filled_place front block tail output place i code e ei =
    ap (λ o. set o i code) e
    ∙ set-append front place (block ++ tail) i code ei
    ∙ sym (append_assoc front (code ∷ block) tail)

added_byte :
    (front block tail output : List ℕ) (place t w byte : ℕ)
    → output ≡ front ++ (place ∷ (block ++ (t ∷ tail)))
    → w ≡ length front + suc (length block)
    → set output w byte ≡ front ++ (place ∷ ((block ++ (byte ∷ [])) ++ tail))
added_byte front block tail output place t w byte e ew =
    let head = front ++ (place ∷ block) in
    let size = length-append front (place ∷ block) in
    ap (λ o. set o w byte) (e ∙ sym (append_assoc front (place ∷ block) (t ∷ tail)))
    ∙ set-append head t tail w byte (omega (arith, ew, size))
    ∙ append_assoc front (place ∷ block) (byte ∷ tail)
    ∙ ap (λ l. front ++ (place ∷ l)) (sym (append_assoc block (byte ∷ []) tail))

pub nonempty : (tail : List ℕ) → 0 < length tail → (t : ℕ) × (rest : List ℕ) × (tail ≡ t ∷ rest)
nonempty [] l = absurd (omega arith)
nonempty (t ∷ rest) l = (t, rest, refl)

-- What the loop does with the bytes that are left: `front` is written, a place is kept for the code of
-- the block, and then the block stands.
abbrev Encodes : List ℕ → Type 0
Encodes bytes =
    (front block tail output : List ℕ) (place write_index code_index code : ℕ)
    → output ≡ front ++ (place ∷ (block ++ tail))
    → write_index ≡ length front + suc (length block)
    → code_index ≡ length front
    → code ≡ suc (length block)
    → length block < 254
    → length (stuff block bytes) ≤ suc (length block + length tail)
    → HasWritten front (encode_loop bytes output write_index code_index code) (stuff block bytes)

module _ (bytes : List ℕ) (after : Encodes bytes) where
  -- A block is closed, and the next one begins.
  next_block :
      (front block tail output : List ℕ) (place write_index code_index code : ℕ)
      → output ≡ front ++ (place ∷ (block ++ tail))
      → write_index ≡ length front + suc (length block)
      → code_index ≡ length front
      → code ≡ suc (length block)
      → length (suc (length block) ∷ (block ++ stuff [] bytes)) ≤ suc (length block + length tail)
      → HasWritten front
          (encode_loop bytes (set output code_index code) (suc write_index) write_index 1)
          (suc (length block) ∷ (block ++ stuff [] bytes))
  next_block front block tail output place w i c e ew ei ec room =
      let sized = length-append block (stuff [] bytes) in
      let some_left = stuff-longer bytes [] in
      let (t, tail', split) = nonempty tail (omega (arith, room, sized, some_left)) in
      let one_less = ap length split in
      let part = suc (length block) ∷ block in
      let behind = length-append front part in
      let stored =
        filled_place front block tail output place i c e ei
        ∙ ap₂ (λ n l. (front ++ (n ∷ block)) ++ l) ec split in
      regroup front part (stuff [] bytes) _ (
        after (front ++ part) [] tail' (set output i c) t (suc w) w 1 stored
          (omega (arith, ew, behind)) (omega (arith, ew, behind)) refl (omega arith)
          (omega (arith, room, sized, one_less)))

  module _ (front block tail output : List ℕ) (place write_index code_index code byte : ℕ)
      (e : output ≡ front ++ (place ∷ (block ++ tail)))
      (ew : write_index ≡ length front + suc (length block)) (ei : code_index ≡ length front)
      (ec : code ≡ suc (length block)) (l : length block < 254) where
    -- A byte that is not zero joins the block.
    joined :
        0 < length tail
        → (tail' : List ℕ) × (length tail ≡ suc (length tail'))
          × (set output write_index byte ≡ front ++ (place ∷ ((block ++ (byte ∷ [])) ++ tail')))
    joined room =
        let (t, tail', split) = nonempty tail room in
        (
          tail',
          ap length split,
          added_byte front block tail' output place t write_index byte
              (e ∙ ap (λ k. front ++ (place ∷ (block ++ k))) split) ew,
        )

    full_block :
        (code + 1) % 256 ≡ 255
        → length (255 ∷ ((block ++ (byte ∷ [])) ++ stuff [] bytes))
          ≤ suc (length block + length tail)
        → HasWritten front
            (encode_loop bytes
              (set (set output write_index byte) code_index ((code + 1) % 256))
              (suc (suc write_index))
              (suc write_index)
              1)
            (255 ∷ ((block ++ (byte ∷ [])) ++ stuff [] bytes))
    full_block f room =
        let block' = block ++ (byte ∷ []) in
        let grown = length-append block (byte ∷ []) in
        let sized = length-append block' (stuff [] bytes) in
        let (tail', one_less, added) = joined (omega (arith, room, sized, grown)) in
        let r =
          encode_loop bytes (set (set output write_index byte) code_index ((code + 1) % 256))
            (suc (suc write_index)) (suc write_index) 1 in
        let code_is : (code + 1) % 256 ≡ suc (length block') = omega (arith, ec, l, grown) in
        let full : suc (length block') ≡ 255 = omega (arith, f, code_is) in
        subst (λ n. HasWritten front r (n ∷ (block' ++ stuff [] bytes))) full
          (next_block front block' tail' (set output write_index byte) place (suc write_index)
            code_index ((code + 1) % 256) added (omega (arith, ew, grown)) ei code_is
            (omega (arith, room, sized, grown, one_less)))

    longer_block :
        (((code + 1) % 256) == full_code) ≡ false
        → length (stuff (block ++ (byte ∷ [])) bytes) ≤ suc (length block + length tail)
        → HasWritten front
            (encode_loop bytes
              (set output write_index byte)
              (suc write_index)
              code_index
              ((code + 1) % 256))
            (stuff (block ++ (byte ∷ [])) bytes)
    longer_block f room =
        let block' = block ++ (byte ∷ []) in
        let grown = length-append block (byte ∷ []) in
        let longer = stuff-longer bytes block' in
        let (tail', one_less, added) = joined (omega (arith, room, longer, grown)) in
        after front block' tail' (set output write_index byte) place (suc write_index) code_index
          ((code + 1) % 256) added (omega (arith, ew, grown)) ei (omega (arith, ec, l, grown))
          (ground (arith, f, ec, l, grown)) (omega (arith, room, grown, one_less))

pub encode_loop-stuff : (bytes : List ℕ) → Encodes bytes
unfolding encode_loop stuff
encode_loop-stuff [] front block tail output place w i c e ew ei ec l fits =
    let same =
      filled_place front block tail output place i c e ei
      ∙ ap (λ n. (front ++ (n ∷ block)) ++ tail) ec
      ∙ append_assoc front (suc (length block) ∷ block) tail in
    (tail, ap₂ (λ o n. (o, n)) same ew)
encode_loop-stuff (byte ∷ bytes) front block tail output place w i c e ew ei ec l fits =
    let P : List ℕ × ℕ → List ℕ → Type 0 =
      λ r s. (length s ≤ suc (length block + length tail) → HasWritten front r s) in
    let after = encode_loop-stuff bytes in
    if_both P (byte == 0) (byte == 0) refl
      (λ _. next_block bytes after front block tail output place w i c e ew ei ec)
      (λ _.
        if_both P ((c + 1) % 256 == full_code) (length block == 253) (ground (arith, ec, l))
          (λ f.
            full_block bytes after front block tail output place w i c byte e ew ei ec l
              (ground (arith, f)))
          (λ f. longer_block bytes after front block tail output place w i c byte e ew ei ec l f))
      fits
