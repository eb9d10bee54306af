-- ===== src/Cobs/Stuffing.antt =====
-- What the encoding is, without indices: the bytes cut into blocks, and the two recursions over them.
use embedded_library.Prelude.{
  ℕ, zero, suc, ◌+◌, ◌-◌, ◌/◌, ◌≤◌, ◌<◌, ◌≡◌, refl, sym, ap, ◌∙◌, Bool, true, false, not, ◌==◌,
  if◌then◌else◌, if_elim, List, [], ◌∷◌, ◌++◌, length, length-append, append-nil, append_assoc,
  arith,
}

-- The encoding of `block` and of the bytes after it, where `block` is the part of the current block that
-- was read. A block ends at a zero, which is not kept, or after 254 bytes.
unfoldable pub stuff : List ℕ → List ℕ → List ℕ
stuff block [] = suc (length block) ∷ block
stuff block (byte ∷ bytes) =
    let closed = suc (length block) ∷ block ++ stuff [] bytes in
    let filled = 255 ∷ (block ++ byte ∷ []) ++ stuff [] bytes in
    let longer = stuff (block ++ byte ∷ []) bytes in
    if byte == 0 then closed else if length block == 253 then filled else longer

-- The zero that the end of a block stands for.
abbrev pub owed_bytes : Bool → List ℕ
owed_bytes true = 0 ∷ []
owed_bytes false = []

-- The decoding, byte by byte: `left` bytes of the block are to come, and the next code, if there is one,
-- stands for a zero if `owed`.
unfoldable pub unstuff : ℕ → Bool → List ℕ → List ℕ
unstuff left owed [] = []
unstuff zero owed (code ∷ bytes) = owed_bytes owed ++ unstuff (code - 1) (not (code == 255)) bytes
unstuff (suc left) owed (byte ∷ bytes) = byte ∷ unstuff left owed bytes

-- Every block is complete, and no code is zero.
unfoldable pub is_stuffed : ℕ → List ℕ → Bool
is_stuffed left [] = left == 0
is_stuffed zero (zero ∷ bytes) = false
is_stuffed zero (suc copy_size ∷ bytes) = is_stuffed copy_size bytes
is_stuffed (suc left) (byte ∷ bytes) = is_stuffed left bytes

abbrev pub AreBytes : List ℕ → Type 0
AreBytes [] = Unit
AreBytes (byte ∷ bytes) = (byte < 256) × AreBytes bytes

unstuff-append :
    (block bytes : List ℕ) (left : ℕ) (owed : Bool)
    → left ≡ length block
    → unstuff left owed (block ++ bytes) ≡ block ++ unstuff 0 owed bytes
unfolding unstuff
unstuff-append [] bytes left owed e = ap (λ n. unstuff n owed bytes) e
unstuff-append (b ∷ block) bytes zero owed e = absurd (omega (arith, e))
unstuff-append (b ∷ block) bytes (suc left) owed e =
    ap (◌∷◌ b) (unstuff-append block bytes left owed (omega (arith, e)))

-- A block with its code.
unstuff-block :
    (code : ℕ) (block bytes : List ℕ) (owed : Bool)
    → code ≡ suc (length block)
    → unstuff 0 owed (code ∷ block ++ bytes)
      ≡ owed_bytes owed ++ (block ++ unstuff 0 (not (code == 255)) bytes)
unfolding unstuff
unstuff-block code block bytes owed e =
    ap (◌++◌ (owed_bytes owed)) (unstuff-append block bytes (code - 1) _ (omega (arith, e)))

-- Decoding what the encoding of a block and the bytes after it gives the block and the bytes.
pub unstuff-stuff :
    (bytes block : List ℕ) (owed : Bool)
    → length block < 254
    → unstuff 0 owed (stuff block bytes) ≡ owed_bytes owed ++ (block ++ bytes)
unfolding stuff unstuff
unstuff-stuff [] block owed l =
    ap (λ s. unstuff 0 owed (suc (length block) ∷ s)) (sym (append-nil block))
    ∙ unstuff-block (suc (length block)) block [] owed refl
unstuff-stuff (byte ∷ bytes) block owed l =
    let P : List ℕ → Type 0 =
      λ s. unstuff 0 owed s ≡ owed_bytes owed ++ (block ++ (byte ∷ bytes)) in
    let block' = block ++ (byte ∷ []) in
    let grown = length-append block (byte ∷ []) in
    let behind : List ℕ → List ℕ = λ s. owed_bytes owed ++ (block ++ s) in
    let regroup = ap (◌++◌ (owed_bytes owed)) (append_assoc block (byte ∷ []) bytes) in
    if_elim P (byte == 0)
      (λ z.
        let open_code : not (suc (length block) == 255) ≡ true = ground arith in
        let is_zero : 0 ≡ byte = ground (arith, z) in
        unstuff-block (suc (length block)) block (stuff [] bytes) owed refl
        ∙ ap (λ o. behind (unstuff 0 o (stuff [] bytes))) open_code
        ∙ ap behind (unstuff-stuff bytes [] true (omega arith))
        ∙ ap (λ b. behind (b ∷ bytes)) is_zero)
      (λ _.
        if_elim P (length block == 253)
          (λ f.
            unstuff-block 255 block' (stuff [] bytes) owed (ground (arith, f, grown))
            ∙ ap (λ s. owed_bytes owed ++ (block' ++ s))
                (unstuff-stuff bytes [] false (omega arith))
            ∙ regroup)
          (λ f. unstuff-stuff bytes block' owed (ground (arith, f, grown)) ∙ regroup))

-- A block of bytes, with its code, keeps the rest well-formed.
is_stuffed-append :
    (block bytes : List ℕ) (left : ℕ)
    → left ≡ length block
    → is_stuffed left (block ++ bytes) ≡ is_stuffed 0 bytes
unfolding is_stuffed
is_stuffed-append [] bytes left e = ap (λ n. is_stuffed n bytes) e
is_stuffed-append (b ∷ block) bytes zero e = absurd (omega (arith, e))
is_stuffed-append (b ∷ block) bytes (suc left) e =
    is_stuffed-append block bytes left (omega (arith, e))

is_stuffed-block :
    (code : ℕ) (block bytes : List ℕ)
    → code ≡ suc (length block)
    → is_stuffed 0 (code ∷ (block ++ bytes)) ≡ is_stuffed 0 bytes
unfolding is_stuffed
is_stuffed-block zero block bytes e = absurd (omega (arith, e))
is_stuffed-block (suc left) block bytes e = is_stuffed-append block bytes left (omega (arith, e))

pub stuff-is_stuffed :
    (bytes block : List ℕ) → length block < 254 → is_stuffed 0 (stuff block bytes) ≡ true
unfolding stuff is_stuffed
stuff-is_stuffed [] block l =
    ap (λ s. is_stuffed 0 (suc (length block) ∷ s)) (sym (append-nil block))
    ∙ is_stuffed-block (suc (length block)) block [] refl
stuff-is_stuffed (byte ∷ bytes) block l =
    let P : List ℕ → Type 0 = λ s. is_stuffed 0 s ≡ true in
    let block' = block ++ (byte ∷ []) in
    let grown = length-append block (byte ∷ []) in
    let rest = stuff-is_stuffed bytes [] (omega arith) in
    if_elim P (byte == 0)
      (λ _. is_stuffed-block (suc (length block)) block (stuff [] bytes) refl ∙ rest)
      (λ _.
        if_elim P (length block == 253)
          (λ f. is_stuffed-block 255 block' (stuff [] bytes) (ground (arith, f, grown)) ∙ rest)
          (λ f. stuff-is_stuffed bytes block' (ground (arith, f, grown))))

append-AreBytes : (xs ys : List ℕ) → AreBytes xs → AreBytes ys → AreBytes (xs ++ ys)
append-AreBytes [] ys a b = b
append-AreBytes (x ∷ xs) ys a b = (a.0, append-AreBytes xs ys a.1 b)

pub stuff-AreBytes :
    (bytes block : List ℕ)
    → length block < 254
    → AreBytes bytes
    → AreBytes block
    → AreBytes (stuff block bytes)
unfolding stuff
stuff-AreBytes [] block l a b = (omega arith, b)
stuff-AreBytes (byte ∷ bytes) block l a b =
    let block' = block ++ (byte ∷ []) in
    let grown = length-append block (byte ∷ []) in
    let b' = append-AreBytes block (byte ∷ []) b (a.0, tt) in
    let rest = stuff-AreBytes bytes [] (omega arith) a.1 tt in
    if_elim AreBytes (byte == 0) (λ _. (omega arith, append-AreBytes block _ b rest))
      (λ _.
        if_elim AreBytes (length block == 253)
          (λ f. (omega arith, append-AreBytes block' _ b' rest))
          (λ f. stuff-AreBytes bytes block' (ground (arith, f, grown)) a.1 b'))

pub stuff-longer : (bytes block : List ℕ) → length block + length bytes < length (stuff block bytes)
unfolding stuff
stuff-longer [] block = omega arith
stuff-longer (byte ∷ bytes) block =
    let P : List ℕ → Type 0 = λ s. length block + suc (length bytes) < length s in
    let block' = block ++ (byte ∷ []) in
    let sized = length-append block (stuff [] bytes) in
    let sized' = length-append block' (stuff [] bytes) in
    let grown = length-append block (byte ∷ []) in
    let rest = stuff-longer bytes [] in
    let longer = stuff-longer bytes block' in
    if_elim P (byte == 0) (λ _. omega (arith, sized, rest))
      (λ _.
        if_elim P (length block == 253) (λ _. omega (arith, sized', grown, rest))
          (λ _. omega (arith, longer, grown)))

-- A block and the bytes after it take one byte more, and one for every 254.
pub length-stuff :
    (bytes block : List ℕ)
    → length block < 254
    → length (stuff block bytes)
      ≤ length block + length bytes + 1 + (length block + length bytes) / 254
unfolding stuff
length-stuff [] block l = omega arith
length-stuff (byte ∷ bytes) block l =
    let total = length block + suc (length bytes) in
    let P : List ℕ → Type 0 = λ s. length s ≤ total + 1 + total / 254 in
    let block' = block ++ (byte ∷ []) in
    let grown = length-append block (byte ∷ []) in
    let rest = length-stuff bytes [] (omega arith) in
    let joined = length-append block (stuff [] bytes) in
    let joined' = length-append block' (stuff [] bytes) in
    if_elim P (byte == 0) (λ _. omega (arith, rest, joined))
      (λ _.
        if_elim P (length block == 253) (λ f. ground (arith, f, rest, joined', grown))
          (λ f.
            let longer = length-stuff bytes block' (ground (arith, f, grown)) in
            omega (arith, longer, grown)))
