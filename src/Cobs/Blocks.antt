-- ===== src/Cobs/Blocks.antt =====
-- The loop of cobs_decode over the blocks writes the decoding.
use embedded_library.Prelude.{
  ℕ, zero, suc, ◌+◌, ◌-◌, ◌≤◌, ◌<◌, ◌≡◌, refl, sym, ap, subst, ◌∙◌, Bool, true, false, not, ◌&&◌,
  ◌==◌, if◌then◌else◌, ltb, List, [], ◌∷◌, ◌++◌, length, take, drop, set, inl, inr, Bool-cases,
  length-append, length-set, length-take, append-nil, append_assoc, take-append-drop, arith,
}
use embedded_library.Cobs.{full_code, byte_at, copy_bytes, decode_loop}
use embedded_library.Cobs.Stuffing.{unstuff, is_stuffed, owed_bytes, AreBytes}
use embedded_library.Cobs.Reading.{
  Reads, Reads-head, Reads-tail, length-drop, drop-AreBytes, unstuff-drop, is_stuffed-drop,
  is_stuffed-short, has_more, unstuff-owed, ltb-has_more, previous-suc,
}
use embedded_library.Cobs.Decoder.{
  StartsWith, source, IsAt, copy_bytes-IsAt, set-StartsWith, source-Reads,
}

-- A block of the encoding, with the zero that it owes.
unstuff-split :
    (n : ℕ) (bytes : List ℕ)
    → n ≤ length bytes
    → let behind = drop n bytes in
      unstuff 0 false (suc n ∷ bytes)
      ≡ take n bytes
        ++ (owed_bytes (not (suc n == full_code) && has_more behind) ++ unstuff 0 false behind)
unfolding unstuff
unstuff-split n bytes l =
    let less : suc n - 1 ≡ n = omega arith in
    let behind = drop n bytes in
    ap (λ k. unstuff k (not (suc n == full_code)) bytes) less
    ∙ unstuff-drop n bytes (not (suc n == full_code)) l
    ∙ ap (◌++◌ (take n bytes)) (unstuff-owed (not (suc n == full_code)) behind)

-- The buffer starts with all the bytes, and they are counted.
abbrev pub HasDecoded : List ℕ → List ℕ × ℕ → Type 0
HasDecoded bytes (output, n) = StartsWith output bytes × (n ≡ length bytes)

-- One block: what the loop does with it, `due` saying whether a zero follows.
decode_step :
    (fuel n : ℕ) (aliased : Bool) (input output : List ℕ) (size index out : ℕ)
    → ltb index size ≡ true
    → byte_at aliased input output index ≡ suc n
    → suc n < 256
    → let copied = copy_bytes aliased input n output (suc index) out in
      let due = not (suc n == full_code) && ltb (suc index + n) size in
      decode_loop (suc fuel) aliased input size output index out ≡ (
        if due
        then decode_loop fuel aliased input size
            (set copied (out + n) 0)
            (suc index + n)
            (suc (out + n))
        else decode_loop fuel aliased input size copied (suc index + n) (out + n))
unfolding decode_loop
decode_step fuel n aliased input output size index out more code small =
    let copied = previous-suc n small in simp (more, code, copied)

-- The bytes of one block, copied.
block_copied :
    (n : ℕ) (bytes : List ℕ) (aliased : Bool) (input output done : List ℕ) (index out : ℕ)
    → n ≤ length bytes
    → Reads (source aliased input output) (suc index) bytes
    → StartsWith output done
    → out ≡ length done
    → out ≤ index
    → out + n ≤ length output
    → IsAt aliased input
        (suc index + n)
        (drop n bytes)
        (done ++ take n bytes)
        output
        (copy_bytes aliased input n output (suc index) out)
block_copied n bytes aliased input output done index out within r s o l m =
    let block = take n bytes in
    let counted : length block ≡ n = omega (arith, length-take n bytes, within) in
    let reads =
      subst (Reads (source aliased input output) (suc index)) (sym (take-append-drop n bytes)) r in
    subst
      (λ k.
        IsAt aliased input (suc index + k) (drop n bytes) (done ++ block) output
          (copy_bytes aliased input k output (suc index) out))
      counted
      (copy_bytes-IsAt block aliased input output (drop n bytes) done (suc index) out reads s o
        (omega (arith, l)) (omega (arith, m, counted)))

parts_length :
    (xs ys zs ws : List ℕ)
    → length (xs ++ (ys ++ (zs ++ ws))) ≡ length xs + (length ys + (length zs + length ws))
parts_length xs ys zs ws =
    omega
      (arith, length-append xs (ys ++ (zs ++ ws)), length-append ys (zs ++ ws), length-append zs ws)

-- What the loop does with the bytes that are left, `done` being written.
abbrev Decodes : ℕ → Type 0
Decodes fuel =
    (bytes : List ℕ) (aliased : Bool) (input output done : List ℕ) (size index out : ℕ)
    → length bytes ≤ fuel
    → Reads (source aliased input output) index bytes
    → AreBytes bytes
    → is_stuffed 0 bytes ≡ true
    → size ≡ index + length bytes
    → StartsWith output done
    → out ≡ length done
    → out ≤ index
    → length (done ++ unstuff 0 false bytes) ≤ length output
    → HasDecoded (done ++ unstuff 0 false bytes)
        (decode_loop fuel aliased input size output index out)

-- The end of a block, with the zero that is `due`.
end_block :
    (fuel : ℕ) (after : Decodes fuel) (due : Bool) (bytes : List ℕ) (aliased : Bool)
    (input output done : List ℕ) (size index out : ℕ)
    → length bytes ≤ fuel
    → Reads (source aliased input output) index bytes
    → AreBytes bytes
    → is_stuffed 0 bytes ≡ true
    → size ≡ index + length bytes
    → StartsWith output done
    → out ≡ length done
    → out < index
    → length (done ++ (owed_bytes due ++ unstuff 0 false bytes)) ≤ length output
    → HasDecoded (done ++ (owed_bytes due ++ unstuff 0 false bytes)) (
        if due
        then decode_loop fuel aliased input size (set output out 0) index (suc out)
        else decode_loop fuel aliased input size output index out)
end_block fuel after false bytes aliased input output done size index out f r a w e s o l m =
    after bytes aliased input output done size index out f r a w e s o (omega (arith, l)) m
end_block fuel after true bytes aliased input output done size index out f r a w e s o l m =
    let rest = unstuff 0 false bytes in
    let output' = set output out 0 in
    let grown = length-append done (0 ∷ []) in
    let total = length-append done (0 ∷ rest) in
    let regroup = append_assoc done (0 ∷ []) rest in
    let fits = ap length regroup in
    let room : out < length output = omega (arith, m, total, o) in
    subst (λ x. HasDecoded x (decode_loop fuel aliased input size output' index (suc out))) regroup
      (after bytes aliased input output' (done ++ (0 ∷ [])) size index (suc out) f
        (source-Reads aliased input output bytes index out 0 r l room) a w e
        (set-StartsWith output done out 0 0 s o refl room) (omega (arith, o, grown))
        (omega (arith, l)) (omega (arith, m, fits, length-set output out 0)))

within_bytes : (n : ℕ) (bytes : List ℕ) → is_stuffed n bytes ≡ true → n ≤ length bytes
within_bytes n bytes w = elim (Bool-cases (ltb (length bytes) n)) [
  | inl short ↦
      let broken = is_stuffed-short n bytes (ground (arith, short)) in
      absurd (ground (arith, broken, w))
  | inr long ↦ ground (arith, long)
]

pub decode_loop-HasDecoded : (fuel : ℕ) → Decodes fuel
unfolding decode_loop is_stuffed unstuff
decode_loop-HasDecoded zero [] aliased input output done size index out f r a w e s o l m =
    (subst (StartsWith output) (sym (append-nil done)) s, o ∙ ap length (sym (append-nil done)))
decode_loop-HasDecoded zero (b ∷ bytes) aliased input output done size index out f r a w e s o l m =
    absurd (omega (arith, f))
decode_loop-HasDecoded (suc fuel) [] aliased input output done size index out f r a w e s o l m =
    let ended : ltb index size ≡ false = ground (arith, e) in
    rw ended
      (subst (StartsWith output) (sym (append-nil done)) s, o ∙ ap length (sym (append-nil done)))
decode_loop-HasDecoded (suc fuel) (zero ∷ bytes) aliased input output done size index out f r a w e
      s o l m =
    cc
decode_loop-HasDecoded (suc fuel) (suc n ∷ bytes) aliased input output done size index out f r a w e
      s o l m =
    let within = within_bytes n bytes w in
    let block = take n bytes in
    let behind = drop n bytes in
    let left = length-drop n bytes in
    let end : size ≡ suc index + n + length behind = omega (arith, e, left, within) in
    let due = not (suc n == full_code) && ltb (suc index + n) size in
    let later = owed_bytes due ++ unstuff 0 false behind in
    let last = ltb-has_more (suc index + n) size behind end in
    let split : done ++ unstuff 0 false (suc n ∷ bytes) ≡ (done ++ block) ++ later =
      ap (◌++◌ done) (unstuff-split n bytes within)
      ∙ ap
          (λ b.
            done
            ++ (block ++ (owed_bytes (not (suc n == full_code) && b) ++ unstuff 0 false behind)))
          (sym last)
      ∙ sym (append_assoc done block later) in
    let step =
      decode_step fuel n aliased input output size index out (ground (arith, e))
        (Reads-head (source aliased input output) index (suc n) bytes r) a.0 in
    let counted : length block ≡ n = omega (arith, length-take n bytes, within) in
    let total = ap length split in
    let outer = length-append (done ++ block) later in
    let grown = length-append done block in
    let copied = copy_bytes aliased input n output (suc index) out in
    let (reads, starts, kept) =
      block_copied n bytes aliased input output done index out within
        (Reads-tail (source aliased input output) index (suc n) bytes r) s o l
        (omega (arith, m, total, outer, grown, counted, o)) in
    let ended =
      end_block fuel (decode_loop-HasDecoded fuel) due behind aliased input copied (done ++ block)
        size (suc index + n) (out + n) (omega (arith, f, left)) reads (drop-AreBytes n bytes a.1)
        (sym (is_stuffed-drop n bytes within) ∙ w) end starts (omega (arith, o, grown, counted))
        (omega (arith, l)) (omega (arith, total, m, kept)) in
    let branches =
      if due
      then decode_loop fuel aliased input size (set copied (out + n) 0) (suc index + n)
          (suc (out + n))
      else decode_loop fuel aliased input size copied (suc index + n) (out + n) in
    subst (HasDecoded (done ++ unstuff 0 false (suc n ∷ bytes))) (sym step)
      (subst (λ x. HasDecoded x branches) (sym split) ended)
