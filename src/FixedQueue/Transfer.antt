-- ===== src/FixedQueue/Transfer.antt =====
-- `transfer` as an operation on the list of elements.
pub mod Read
use native.Mathlib.Nat.{mul-le-mul_right}
use embedded_library.Prelude.{
  ℕ, suc, ◌-◌, ◌*◌, ◌/◌, ◌≤◌, ◌<◌, ◌≡◌, refl, sym, ◌∙◌, ap, ap₂, subst, inl, inr, Bool, true, false,
  not, ◌&&◌, ◌==◌, if◌then◌else◌, if_elim, ltb, size_max, Option, some, none, List, ◌++◌, length,
  Bool-cases, arith,
}
use embedded_library.Foundation.{Foundation, ok, full, empty, overlaps}
use embedded_library.FixedQueue.{
  FixedQueue, store_loop, fetch_loop, marked, rejected, transfer, valid_data, word_bytes,
}
use embedded_library.FixedQueue.Inv.{IsValid, check-ok, contents}
use embedded_library.FixedQueue.Loops.{
  elements_of, store_loop-IsStored, fetch_loop-IsFetched, marked-contents, marked-IsValid,
}

-- The arguments that `transfer` accepts: a count whose bytes `size_t` counts, and a pointer to the data
-- and one to the result that overlap neither the queue, its storage nor each other.
pub record IsAccepted (address : ℕ) (q : FixedQueue) (pointer count result : ℕ) : Type 0 where
  pub counted : count ≤ size_max / q.element_size
  pub data_valid : valid_data address q pointer (count * q.element_size) ≡ true
  pub result_set : 0 < result
  pub result_valid : valid_data address q result word_bytes ≡ true
  pub apart : overlaps pointer (count * q.element_size) result word_bytes ≡ false

-- The smaller of what there is room for and what is asked.
abbrev pub amount_of : ℕ → ℕ → ℕ
amount_of room count = if ltb room count then room else count

-- The answers of a write: whether elements were asked and none fits.
abbrev pub IsWritten :
    FixedQueue → List ℕ → ℕ → ℕ → Foundation × Option FixedQueue × List ℕ × Option ℕ → Bool → Type 0
IsWritten q input count amount r true =
    (q' : FixedQueue) × (r ≡ (full, some q', input, none))
    × IsValid q'
    × (contents q' ≡ contents q)
    × (q'.rejected_count ≡ amount_of (suc q.rejected_count) size_max)
IsWritten q input count amount r false =
    (q' : FixedQueue) × (r ≡ (ok, some q', input, some amount))
    × IsValid q'
    × (contents q' ≡ contents q ++ elements_of q.element_size input 0 amount)
    × (q'.rejected_count ≡ (
        if ltb amount count then amount_of (suc q.rejected_count) size_max else q.rejected_count))
    × (q'.high_water_mark ≡ (if ltb q.high_water_mark q'.size then q'.size else q.high_water_mark))

marked_size : (q : FixedQueue) → (marked q).size ≡ q.size
marked_size q =
    if_elim (λ (p : FixedQueue). p.size ≡ q.size) (ltb q.high_water_mark q.size) (λ _. refl)
      (λ _. refl)

marked_rejected : (q : FixedQueue) → (marked q).rejected_count ≡ q.rejected_count
marked_rejected q =
    if_elim (λ (p : FixedQueue). p.rejected_count ≡ q.rejected_count) (ltb q.high_water_mark q.size)
      (λ _. refl) (λ _. refl)

marked_mark :
    (q : FixedQueue)
    → (marked q).high_water_mark
      ≡ (if ltb q.high_water_mark q.size then q.size else q.high_water_mark)
marked_mark q = elim (Bool-cases (ltb q.high_water_mark q.size)) [
  | inl e ↦ rw e refl
  | inr e ↦ rw e refl
]

module _ {q : FixedQueue} (v : IsValid q) (count room : ℕ) where
  -- The queue with its request counted as rejected, if it does not fit.
  pub record IsCounted (p : FixedQueue) : Type 0 where
    pub valid : IsValid p
    pub holds : contents p ≡ contents q
    pub size : p.size ≡ q.size
    pub capacity : p.capacity ≡ q.capacity
    pub element_size : p.element_size ≡ q.element_size
    pub high_water_mark : p.high_water_mark ≡ q.high_water_mark
    pub rejected_count :
        p.rejected_count
        ≡ (if ltb room count then amount_of (suc q.rejected_count) size_max else q.rejected_count)

  rejected-IsCounted : IsCounted (rejected q true count room)
  unfolding contents
  rejected-IsCounted =
      if_elim IsCounted (ltb room count && ltb q.rejected_count size_max)
        (λ more. record {
          valid = record {
            storage_set = v.storage_set;
            sized = v.sized;
            slots = v.slots;
            fits = v.fits;
            holds = v.holds;
            size_in = v.size_in;
            head_in = v.head_in;
            bounded = ground (arith, more);
          };
          holds = refl;
          size = refl;
          capacity = refl;
          element_size = refl;
          high_water_mark = refl;
          rejected_count = ground (arith, more);
        })
        (λ same. record {
          valid = v;
          holds = refl;
          size = refl;
          capacity = refl;
          element_size = refl;
          high_water_mark = refl;
          rejected_count = ground (arith, same, v.bounded);
        })

-- fixed_queue_push and fixed_queue_push_some (`transfer` when writing), on a valid queue with
-- arguments that it accepts: if elements are asked and the queue is full, it returns the error of a
-- full queue and keeps the elements; else it returns OK and as many elements as asked or as fit, and
-- those are behind the elements held, in order; a request that does not fit as a whole is counted
-- once, up to SIZE_MAX, and the high-water mark follows the size.
pub transfer-IsWritten :
    (address : ℕ) (q : FixedQueue) (pointer : ℕ) (input : List ℕ) (count result : ℕ)
    → IsValid q
    → IsAccepted address q pointer count result
    → IsWritten q input count
        (amount_of (q.capacity - q.size) count)
        (transfer address (some q) pointer input count result true)
        (not (count == 0) && q.capacity - q.size == 0)
unfolding transfer
transfer-IsWritten address q pointer input count result v a =
    let some_result : (result == 0) ≡ false = ground (arith, a.result_set) in
    let counted : ltb (size_max / q.element_size) count ≡ false = ground (arith, a.counted) in
    let room = q.capacity - q.size in
    let amount = amount_of room count in
    let call = transfer address (some q) pointer input count result true in
    let q' = rejected q true count room in
    let more = rejected-IsCounted v count room in
    let none_moves : (not (count == 0) && amount == 0) ≡ (not (count == 0) && room == 0) =
      ground arith in
    let enough : amount ≤ room = ground arith in
    elim (Bool-cases (not (count == 0) && room == 0)) [
      | inl none_left ↦
          let done : call ≡ (full, some q', input, none) =
            rw
              (
                check-ok v,
                counted,
                a.data_valid,
                some_result,
                a.result_valid,
                a.apart,
                none_moves,
                none_left,
              )
              refl in
          let too_many : ltb room count ≡ true = ground (arith, none_left) in
          let answer : IsWritten q input count amount call true = (
            q',
            done,
            more.valid,
            more.holds,
            more.rejected_count
                ∙ ap
                    (λ b. if b then amount_of (suc q.rejected_count) size_max else q.rejected_count)
                    too_many,
          ) in
          subst (IsWritten q input count amount call) (sym none_left) answer
      | inr some_left ↦
          let rest = store_loop amount q' input 0 in
          let loop =
            store_loop-IsStored amount q' input 0 more.valid
              (omega (arith, enough, v.size_in, more.size, more.capacity)) in
          let done : call ≡ (ok, some (marked rest), input, some amount) =
            rw
              (
                check-ok v,
                counted,
                a.data_valid,
                some_result,
                a.result_valid,
                a.apart,
                none_moves,
                some_left,
              )
              refl in
          let same_test : ltb room count ≡ ltb amount count = ground arith in
          let answer : IsWritten q input count amount call false = (
            marked rest,
            done,
            marked-IsValid loop.valid,
            marked-contents rest
                ∙ loop.holds
                ∙ ap₂ (λ l e. l ++ elements_of e input 0 amount) more.holds more.element_size,
            marked_rejected rest
                ∙ loop.rejected_count
                ∙ more.rejected_count
                ∙ ap
                    (λ b. if b then amount_of (suc q.rejected_count) size_max else q.rejected_count)
                    same_test,
            marked_mark rest
                ∙ ap₂ (λ h n. if ltb h n then n else h)
                    (loop.high_water_mark ∙ more.high_water_mark) (sym (marked_size rest)),
          ) in
          subst (IsWritten q input count amount call) (sym some_left) answer
    ]
