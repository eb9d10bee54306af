-- ===== src/FixedQueue/Transfer/Read.antt =====
-- `transfer` when it reads.
use native.Mathlib.Nat.{mul-le-mul_right}
use embedded_library.Prelude.{
  ℕ, ◌*◌, ◌/◌, ◌≤◌, ◌≡◌, refl, sym, ◌∙◌, ap, subst, inl, inr, Bool, true, false, not, ◌&&◌, ◌==◌,
  ltb, size_max, Option, some, none, List, ◌++◌, length, Bool-cases, arith,
}
use embedded_library.Foundation.{Foundation, ok, empty}
use embedded_library.FixedQueue.{FixedQueue, fetch_loop, marked, transfer}
use embedded_library.FixedQueue.Inv.{IsValid, check-ok, contents}
use embedded_library.FixedQueue.Loops.{
  elements_of, fetch_loop-IsFetched, marked-contents, marked-IsValid,
}
use embedded_library.FixedQueue.Transfer.{IsAccepted, amount_of}

-- The answers of a read: whether elements were asked and none is held.
abbrev pub IsRead :
    FixedQueue → List ℕ → ℕ → Foundation × Option FixedQueue × List ℕ × Option ℕ → Bool → Type 0
IsRead q output amount r true = r ≡ (empty, some q, output, none)
IsRead q output amount r false =
    (q' : FixedQueue) × (output' : List ℕ) × (r ≡ (ok, some q', output', some amount))
    × IsValid q'
    × (contents q ≡ elements_of q.element_size output' 0 amount ++ contents q')
    × (length output' ≡ length output)

-- fixed_queue_pop and fixed_queue_pop_some (`transfer` when reading), on a valid queue with arguments
-- that it accepts and an output that holds the bytes asked: if elements are asked and none is held, it
-- returns the error of an empty queue and changes nothing; else it returns OK and as many elements as
-- asked or as are held, the output starts with those, oldest first, and the queue holds the others.
pub transfer-IsRead :
    (address : ℕ) (q : FixedQueue) (pointer : ℕ) (output : List ℕ) (count result : ℕ)
    → IsValid q
    → IsAccepted address q pointer count result
    → count * q.element_size ≤ length output
    → IsRead q output
        (amount_of q.size count)
        (transfer address (some q) pointer output count result false)
        (not (count == 0) && q.size == 0)
unfolding transfer
transfer-IsRead address q pointer output count result v a fits =
    let some_result : (result == 0) ≡ false = ground (arith, a.result_set) in
    let counted : ltb (size_max / q.element_size) count ≡ false = ground (arith, a.counted) in
    let amount = amount_of q.size count in
    let call = transfer address (some q) pointer output count result false in
    let none_moves : (not (count == 0) && amount == 0) ≡ (not (count == 0) && q.size == 0) =
      ground arith in
    let enough : amount ≤ q.size = ground arith in
    let below : amount ≤ count = ground arith in
    elim (Bool-cases (not (count == 0) && q.size == 0)) [
      | inl none_left ↦
          let done : call ≡ (empty, some q, output, none) =
            rw
              (
                check-ok v,
                counted,
                a.data_valid,
                some_result,
                a.result_valid,
                a.apart,
                none_moves,
                none_left,
              )
              refl in
          subst (IsRead q output amount call) (sym none_left) done
      | inr some_left ↦
          let rest = fetch_loop amount q output 0 in
          let fetched =
            fetch_loop-IsFetched amount q output 0 v enough (
              omega
                (arith, fits, mul-le-mul_right {m = amount} {n = count} q.element_size below)) in
          let done : call ≡ (ok, some (marked rest.0), rest.1, some amount) =
            rw
              (
                check-ok v,
                counted,
                a.data_valid,
                some_result,
                a.result_valid,
                a.apart,
                none_moves,
                some_left,
              )
              refl in
          let answer : IsRead q output amount call false = (
            marked rest.0,
            rest.1,
            done,
            marked-IsValid fetched.valid,
            fetched.holds
                ∙ ap (λ l. elements_of q.element_size rest.1 0 amount ++ l)
                    (sym (marked-contents rest.0)),
            fetched.same_length,
          ) in
          subst (IsRead q output amount call) (sym some_left) answer
    ]
