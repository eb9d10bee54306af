-- ===== src/FixedQueue/History.antt =====
-- A queue over any history of writes and reads.
use embedded_library.Prelude.{
  ℕ, ◌-◌, ◌*◌, ◌/◌, ◌≤◌, ◌≡◌, refl, sym, ◌∙◌, ap, subst, inl, inr, Bool, true, false, not, ◌&&◌,
  ◌||◌, ◌==◌, ◌⊎◌, ltb, ltb→ge, size_max, Option, some, none, or_else, List, [], ◌∷◌, ◌++◌,
  append-nil, append_assoc, length, Bool-cases, arith,
}
use Prim.{Unit}
use embedded_library.Foundation.{Foundation, overflow, invalid_argument, overlaps}
use embedded_library.FixedQueue.{FixedQueue, transfer, valid_data, word_bytes}
use embedded_library.FixedQueue.Inv.{IsValid, check-ok, contents}
use embedded_library.FixedQueue.Loops.{elements_of}
use embedded_library.FixedQueue.Transfer.{IsAccepted, amount_of, IsWritten, transfer-IsWritten}
use embedded_library.FixedQueue.Transfer.Read.{IsRead, transfer-IsRead}

-- A call of push_some or of pop_some: the pointer to the data and its bytes, the count, the result.
pub data Event : Type 0 where
  puts : ℕ → List ℕ → ℕ → ℕ → Event
  takes : ℕ → List ℕ → ℕ → ℕ → Event

-- The elements that a call reports as moved.
abbrev pub reported : ℕ → List ℕ → Option ℕ → List (List ℕ)
reported size bytes none = []
reported size bytes (some count) = elements_of size bytes 0 count

abbrev Answer : Type 0
Answer = Foundation × Option FixedQueue × List ℕ × Option ℕ

abbrev answer_to : ℕ → FixedQueue → Event → Answer
answer_to address q (puts pointer input count result) =
    transfer address (some q) pointer input count result true
answer_to address q (takes pointer output count result) =
    transfer address (some q) pointer output count result false

abbrev pub next : ℕ → FixedQueue → Event → FixedQueue
next address q event = or_else (answer_to address q event).1 q

-- What a history writes and reads: the elements that the calls of either kind report, in order.
unfoldable pub run : ℕ → FixedQueue → List Event → FixedQueue
run address q [] = q
run address q (event ∷ events) = run address (next address q event) events

abbrev put_by : FixedQueue → Event → Answer → List (List ℕ)
put_by q (puts pointer input count result) r = reported q.element_size input r.3
put_by q (takes pointer output count result) r = []

abbrev taken_by : FixedQueue → Event → Answer → List (List ℕ)
taken_by q (puts pointer input count result) r = []
taken_by q (takes pointer output count result) r = reported q.element_size r.2 r.3

unfoldable pub written : ℕ → FixedQueue → List Event → List (List ℕ)
written address q [] = []
written address q (event ∷ events) =
    put_by q event (answer_to address q event) ++ written address (next address q event) events

unfoldable pub read : ℕ → FixedQueue → List Event → List (List ℕ)
read address q [] = []
read address q (event ∷ events) =
    taken_by q event (answer_to address q event) ++ read address (next address q event) events

-- The outputs hold the bytes asked.
abbrev pub IsLarge : FixedQueue → Event → Type 0
IsLarge q (puts pointer input count result) = Unit {0}
IsLarge q (takes pointer output count result) = count * q.element_size ≤ length output

unfoldable pub AreLarge : ℕ → FixedQueue → List Event → Type 0
AreLarge address q [] = Unit {0}
AreLarge address q (event ∷ events) =
    IsLarge q event × AreLarge address (next address q event) events

-- A call that its guards refuse reports nothing and keeps the queue.
abbrev IsRefused : FixedQueue → Answer → Type 0
IsRefused q r = (r.1 ≡ some q) × (r.3 ≡ none)

transfer-cases :
    (address : ℕ) (q : FixedQueue) (pointer : ℕ) (bytes : List ℕ) (count result : ℕ)
    (writing : Bool)
    → IsValid q
    → IsRefused q (transfer address (some q) pointer bytes count result writing)
      ⊎ IsAccepted address q pointer count result
unfolding transfer
transfer-cases address q pointer bytes count result writing v =
    let size = count * q.element_size in
    let call = transfer address (some q) pointer bytes count result writing in
    elim (Bool-cases (ltb (size_max / q.element_size) count)) [
      | inl e ↦
          let done : call ≡ (overflow, some q, bytes, none) = rw (check-ok v, e) refl in
          inl (ap (λ r. r.1) done, ap (λ r. r.3) done)
      | inr e ↦
          elim (Bool-cases (
            not (valid_data address q pointer size)
            || result == 0
            || not (valid_data address q result word_bytes)
            || overlaps pointer size result word_bytes)) [
              | inl f ↦
                  let done : call ≡ (invalid_argument, some q, bytes, none) =
                    rw (check-ok v, e, f) refl in
                  inl (ap (λ r. r.1) done, ap (λ r. r.3) done)
              | inr f ↦ inr record {
                counted = ltb→ge (size_max / q.element_size) count e;
                data_valid = ground (arith, f);
                result_set = ground (arith, f);
                result_valid = ground (arith, f);
                apart = ground (arith, f);
              }
            ]
    ]

-- What is held before and put is what is taken and held after.
abbrev Balances : FixedQueue → List (List ℕ) → List (List ℕ) → FixedQueue → Type 0
Balances q put taken q' = IsValid q' × (taken ++ contents q' ≡ contents q ++ put)

puts-Balances :
    (address : ℕ) (q : FixedQueue) (pointer : ℕ) (input : List ℕ) (count result : ℕ)
    → IsValid q
    → let r = transfer address (some q) pointer input count result true in
      Balances q (reported q.element_size input r.3) [] (or_else r.1 q)
puts-Balances address q pointer input count result v =
    let call = transfer address (some q) pointer input count result true in
    let all_in = not (count == 0) && q.capacity - q.size == 0 in
    let amount = amount_of (q.capacity - q.size) count in
    elim (transfer-cases address q pointer input count result true v) [
      | inl (same, nothing) ↦
          subst (λ o. Balances q (reported q.element_size input call.3) [] (or_else o q)) (sym same)
            (subst (λ n. Balances q (reported q.element_size input n) [] q) (sym nothing)
              (v, sym (append-nil (contents q))))
      | inr accepted ↦
          let answer = transfer-IsWritten address q pointer input count result v accepted in
          elim (Bool-cases all_in) [
            | inl none_fits ↦
                let (q', done, valid, same, _) =
                  subst (IsWritten q input count amount call) none_fits answer in
                subst
                  (λ (r : Answer).
                    Balances q (reported q.element_size input r.3) [] (or_else r.1 q))
                  (sym done) (valid, same ∙ sym (append-nil (contents q)))
            | inr some_fit ↦
                let answer' = subst (IsWritten q input count amount call) some_fit answer in
                subst
                  (λ (r : Answer).
                    Balances q (reported q.element_size input r.3) [] (or_else r.1 q))
                  (sym answer'.1) (answer'.2, answer'.3)
          ]
    ]

takes-Balances :
    (address : ℕ) (q : FixedQueue) (pointer : ℕ) (output : List ℕ) (count result : ℕ)
    → IsValid q
    → count * q.element_size ≤ length output
    → let r = transfer address (some q) pointer output count result false in
      Balances q [] (reported q.element_size r.2 r.3) (or_else r.1 q)
takes-Balances address q pointer output count result v large =
    let call = transfer address (some q) pointer output count result false in
    let none_out = not (count == 0) && q.size == 0 in
    let amount = amount_of q.size count in
    elim (transfer-cases address q pointer output count result false v) [
      | inl (same, nothing) ↦
          subst (λ o. Balances q [] (reported q.element_size call.2 call.3) (or_else o q))
            (sym same)
            (subst (λ n. Balances q [] (reported q.element_size call.2 n) q) (sym nothing)
              (v, sym (append-nil (contents q))))
      | inr accepted ↦
          let answer = transfer-IsRead address q pointer output count result v accepted large in
          elim (Bool-cases none_out) [
            | inl none_held ↦
                let done = subst (IsRead q output amount call) none_held answer in
                subst
                  (λ (r : Answer). Balances q [] (reported q.element_size r.2 r.3) (or_else r.1 q))
                  (sym done) (v, sym (append-nil (contents q)))
            | inr some_held ↦
                let answer' = subst (IsRead q output amount call) some_held answer in
                subst
                  (λ (r : Answer). Balances q [] (reported q.element_size r.2 r.3) (or_else r.1 q))
                  (sym answer'.2) (answer'.3, sym answer'.4 ∙ sym (append-nil (contents q)))
          ]
    ]

next-Balances :
    (address : ℕ) (q : FixedQueue) (event : Event)
    → IsValid q
    → IsLarge q event
    → Balances q
        (put_by q event (answer_to address q event))
        (taken_by q event (answer_to address q event))
        (next address q event)
next-Balances address q (puts pointer input count result) v large =
    puts-Balances address q pointer input count result v
next-Balances address q (takes pointer output count result) v large =
    takes-Balances address q pointer output count result v large

-- Over any history of fixed_queue_push_some and fixed_queue_pop_some (or, with a count of 1, of
-- fixed_queue_push and fixed_queue_pop) on a valid queue, with any arguments whose outputs hold the
-- bytes asked: the elements reported as read, followed by those held at the end, are those held at
-- first, followed by those reported as written. So elements leave in the order in which they came, and
-- none is lost, changed or made up; and the queue stays valid.
pub run-read :
    (address : ℕ) (q : FixedQueue) (events : List Event)
    → IsValid q
    → AreLarge address q events
    → IsValid (run address q events)
      × (read address q events ++ contents (run address q events)
          ≡ contents q ++ written address q events)
unfolding run read written AreLarge
run-read address q [] v large = (v, sym (append-nil (contents q)))
run-read address q (event ∷ events) v (large, more_large) =
    let put = put_by q event (answer_to address q event) in
    let taken = taken_by q event (answer_to address q event) in
    let q' = next address q event in
    let (valid, now) = next-Balances address q event v large in
    let (last_valid, later) = run-read address q' events valid more_large in
    (
      last_valid,
      append_assoc taken (read address q' events) (contents (run address q' events))
          ∙ ap (λ l. taken ++ l) later
          ∙ sym (append_assoc taken (contents q') (written address q' events))
          ∙ ap (λ l. l ++ written address q' events) now
          ∙ append_assoc (contents q) put (written address q' events),
    )
