-- ===== src/FixedQueue/Peek.antt =====
-- fixed_queue_init, and fixed_queue_peek_at in terms of the elements held.
use embedded_library.Prelude.{
  ℕ, ◌+◌, ◌*◌, ◌/◌, ◌≤◌, ◌≡◌, refl, sym, ◌∙◌, ap, subst, inl, inr, Bool, true, false, ◌==◌, if_elim,
  ltb, ltb→ge, leb, ◌||◌, size_max, Option, some, List, [], length, Bool-cases, arith,
}
use Prim.{Unit, tt}
use embedded_library.Foundation.{Foundation, ok, out_of_range, overlaps}
use embedded_library.FixedQueue.{FixedQueue, init, queue_bytes, valid_data, advance}
use embedded_library.FixedQueue.Queries.{peek_at}
use embedded_library.Fifo.{copy}
use embedded_library.FixedQueue.Storage.{element, element-copied_here, length-copied}
use embedded_library.FixedQueue.Inv.{IsValid, check-ok, contents, nth}

abbrev IsNew : List ℕ → Foundation × Option FixedQueue → Type 0
IsNew bytes (ok, some q) = IsValid q × (contents q ≡ [])
IsNew bytes _ = Unit {0}

-- When fixed_queue_init returns OK, with a storage that has the size stated, the queue is valid and
-- empty.
pub init-IsNew :
    (address : ℕ) (q q' : FixedQueue) (storage storage_size element_size capacity : ℕ)
    (bytes : List ℕ)
    → storage_size ≤ length bytes
    → init address (some q) storage bytes storage_size element_size capacity ≡ (ok, some q')
    → IsValid q' × (contents q' ≡ [])
unfolding init contents
init-IsNew address q q' storage storage_size element_size capacity bytes holds e =
    subst (IsNew bytes) e (
      if_elim (IsNew bytes) (storage == 0 || element_size == 0 || capacity == 0) (λ _. tt)
        (λ given.
          if_elim (IsNew bytes) (ltb (size_max / element_size) capacity) (λ _. tt)
            (λ fits.
              if_elim (IsNew bytes) (ltb storage_size (capacity * element_size)) (λ _. tt)
                (λ large.
                  if_elim (IsNew bytes) (overlaps address queue_bytes storage storage_size)
                    (λ _. tt)
                    (λ _. (
                      record {
                        storage_set = ground (arith, given);
                        sized = ground (arith, given);
                        slots = ground (arith, given);
                        fits = ltb→ge (size_max / element_size) capacity fits;
                        holds =
                            omega
                              (arith, ltb→ge storage_size (capacity * element_size) large, holds);
                        size_in = omega arith;
                        head_in = ground (arith, given);
                        bounded = omega arith;
                      },
                      refl,
                    ))))))

-- The answers of a peek: whether the index is below the number of elements.
abbrev pub IsPeeked : FixedQueue → ℕ → List ℕ → Foundation × List ℕ → Bool → Type 0
IsPeeked q index output r true =
    (r.0 ≡ ok) × (element q.element_size r.1 0 ≡ nth q index) × (length r.1 ≡ length output)
IsPeeked q index output r false = r ≡ (out_of_range, output)

-- fixed_queue_peek_at, on a valid queue with a pointer that it accepts and an output that holds an
-- element: for an index below the number of elements it returns OK, and the output starts with that
-- element, the oldest for index 0; else it returns the error of an index out of range and leaves the
-- output as it was.
pub peek_at_lem :
    (address : ℕ) (q : FixedQueue) (index pointer : ℕ) (output : List ℕ)
    → IsValid q
    → valid_data address q pointer q.element_size ≡ true
    → q.element_size ≤ length output
    → IsPeeked q index output (peek_at address (some q) index pointer output) (ltb index q.size)
unfolding peek_at
peek_at_lem address q index pointer output v valid large =
    let call = peek_at address (some q) index pointer output in
    elim (Bool-cases (ltb index q.size)) [
      | inl below ↦
          let inside : leb q.size index ≡ false = ground (arith, below) in
          let slot = advance q.head index q.capacity in
          let room : 0 * q.element_size + q.element_size ≤ length output = omega (arith, large) in
          let bytes = copy output 0 q.bytes (slot * q.element_size) q.element_size in
          let done : call ≡ (ok, bytes) = rw (check-ok v, valid, inside) refl in
          let none_before : 0 * q.element_size ≡ 0 = omega arith in
          let same : copy output (0 * q.element_size) q.bytes (slot * q.element_size) q.element_size
              ≡ bytes =
            ap (λ k. copy output k q.bytes (slot * q.element_size) q.element_size) none_before in
          let answer : IsPeeked q index output (ok, bytes) true = (
            refl,
            ap (λ b. element q.element_size b 0) (sym same)
                ∙ element-copied_here q.element_size output q.bytes 0 slot room,
            ap length (sym same) ∙ length-copied q.element_size output q.bytes 0 slot room,
          ) in
          subst (λ r. IsPeeked q index output r (ltb index q.size)) (sym done)
            (subst (IsPeeked q index output (ok, bytes)) (sym below) answer)
      | inr past ↦
          let outside : leb q.size index ≡ true = ground (arith, past) in
          let done : call ≡ (out_of_range, output) = rw (check-ok v, valid, outside) refl in
          subst (IsPeeked q index output call) (sym past) done
    ]
