-- ===== src/FixedQueue/Loops.antt =====
-- The two loops of `transfer`, as operations on the list of elements.
use native.Mathlib.Nat.{mul-le-mul_right}
use embedded_library.Prelude.{
  ℕ, zero, suc, ◌+◌, ◌*◌, ◌≤◌, ◌<◌, ◌≡◌, refl, sym, ◌∙◌, ap, ap₂, if_elim, ltb, List, [], ◌∷◌, ◌++◌,
  append_assoc, append-nil, length, arith,
}
use embedded_library.FixedQueue.{
  FixedQueue, stored, fetched, delivered, store_loop, fetch_loop, marked,
}
use embedded_library.FixedQueue.Storage.{
  element, length-copied, element-copied_here, element-copied_other,
}
use embedded_library.FixedQueue.Inv.{
  IsValid, contents, stored-IsValid, contents-stored, fetched-IsValid, contents-fetched,
}

-- `count` elements of an array from `from` on.
unfoldable pub elements_of : ℕ → List ℕ → ℕ → ℕ → List (List ℕ)
elements_of size bytes from zero = []
elements_of size bytes from (suc count) =
    element size bytes from ∷ elements_of size bytes (suc from) count

-- `q'` is `q` with `added` behind its elements.
pub record IsStored (q : FixedQueue) (added : List (List ℕ)) (q' : FixedQueue) : Type 0 where
  pub valid : IsValid q'
  pub holds : contents q' ≡ contents q ++ added
  pub element_size : q'.element_size ≡ q.element_size
  pub capacity : q'.capacity ≡ q.capacity
  pub rejected_count : q'.rejected_count ≡ q.rejected_count
  pub high_water_mark : q'.high_water_mark ≡ q.high_water_mark

pub store_loop-IsStored :
    (left : ℕ) (q : FixedQueue) (input : List ℕ) (index : ℕ)
    → IsValid q
    → q.size + left ≤ q.capacity
    → IsStored q (elements_of q.element_size input index left) (store_loop left q input index)
unfolding store_loop elements_of
store_loop-IsStored zero q input index v room = record {
  valid = v;
  holds = sym (append-nil (contents q));
  element_size = refl;
  capacity = refl;
  rejected_count = refl;
  high_water_mark = refl;
}
store_loop-IsStored (suc left) q input index v room =
    let free : q.size < q.capacity = omega (arith, room) in
    let now = contents-stored v input index free in
    let rest =
      store_loop-IsStored left (stored q input index) input (suc index)
        (stored-IsValid v input index free) (omega (arith, room)) in
    record {
      valid = rest.valid;
      holds =
          rest.holds
          ∙ ap (λ l. l ++ elements_of q.element_size input (suc index) left) now
          ∙ append_assoc (contents q) (element q.element_size input index ∷ [])
              (elements_of q.element_size input (suc index) left);
      element_size = rest.element_size;
      capacity = rest.capacity;
      rejected_count = rest.rejected_count;
      high_water_mark = rest.high_water_mark;
    }

-- The first elements of `q` stand in the output from `from` on, and `q'` holds the others.
pub record IsFetched (q : FixedQueue) (output : List ℕ) (from count : ℕ) (r : FixedQueue × List ℕ)
    : Type 0 where
  pub valid : IsValid r.0
  pub holds : contents q ≡ elements_of q.element_size r.1 from count ++ contents r.0
  pub same_length : length r.1 ≡ length output
  pub kept : (i : ℕ) → i < from → element q.element_size r.1 i ≡ element q.element_size output i
  pub capacity : r.0.capacity ≡ q.capacity

pub fetch_loop-IsFetched :
    (left : ℕ) (q : FixedQueue) (output : List ℕ) (index : ℕ)
    → IsValid q
    → left ≤ q.size
    → (index + left) * q.element_size ≤ length output
    → IsFetched q output index left (fetch_loop left q output index)
unfolding fetch_loop elements_of
fetch_loop-IsFetched zero q output index v enough fits = record {
  valid = v;
  holds = refl;
  same_length = refl;
  kept = λ i h. refl;
  capacity = refl;
}
fetch_loop-IsFetched (suc left) q output index v enough fits =
    let some_left : 0 < q.size = omega (arith, enough) in
    let es = q.element_size in
    let inside : index * es + es ≤ length output =
      omega
        (arith, fits, mul-le-mul_right {m = suc index} {n = index + suc left} es (omega arith)) in
    let output' = delivered q output index in
    let same = length-copied es output q.bytes index q.head inside in
    let here = element-copied_here es output q.bytes index q.head inside in
    let rest =
      fetch_loop-IsFetched left (fetched q) output' (suc index) (fetched-IsValid v some_left)
        (omega (arith, enough)) (omega (arith, fits, same)) in
    record {
      valid = rest.valid;
      holds =
          contents-fetched v some_left
          ∙ ap₂ (λ x l. x ∷ l) (sym here ∙ sym (rest.kept index (omega arith))) rest.holds;
      same_length = rest.same_length ∙ same;
      kept = λ i h.
          rest.kept i (omega (arith, h))
          ∙ element-copied_other es output q.bytes index q.head inside i (omega (arith, h));
      capacity = rest.capacity;
    }

pub marked-contents : (q : FixedQueue) → contents (marked q) ≡ contents q
unfolding contents
marked-contents q =
    if_elim (λ (p : FixedQueue). contents p ≡ contents q) (ltb q.high_water_mark q.size) (λ _. refl)
      (λ _. refl)

pub marked-IsValid : {q : FixedQueue} → IsValid q → IsValid (marked q)
marked-IsValid {q} v =
    if_elim IsValid (ltb q.high_water_mark q.size)
      (λ _. record {
        storage_set = v.storage_set;
        sized = v.sized;
        slots = v.slots;
        fits = v.fits;
        holds = v.holds;
        size_in = v.size_in;
        head_in = v.head_in;
        bounded = v.bounded;
      })
      (λ _. v)
