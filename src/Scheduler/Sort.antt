-- ===== src/Scheduler/Sort.antt =====
-- The heap sort of services/scheduler/scheduler.c: order, the same slots, enough fuel.
use mathlib.Core.List.Perm
use mathlib.Core.List.{Perm}
use embedded_library.Prelude.{
  ℕ, zero, suc, ◌-◌, ◌/◌, ◌≤◌, ◌<◌, ◌≡◌, refl, ◌∙◌, some, List, length, ◌==◌, if◌then◌else◌, arith,
  dec_lt,
}
use embedded_library.Scheduler.{Slot, TaskConfig, slot_at, swap_slots, heapify, extract, sort_slots}
use embedded_library.Scheduler.Heap.{
  parent, IsBounded, rank, IsHeapFrom, DownInv, Sifted, sift_down-Sifts, root_largest,
  slot_at-swap_slots, length-swap_slots, swap_slots-perm,
}

module _ {W : Type 0} (configs : List (TaskConfig W)) where
  -- The slots of `a`, all of them, as the list `b` with the order `P`.
  pub record Rearranged (P : List Slot → Type 0) (a : List Slot) (b : List Slot) : Type 0 where
    pub holds : P b
    pub perm : Perm b a
    pub size : length b ≡ length a
    pub bounded : IsBounded b

  heapify_orders :
      (i count : ℕ) (a : List Slot)
      → count ≤ length a
      → IsBounded a
      → IsHeapFrom configs i count a
      → (b : List Slot) × (heapify configs a i count ≡ some b)
        × Rearranged (IsHeapFrom configs 0 count) a b
  unfolding heapify
  heapify_orders zero count a h b v =
      (a, refl, record { holds = v; perm = Perm.rfl; size = refl; bounded = b })
  heapify_orders (suc i) count a h b v =
      let (x, ran, s) = sift_down-Sifts configs i count a i record {
        inside = h;
        bounded = b;
        edges = λ c p q r t. v c p q (omega arith);
        bridged = λ c p q r t u. absurd (omega arith);
      } in
      let (y, ran', t) = heapify_orders i count x (omega (arith, s.size)) s.bounded s.heap in
      (
        y,
        rw (ran, heapify) ran',
        record {
          holds = t.holds;
          perm = Perm.trans t.perm s.perm;
          size = t.size ∙ s.size;
          bounded = t.bounded;
        },
      )

  -- The entries from `n` up to `count` are in order and not below any entry before them.
  pub record Split (n count : ℕ) (a : List Slot) : Type 0 where
    pub low : (i j : ℕ) → i < n → n ≤ j → j < count → rank configs a i ≤ rank configs a j
    pub high : (i j : ℕ) → n ≤ i → i < j → j < count → rank configs a i ≤ rank configs a j

  -- The ranks of the first `count` slots ascend.
  abbrev pub IsSorted : ℕ → List Slot → Type 0
  IsSorted count a = (i j : ℕ) → i < j → j < count → rank configs a i ≤ rank configs a j

  -- One round of the second loop: the root, the largest, goes behind the heap.
  module _ (n count : ℕ) (a : List Slot) (here : suc n < count) (fits : count ≤ length a)
      (bounded : IsBounded a) (heap : IsHeapFrom configs 0 (suc (suc n)) a)
      (split : Split (suc (suc n)) count a) where
    abbrev exchanged : List Slot
    exchanged = swap_slots a 0 (suc n)

    at_exchanged :
        (k : ℕ)
        → slot_at exchanged k
          ≡ (if suc n == k then slot_at a 0 else if 0 == k then slot_at a (suc n) else slot_at a k)
    at_exchanged k = slot_at-swap_slots a 0 (suc n) k (omega arith) (omega arith)

    exchanged-DownInv : DownInv configs 0 (suc n) exchanged 0
    exchanged-DownInv = record {
      inside = omega (arith, length-swap_slots a 0 (suc n));
      bounded = λ k. ground (arith, at_exchanged k, bounded 0, bounded (suc n), bounded k);
      edges = λ e p q r u. ground (arith, at_exchanged e, at_exchanged (parent e), heap e);
      bridged = λ e p q r u w. absurd (omega arith);
    }

    module _ {x : List Slot} (sifted : Sifted configs 0 (suc n) exchanged x) where
      below_root : (k : ℕ) → k < suc n → rank configs x k ≤ rank configs a 0
      below_root = sifted.capped (rank configs a 0) λ k p.
          let top = root_largest configs (suc (suc n)) a in
          ground (arith, at_exchanged k, top (suc n) heap, top k heap)

      beyond_exchanged : (k : ℕ) → suc n < k → slot_at x k ≡ slot_at a k
      beyond_exchanged k h = ground (arith, sifted.beyond k, at_exchanged k)

      root_placed : slot_at x (suc n) ≡ slot_at a 0
      root_placed = ground (arith, sifted.beyond (suc n), at_exchanged (suc n))

      sifted-low :
          (i j : ℕ) → i < suc n → suc n ≤ j → j < count → rank configs x i ≤ rank configs x j
      sifted-low i j p q r = elim (dec_lt (suc n) j) [
        | yes h ↦
            rw (beyond_exchanged j h)
              (omega (arith, below_root i p, split.low 0 j (omega arith) h r))
        | no h ↦ let e : suc n ≡ j = omega arith in rw (← e, root_placed) (below_root i p)
      ]

      sifted-high : (i j : ℕ) → suc n ≤ i → i < j → j < count → rank configs x i ≤ rank configs x j
      sifted-high i j p q r = elim (dec_lt (suc n) i) [
        | yes h ↦ rw (beyond_exchanged i h, beyond_exchanged j (omega arith)) (split.high i j h q r)
        | no h ↦
            let e : suc n ≡ i = omega arith in
            rw (← e, root_placed, beyond_exchanged j (omega arith))
              (split.low 0 j (omega arith) (omega arith) r)
      ]

      exchange-perm : Perm x a
      exchange-perm =
          Perm.trans sifted.perm (swap_slots-perm a 0 (suc n) (omega arith) (omega arith))

  extract_sorts :
      (n count : ℕ) (a : List Slot)
      → n < count
      → count ≤ length a
      → IsBounded a
      → IsHeapFrom configs 0 (suc n) a
      → Split (suc n) count a
      → (b : List Slot) × (extract configs a n ≡ some b) × Rearranged (IsSorted count) a b
  unfolding extract
  extract_sorts zero count a hn h b v s = (
    a,
    refl,
    record {
      holds = λ i j p q. elim (dec_lt 0 i) [
        | yes m ↦ s.high i j m p q
        | no m ↦ s.low i j (omega arith) (omega arith) q
      ];
      perm = Perm.rfl;
      size = refl;
      bounded = b;
    },
  )
  extract_sorts (suc n) count a hn h b v s =
      let (x, ran, t) =
        sift_down-Sifts configs 0 (suc n) (swap_slots a 0 (suc n)) 0
          (exchanged-DownInv n count a hn h b v s) in
      let size = t.size ∙ length-swap_slots a 0 (suc n) in
      let (y, ran', z) =
        extract_sorts n count x (omega arith) (omega (arith, size)) t.bounded t.heap record {
          low = sifted-low n count a hn h b v s t;
          high = sifted-high n count a hn h b v s t;
        } in
      (
        y,
        rw (ran, extract) ran',
        record {
          holds = z.holds;
          perm = Perm.trans z.perm (exchange-perm n count a hn h b v s t);
          size = z.size ∙ size;
          bounded = z.bounded;
        },
      )

  extract-zero : (a : List Slot) → extract configs a 0 ≡ some a
  unfolding extract
  extract-zero a = refl

  -- scheduler_sort_slots ends within its fuel, and returns the same slots in ascending rank.
  pub sort_slots_sorts :
      (count : ℕ) (a : List Slot)
      → count ≤ length a
      → IsBounded a
      → (b : List Slot) × (sort_slots configs a count ≡ some b) × Rearranged (IsSorted count) a b
  unfolding sort_slots
  sort_slots_sorts count a h bd =
      let (x, ran, s) = heapify_orders (count / 2) count a h bd (λ c p q r. absurd (omega arith)) in
      let (y, ran', t) = extracted count x (omega (arith, s.size)) s.bounded s.holds in
      (
        y,
        rw (ran, sort_slots) ran',
        record {
          holds = t.holds;
          perm = Perm.trans t.perm s.perm;
          size = t.size ∙ s.size;
          bounded = t.bounded;
        },
      )
    where
      extracted :
          (n : ℕ) (x : List Slot)
          → n ≤ length x
          → IsBounded x
          → IsHeapFrom configs 0 n x
          → (b : List Slot) × (extract configs x (n - 1) ≡ some b) × Rearranged (IsSorted n) x b
      extracted zero x p b v = (
        x,
        extract-zero x,
        record {
          holds = λ i j p q. absurd (omega arith);
          perm = Perm.rfl;
          size = refl;
          bounded = b;
        },
      )
      extracted (suc n) x p b v =
          let e : suc n - 1 ≡ n = omega arith in
          rw e (
            extract_sorts n (suc n) x (omega arith) p b v record {
              low = λ i j _ q r. absurd (omega arith);
              high = λ i j p q r. absurd (omega arith);
            })
