-- ===== src/Scheduler/Heap.antt =====
-- The sift of services/scheduler/scheduler.c restores a heap, by rank: priority first, then id.
use mathlib.Core.List.Perm
use mathlib.Core.List.{Perm}
use embedded_library.Prelude.{
  ℕ, zero, suc, ◌+◌, ◌-◌, ◌*◌, ◌/◌, ◌≤◌, ◌<◌, ◌≡◌, ◌≢◌, refl, ◌∙◌, ◌⊎◌, Bool, true, false, not,
  Option, some, List, [], ◌∷◌, length, set, length-set, get_or-set, ltb, ◌==◌, if◌then◌else◌, arith,
}
use embedded_library.Scheduler.{
  Slot, TaskConfig, fresh_slot, slot_at, swap_slots, config_at, slot_follows, larger_child,
  sift_loop, sift_down,
}

abbrev pub parent : ℕ → ℕ
parent c = (c - 1) / 2

-- Ids are 16-bit words.
abbrev pub IsBounded : List Slot → Type 0
IsBounded slots = (i : ℕ) → (slot_at slots i).id < 65536

pub length-swap_slots : (a : List Slot) (i j : ℕ) → length (swap_slots a i j) ≡ length a
unfolding swap_slots
length-swap_slots a i j =
    length-set (set a i (slot_at a j)) j (slot_at a i) ∙ length-set a i (slot_at a j)

pub slot_at-swap_slots :
    (a : List Slot) (i j k : ℕ)
    → i < length a
    → j < length a
    → slot_at (swap_slots a i j) k
      ≡ (if j == k then slot_at a i else if i == k then slot_at a j else slot_at a k)
unfolding swap_slots
slot_at-swap_slots a i j k hi hj = ground (
  arith,
  length-set a i (slot_at a j),
  get_or-set (set a i (slot_at a j)) j k (slot_at a i) (fresh_slot 0),
  get_or-set a i k (slot_at a j) (fresh_slot 0),
)

-- Writing an entry trades the old one for the new one.
set-perm :
    (a : List Slot) (i : ℕ) (v : Slot) → i < length a → Perm (slot_at a i ∷ set a i v) (v ∷ a)
set-perm [] i v h = absurd (omega arith)
set-perm (x ∷ a) zero v h = Perm.swap v x a
set-perm (x ∷ a) (suc i) v h =
    Perm.trans (Perm.swap x (slot_at a i) (set a i v))
      (Perm.trans (Perm.cons x (set-perm a i v (omega arith))) (Perm.swap v x a))

pub swap_slots-perm :
    (a : List Slot) (i j : ℕ) → i < length a → j < length a → Perm (swap_slots a i j) a
unfolding swap_slots
swap_slots-perm a i j hi hj =
    let b = set a i (slot_at a j) in
    let kept : slot_at b j ≡ slot_at a j =
      ground (arith, get_or-set a i j (slot_at a j) (fresh_slot 0)) in
    let hj' : j < length b = omega (arith, length-set a i (slot_at a j)) in
    let second = rw kept at (set-perm b j (slot_at a i) hj') in
    Perm.cons_inv (Perm.trans second (set-perm a i (slot_at a j) hi))

module _ {W : Type 0} (configs : List (TaskConfig W)) where
  abbrev pub rank_of_id : ℕ → ℕ
  rank_of_id id = (config_at configs id).priority * 65536 + id

  abbrev pub rank : List Slot → ℕ → ℕ
  rank a i = rank_of_id (slot_at a i).id

  pub slot_follows_lem :
      (l r : ℕ)
      → l < 65536
      → r < 65536
      → slot_follows configs l r ≡ ltb (rank_of_id r) (rank_of_id l)
  unfolding slot_follows
  slot_follows_lem l r hl hr = ground arith

  -- Every edge whose parent is at `lo` or later is in order, up to `count`.
  abbrev pub IsHeapFrom : ℕ → ℕ → List Slot → Type 0
  IsHeapFrom lo count a = (c : ℕ) → 0 < c → c < count → lo ≤ parent c → rank a c ≤ rank a (parent c)

  -- Only the edges below `i` may be out of order.
  pub record DownInv (lo count : ℕ) (a : List Slot) (i : ℕ) : Type 0 where
    pub inside : count ≤ length a
    pub bounded : IsBounded a
    pub edges :
        (c : ℕ) → 0 < c → c < count → lo ≤ parent c → parent c ≢ i → rank a c ≤ rank a (parent c)
    pub bridged :
        (c : ℕ)
        → 0 < c
        → c < count
        → parent c ≡ i
        → 0 < i
        → lo ≤ parent i
        → rank a c ≤ rank a (parent i)

  -- What a sift of the first `count` slots leaves: a heap from `lo`, the same slots, nothing changed
  -- from `count` on, and no new bound on the ranks.
  pub record Sifted (lo count : ℕ) (a b : List Slot) : Type 0 where
    pub heap : IsHeapFrom lo count b
    pub perm : Perm b a
    pub size : length b ≡ length a
    pub bounded : IsBounded b
    pub beyond : (k : ℕ) → count ≤ k → slot_at b k ≡ slot_at a k
    pub capped :
        (cap : ℕ) → ((k : ℕ) → k < count → rank a k ≤ cap) → (k : ℕ) → k < count → rank b k ≤ cap

  record IsLargerChild (a : List Slot) (i count m : ℕ) : Type 0 where
    inside : m < count
    child : (m ≡ i * 2 + 1) ⊎ (m ≡ i * 2 + 2)
    largest : (c : ℕ) → 0 < c → c < count → parent c ≡ i → rank a c ≤ rank a m

  larger_child-IsLargerChild :
      (a : List Slot) (i count : ℕ)
      → IsBounded a
      → i * 2 + 1 < count
      → IsLargerChild a i count (larger_child configs a i count)
  unfolding larger_child
  larger_child-IsLargerChild a i count b h = grind (
    arith,
    slot_follows_lem (slot_at a (i * 2 + 1 + 1)).id (slot_at a (i * 2 + 1)).id (b (i * 2 + 1 + 1))
        (b (i * 2 + 1)),
  )

  swap-DownInv :
      (lo count : ℕ) (a : List Slot) (i m : ℕ)
      → DownInv lo count a i
      → IsLargerChild a i count m
      → rank a i < rank a m
      → DownInv lo count (swap_slots a i m) m
  swap-DownInv lo count a i m v s below =
      let hi : i < length a = omega (arith, v.inside, s.inside) in
      let hm : m < length a = omega (arith, v.inside, s.inside) in
      let at = λ (k : ℕ). slot_at-swap_slots a i m k hi hm in
      record {
        inside = omega (arith, v.inside, length-swap_slots a i m);
        bounded = λ k. ground (arith, at k, v.bounded i, v.bounded m, v.bounded k);
        edges =
            λ c p q r t. ground (arith, at c, at (parent c), v.edges c, v.bridged m, s.largest c);
        bridged = λ c p q r t u. ground (arith, at c, at (parent m), v.edges c);
      }

  Sifted-swap :
      {lo count : ℕ} {a b : List Slot} (i m : ℕ)
      → i < count
      → m < count
      → count ≤ length a
      → Sifted lo count (swap_slots a i m) b
      → Sifted lo count a b
  Sifted-swap {a = a} i m hi hm hc s =
      let li : i < length a = omega arith in
      let lm : m < length a = omega arith in
      record {
        heap = s.heap;
        perm = Perm.trans s.perm (swap_slots-perm a i m li lm);
        size = s.size ∙ length-swap_slots a i m;
        bounded = s.bounded;
        beyond = λ k h. ground (arith, s.beyond k h, slot_at-swap_slots a i m k li lm);
        capped = λ cap h.
            s.capped cap
              (λ k p. ground (arith, slot_at-swap_slots a i m k li lm, h k p, h i hi, h m hm));
      }

  settled :
      {lo count : ℕ} {a : List Slot} → IsBounded a → IsHeapFrom lo count a → Sifted lo count a a
  settled b h = record {
    heap = h;
    perm = Perm.rfl;
    size = refl;
    bounded = b;
    beyond = λ k _. refl;
    capped = λ cap f. f;
  }

  abbrev pub Sifts : ℕ → ℕ → List Slot → Option (List Slot) → Type 0
  Sifts lo count a r = (b : List Slot) × (r ≡ some b) × Sifted lo count a b

  Sifts-if :
      {lo count : ℕ} {a : List Slot} {x y : Option (List Slot)} (b : Bool)
      → (b ≡ true → Sifts lo count a x)
      → (b ≡ false → Sifts lo count a y)
      → Sifts lo count a (if b then x else y)
  Sifts-if true p q = p refl
  Sifts-if false p q = q refl

  sift_loop-Sifts :
      (fuel lo count : ℕ) (a : List Slot) (i : ℕ)
      → count - i < fuel
      → DownInv lo count a i
      → Sifts lo count a (sift_loop fuel configs a i count)
  unfolding sift_loop
  sift_loop-Sifts zero lo count a i f v = absurd (omega arith)
  sift_loop-Sifts (suc fuel) lo count a i f v =
      Sifts-if (ltb i (count / 2)) (λ e. inner (ground arith) (sift_loop-Sifts fuel lo count))
        (λ e. (a, refl, settled v.bounded (λ c p q r. ground (arith, v.edges c))))
    where
      inner :
          i * 2 + 1 < count
          → ((b : List Slot) (j : ℕ)
              → count - j < fuel
              → DownInv lo count b j
              → Sifts lo count b (sift_loop fuel configs b j count))
          → Sifts lo count a (
              if not (
                slot_follows configs
                  (slot_at a (larger_child configs a i count)).id
                  (slot_at a i).id)
              then some a
              else sift_loop fuel configs
                  (swap_slots a i (larger_child configs a i count))
                  (larger_child configs a i count)
                  count)
      inner h ih =
          let m = larger_child configs a i count in
          let s = larger_child-IsLargerChild a i count v.bounded h in
          let order =
            slot_follows_lem (slot_at a m).id (slot_at a i).id (v.bounded m) (v.bounded i) in
          Sifts-if (not (slot_follows configs (slot_at a m).id (slot_at a i).id))
            (λ e. (
              a,
              refl,
              settled v.bounded (λ c p q r. ground (arith, v.edges c, s.largest c, order)),
            ))
            (λ e.
              let (b, ran, done) =
                ih (swap_slots a i m) m (omega (arith, s.child, s.inside))
                  (swap-DownInv lo count a i m v s (ground (arith, order))) in
              (b, ran, Sifted-swap i m (omega (arith, s.inside)) s.inside v.inside done))

  -- scheduler_sift_down restores the heap order below an entry, with fuel to spare.
  pub sift_down-Sifts :
      (lo count : ℕ) (a : List Slot) (i : ℕ)
      → DownInv lo count a i
      → Sifts lo count a (sift_down configs a i count)
  unfolding sift_down
  sift_down-Sifts lo count a i v = sift_loop-Sifts (suc count) lo count a i (omega arith) v

  root_largest_below :
      (k count : ℕ) (a : List Slot) (i : ℕ)
      → IsHeapFrom 0 count a
      → i < k
      → i < count
      → rank a i ≤ rank a 0
  root_largest_below zero count a i h f p = absurd (omega arith)
  root_largest_below (suc k) count a i h f p =
      ground (arith, h i, root_largest_below k count a (parent i) h)

  pub root_largest :
      (count : ℕ) (a : List Slot) (i : ℕ) → IsHeapFrom 0 count a → i < count → rank a i ≤ rank a 0
  root_largest count a i h p = root_largest_below (suc i) count a i h (omega arith) p
