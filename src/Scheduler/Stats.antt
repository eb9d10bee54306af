-- ===== src/Scheduler/Stats.antt =====
-- scheduler_get_stats finds every task, whatever the order of the slots.
use mathlib.Core.Logic.{∥∥₁_elim}
use mathlib.Core.List.{Perm, Permᴰ}
use embedded_library.Prelude.{
  ℕ, zero, suc, ◌<◌, ◌≡◌, refl, sym, ◌∙◌, ap, ap₂, ◌||◌, Bool, true, false, inl, inr, some, List,
  [], ◌∷◌, length, tabulate, ◌==◌, arith, Bool-cases, length-tabulate,
}
use embedded_library.Status.{ok}
use embedded_library.Scheduler.{Slot, fresh_slot, slot_at}
use embedded_library.Scheduler.Api.{Scheduler, find_slot, get_stats, stats_of}
use embedded_library.Scheduler.Init.{id_of_fresh}
use embedded_library.Scheduler.Trace.{IsRunning, Reach, Reach-Advanced}

has_id : ℕ → List Slot → Bool
has_id id [] = false
has_id id (slot ∷ slots) = slot.id == id || has_id id slots

has_id-permᴰ : (id : ℕ) {a b : List Slot} → Permᴰ a b → has_id id a ≡ has_id id b
unfolding has_id
has_id-permᴰ id Permᴰ.nil = refl
has_id-permᴰ id (Permᴰ.cons e p) = ap₂ (λ (s : Slot) r. s.id == id || r) e (has_id-permᴰ id p)
has_id-permᴰ id (Permᴰ.swap x y) = ground arith
has_id-permᴰ id (Permᴰ.trans p q) = has_id-permᴰ id p ∙ has_id-permᴰ id q

Bool-set : IsSet Bool
Bool-set = hlevel

has_id-perm : (id : ℕ) {a b : List Slot} → Perm a b → has_id id a ≡ has_id id b
has_id-perm id p = ∥∥₁_elim p (Bool-set _ _) (has_id-permᴰ id)

has_id-at :
    (id : ℕ) (slots : List Slot) (i : ℕ)
    → i < length slots
    → (slot_at slots i).id ≡ id
    → has_id id slots ≡ true
unfolding has_id
has_id-at id [] i h e = absurd (omega arith)
has_id-at id (x ∷ slots) zero h e = ground arith
has_id-at id (x ∷ slots) (suc i) h e = ground (arith, has_id-at id slots i (omega arith) e)

-- An index at which the id stands.
at-has_id :
    (id : ℕ) (slots : List Slot)
    → has_id id slots ≡ true
    → (i : ℕ) × (i < length slots) × ((slot_at slots i).id ≡ id)
unfolding has_id
at-has_id id [] h = cc
at-has_id id (x ∷ slots) h = elim (Bool-cases (x.id == id)) [
  | inl e ↦ (0, omega arith, ground arith)
  | inr e ↦ let (i, l, q) = at-has_id id slots (ground arith) in (suc i, omega arith, q)
]

find_slot_lem :
    (id n : ℕ) (slots : List Slot) (i : ℕ)
    → i < n
    → i < length slots
    → (slot_at slots i).id ≡ id
    → (j : ℕ) × (j < n)
      × ((slot_at slots j).id ≡ id)
      × (find_slot id n slots ≡ some (slot_at slots j))
unfolding find_slot
find_slot_lem id zero slots i h l e = absurd (omega arith)
find_slot_lem id (suc n) [] i h l e = absurd (omega arith)
find_slot_lem id (suc n) (x ∷ slots) zero h l e = (0, omega arith, e, ground arith)
find_slot_lem id (suc n) (x ∷ slots) (suc i) h l e = elim (Bool-cases (x.id == id)) [
  | inl q ↦ (0, omega arith, ground arith, ground arith)
  | inr q ↦
      let (j, p, r, f) = find_slot_lem id n slots i (omega arith) (omega arith) e in
      (suc j, omega arith, r, ground arith)
]

-- From a running scheduler that has one fresh slot for each task, in whatever order, on: at every
-- later point of its main loop scheduler_get_stats of a task's id returns OK and the counters of a
-- slot with that id.
pub get_stats_complete :
    {W : Type 0} {a b : Scheduler W × W} {delta : ℕ} (id : ℕ)
    → IsRunning a.0
    → Perm a.0.slots (tabulate a.0.task_count fresh_slot)
    → Reach a delta b
    → id < a.0.task_count
    → (i : ℕ) × ((slot_at b.0.slots i).id ≡ id)
      × (get_stats (some b.0) id false ≡ (ok, some (stats_of (slot_at b.0.slots i))))
unfolding get_stats
get_stats_complete {a = a} {b = b} id v p r h =
    let n = a.0.task_count in
    let there =
      has_id-at id (tabulate n fresh_slot) id (omega (arith, length-tabulate n fresh_slot))
        (ap (λ (s : Slot). s.id) (id_of_fresh n (λ k. k) id h)) in
    let (i, l, e) = at-has_id id a.0.slots (has_id-perm id p ∙ there) in
    let done = Reach-Advanced v r in
    let k = done.kept i (omega (arith, v.sized)) in
    let q : i < b.0.task_count = omega (arith, v.sized, done.count) in
    let (j, m, s, f) =
      find_slot_lem id b.0.task_count b.0.slots i q (omega (arith, done.running.sized))
        (sym k.same ∙ e) in
    (j, s, ground (arith, done.running.live, done.count))
