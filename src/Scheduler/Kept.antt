-- ===== src/Scheduler/Kept.antt =====
-- What one scheduler_update or scheduler_run leaves of a slot.
use embedded_library.Prelude.{
  ℕ, zero, suc, ◌+◌, ◌≤◌, ◌≡◌, refl, ◌∙◌, ap, true, not, List, [], ◌∷◌, length, if◌then◌else◌,
  arith, if_elim, ◌&&◌,
}
use embedded_library.Status.{Status, is_ok}
use embedded_library.Scheduler.{max_interval_ticks, Slot, TaskConfig, slot_at, config_at}
use embedded_library.Scheduler.Api.{update_slot, finish_slot, invoke, run_slots}
use embedded_library.Scheduler.Time.{
  IsTimed, IsUncapped, accounted, update_slot-IsTimed, update_slot-accounted, update_slot-le,
  finish_slot-accounted, finish_slot-IsTimed, finish_slot-le,
}

-- What an event leaves of a slot: the same task, counters that do not fall, and its ticks accounted
-- for with `delta` more, unless a counter is at its ceiling.
pub record Kept (period delta : ℕ) (a b : Slot) : Type 0 where
  pub timed : IsTimed period b
  pub same : a.id ≡ b.id
  pub runs : a.run_count ≤ b.run_count
  pub misses : a.missed_count ≤ b.missed_count
  pub counted : IsUncapped b → accounted period b ≡ accounted period a + delta

pub Kept-refl : (period : ℕ) (a : Slot) → IsTimed period a → Kept period 0 a a
Kept-refl period a v = record {
  timed = v;
  same = refl;
  runs = omega arith;
  misses = omega arith;
  counted = λ u. omega arith;
}

pub Kept-trans :
    {period d e : ℕ} {a b c : Slot}
    → Kept period d a b
    → Kept period e b c
    → Kept period (d + e) a c
Kept-trans k l = record {
  timed = l.timed;
  same = k.same ∙ l.same;
  runs = omega (arith, k.runs, l.runs);
  misses = omega (arith, k.misses, l.misses);
  counted = λ u. omega (arith, k.counted (omega (arith, l.runs, l.misses)), l.counted u);
}

pub update_slot-Kept :
    (period delta : ℕ) (a : Slot)
    → IsTimed period a
    → delta ≤ max_interval_ticks
    → Kept period delta a (update_slot period delta a)
update_slot-Kept period delta a v h =
    let (m, r, i) = update_slot-le period delta a v in
    record {
      timed = update_slot-IsTimed period delta a v;
      same = i;
      runs = omega arith;
      misses = m;
      counted = update_slot-accounted period delta a v h;
    }

finish_slot-Kept :
    (period : ℕ) (a : Slot) (s : Status)
    → IsTimed period a
    → a.ready ≡ true
    → Kept period 0 a (finish_slot a s)
finish_slot-Kept period a s v r =
    let (m, n, i) = finish_slot-le period a s v in
    record {
      timed = finish_slot-IsTimed period a s v;
      same = i;
      runs = n;
      misses = omega arith;
      counted = λ u. omega (arith, finish_slot-accounted period a s v r u);
    }

module _ {W : Type 0} where
  pub run_slots-Kept :
      (configs : List (TaskConfig W)) (n : ℕ) (slots : List Slot) (e : Status) (w : W)
      (i period : ℕ)
      → IsTimed period (slot_at slots i)
      → Kept period 0 (slot_at slots i) (slot_at (run_slots configs n slots e w).0 i)
  unfolding run_slots
  run_slots-Kept configs zero slots e w i period v = Kept-refl period (slot_at slots i) v
  run_slots-Kept configs (suc n) [] e w i period v = Kept-refl period (slot_at [] i) v
  run_slots-Kept configs (suc n) (x ∷ slots) e w zero period v =
      if_elim (λ (r : List Slot × Status × W). Kept period 0 x (slot_at r.0 0)) x.ready
        (λ r. finish_slot-Kept period x _ v r) (λ _. Kept-refl period x v)
  run_slots-Kept configs (suc n) (x ∷ slots) e w (suc i) period v =
      let (s, w') = invoke (config_at configs x.id) w in
      if_elim
        (λ (r : List Slot × Status × W). Kept period 0 (slot_at slots i) (slot_at r.0 (suc i)))
        x.ready
        (λ _.
          run_slots-Kept configs n slots (if not (is_ok s) && is_ok e then s else e) w' i period v)
        (λ _. run_slots-Kept configs n slots e w i period v)

  pub length-run_slots :
      (configs : List (TaskConfig W)) (n : ℕ) (slots : List Slot) (e : Status) (w : W)
      → length (run_slots configs n slots e w).0 ≡ length slots
  unfolding run_slots
  length-run_slots configs zero slots e w = refl
  length-run_slots configs (suc n) [] e w = refl
  length-run_slots configs (suc n) (x ∷ slots) e w =
      let (s, w') = invoke (config_at configs x.id) w in
      if_elim (λ (r : List Slot × Status × W). length r.0 ≡ suc (length slots)) x.ready
        (λ _.
          ap suc (length-run_slots configs n slots (if not (is_ok s) && is_ok e then s else e) w'))
        (λ _. ap suc (length-run_slots configs n slots e w))
