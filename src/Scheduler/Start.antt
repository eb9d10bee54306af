-- ===== src/Scheduler/Start.antt =====
-- scheduler_init starts the main loop: its result is a running scheduler.
use mathlib.Core.Logic.{∥∥₁_elim}
use mathlib.Core.List.{Perm, Permᴰ}
use embedded_library.Prelude.{
  ℕ, zero, suc, ◌≤◌, ◌<◌, ◌≡◌, refl, sym, ◌∙◌, ap₂, subst, ◌&&◌, Bool, true, false, some, List, [],
  ◌∷◌, length, tabulate, ltb, ◌==◌, arith,
}
use embedded_library.Status.{ok}
use embedded_library.Scheduler.{
  max_interval_ticks, Slot, TaskConfig, fresh_slot, slot_at, config_at,
}
use embedded_library.Scheduler.Api.{Scheduler, validate_config, init}
use embedded_library.Scheduler.Time.{IsTimed}
use embedded_library.Scheduler.Init.{init_sorts, validate_config_iff}
use embedded_library.Scheduler.Trace.{IsRunning}

-- A slot of a task below `n` that has not counted anything.
is_idle : ℕ → Slot → Bool
is_idle n slot =
    ltb slot.id n && slot.elapsed_ticks == 0 && slot.run_count == 0 && slot.missed_count == 0

all_idle : ℕ → List Slot → Bool
all_idle n [] = true
all_idle n (slot ∷ slots) = is_idle n slot && all_idle n slots

all_idle-permᴰ : (n : ℕ) {a b : List Slot} → Permᴰ a b → all_idle n a ≡ all_idle n b
unfolding all_idle
all_idle-permᴰ n Permᴰ.nil = refl
all_idle-permᴰ n (Permᴰ.cons e p) = ap₂ (λ s r. is_idle n s && r) e (all_idle-permᴰ n p)
all_idle-permᴰ n (Permᴰ.swap x y) = ground arith
all_idle-permᴰ n (Permᴰ.trans p q) = all_idle-permᴰ n p ∙ all_idle-permᴰ n q

Bool-set : IsSet Bool
Bool-set = hlevel

all_idle-perm : (n : ℕ) {a b : List Slot} → Perm a b → all_idle n a ≡ all_idle n b
all_idle-perm n p = ∥∥₁_elim p (Bool-set _ _) (all_idle-permᴰ n)

all_idle-fresh :
    (m n : ℕ) (f : ℕ → ℕ)
    → ((i : ℕ) → i < m → f i < n)
    → all_idle n (tabulate m (λ i. fresh_slot (f i))) ≡ true
unfolding all_idle is_idle
all_idle-fresh zero n f h = refl
all_idle-fresh (suc m) n f h =
    ground (arith, h 0, all_idle-fresh m n (λ i. f (suc i)) (λ i p. h (suc i) (omega arith)))

at-all_idle :
    (n : ℕ) (slots : List Slot) (i : ℕ)
    → i < length slots
    → all_idle n slots ≡ true
    → is_idle n (slot_at slots i) ≡ true
unfolding all_idle
at-all_idle n [] i h e = absurd (omega arith)
at-all_idle n (x ∷ slots) zero h e = ground arith
at-all_idle n (x ∷ slots) (suc i) h e = at-all_idle n slots i (omega arith) (ground arith)

is_idle-lt : (n : ℕ) (slot : Slot) → is_idle n slot ≡ true → slot.id < n
unfolding is_idle
is_idle-lt n slot e = ground arith

is_idle-IsTimed :
    (n period : ℕ) (slot : Slot)
    → is_idle n slot ≡ true
    → 0 < period
    → period ≤ max_interval_ticks
    → IsTimed period slot
unfolding is_idle
is_idle-IsTimed n period slot e p q = ground arith

-- An object that is not initialised, with an array of as many slots as tasks and a table that
-- scheduler_validate_config accepts: after scheduler_init the scheduler is running, each slot with a
-- task of the table, with a valid period, and nothing counted yet.
pub init-IsRunning :
    {W : Type 0} (s : Scheduler W) (slots : List Slot) (configs : List (TaskConfig W))
    → s.initialized ≡ false
    → validate_config (some configs) (length slots) ≡ ok
    → length slots ≤ length configs
    → (s' : Scheduler W) × (init (some s) (some slots) (length slots) (some configs) (length slots)
        ≡ some (ok, some s'))
      × IsRunning s'
      × Perm s'.slots (tabulate s'.task_count fresh_slot)
init-IsRunning s slots configs fresh valid enough =
    let (s', ran, live, _, same, count, size, perm, _) = init_sorts s slots configs fresh valid in
    let n = length slots in
    let runnable = ((validate_config_iff n configs enough).0 valid).1 in
    let idle : all_idle n s'.slots ≡ true =
      all_idle-perm n perm ∙ all_idle-fresh n n (λ i. i) (λ i p. p) in
    (
      s',
      ran,
      record {
        live = live;
        sized = size ∙ sym count;
        timed = λ i p.
            let slot = slot_at s'.slots i in
            let e = at-all_idle n s'.slots i (omega arith) idle in
            let r = runnable slot.id (is_idle-lt n slot e) in
            subst (λ cs. IsTimed (config_at cs slot.id).period_ticks slot) (sym same)
              (is_idle-IsTimed n (config_at configs slot.id).period_ticks slot e r.positive
                r.short);
      },
      subst (λ k. Perm s'.slots (tabulate k fresh_slot)) (sym count) perm,
    )
