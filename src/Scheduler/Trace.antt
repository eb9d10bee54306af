-- ===== src/Scheduler/Trace.antt =====
-- Sequences of scheduler_update and scheduler_run: no period of a task is lost.
use embedded_library.Prelude.{
  ℕ, ◌+◌, ◌≤◌, ◌<◌, ◌≡◌, refl, sym, ◌∙◌, ap₂, subst, ltb→ge, true, not, some, length, ltb,
  if◌then◌else◌, arith, if_elim,
}
use embedded_library.Status.{ok}
use embedded_library.Scheduler.{max_interval_ticks, slot_at, config_at}
use embedded_library.Scheduler.Api.{Scheduler, update_slots, tick_delta, update, run_slots, run}
use embedded_library.Scheduler.Time.{
  IsTimed, IsUncapped, accounted, slot_at-update_slots, length-update_slots,
}
use embedded_library.Scheduler.Kept.{
  Kept, Kept-refl, Kept-trans, update_slot-Kept, run_slots-Kept, length-run_slots,
}

module _ {W : Type 0} where
  -- The period of the task in a slot.
  abbrev pub period_at : Scheduler W → ℕ → ℕ
  period_at s i = (config_at s.configs (slot_at s.slots i).id).period_ticks

  -- An initialised scheduler whose slots are timed.
  pub record IsRunning (s : Scheduler W) : Type 0 where
    pub live : s.initialized ≡ true
    pub sized : length s.slots ≡ s.task_count
    pub timed : (i : ℕ) → i < s.task_count → IsTimed (period_at s i) (slot_at s.slots i)

  -- The ticks that a call of scheduler_update passes on to the tasks.
  unfoldable pub accepted : Scheduler W → ℕ → ℕ
  unfolding tick_delta
  accepted s now =
      if not s.time_initialized
      then 0
      else if ltb max_interval_ticks (tick_delta s now)
      then 0
      else tick_delta s now

  -- From `s` to `s'` in events that pass on `delta` ticks.
  pub record Advanced (delta : ℕ) (s s' : Scheduler W) : Type 0 where
    pub running : IsRunning s'
    pub configs : s.configs ≡ s'.configs
    pub count : s.task_count ≡ s'.task_count
    pub kept :
        (i : ℕ)
        → i < s.task_count
        → Kept (period_at s i) delta (slot_at s.slots i) (slot_at s'.slots i)

  Advanced-still :
      {s s' : Scheduler W}
      → IsRunning s
      → s'.initialized ≡ true
      → s.slots ≡ s'.slots
      → s.configs ≡ s'.configs
      → s.task_count ≡ s'.task_count
      → Advanced 0 s s'
  Advanced-still {s} {s'} v l es ec en = record {
    running = record {
      live = l;
      sized = rw (← es, ← en) v.sized;
      timed = λ i p. rw (← es, ← ec) (v.timed i (rw (← en) at p));
    };
    configs = ec;
    count = en;
    kept = λ i p. rw (← es) (Kept-refl (period_at s i) (slot_at s.slots i) (v.timed i p));
  }

  -- Slots that are kept one by one make a scheduler that has advanced.
  Advanced-slots :
      (delta : ℕ) (s s' : Scheduler W)
      → IsRunning s
      → s'.initialized ≡ true
      → s.configs ≡ s'.configs
      → s.task_count ≡ s'.task_count
      → length s'.slots ≡ length s.slots
      → ((i : ℕ)
          → i < s.task_count
          → Kept (period_at s i) delta (slot_at s.slots i) (slot_at s'.slots i))
      → Advanced delta s s'
  Advanced-slots delta s s' v l ec en size k = record {
    running = record {
      live = l;
      sized = omega (arith, v.sized);
      timed = λ i p.
          let q : i < s.task_count = omega arith in
          let e : period_at s i ≡ period_at s' i =
            ap₂ (λ cs id. (config_at cs id).period_ticks) ec (k i q).same in
          subst (λ t. IsTimed t (slot_at s'.slots i)) e (k i q).timed;
    };
    configs = ec;
    count = en;
    kept = k;
  }

  -- The ticks that scheduler_update passes on, and the scheduler after it.
  outcome : Scheduler W → ℕ → ℕ × Scheduler W
  outcome s now =
      let delta = tick_delta s now in
      if not s.time_initialized
      then (0, record s { last_tick = now; time_initialized = true })
      else if ltb max_interval_ticks delta
      then (0, record s { last_tick = now })
      else (
        delta,
        record s { last_tick = now; slots = update_slots s.configs delta s.task_count s.slots },
      )

  accepted-outcome : (s : Scheduler W) (now : ℕ) → accepted s now ≡ (outcome s now).0
  unfolding accepted outcome
  accepted-outcome s now = ground arith

  update-outcome :
      (s : Scheduler W) (now : ℕ)
      → s.initialized ≡ true
      → (update (some s) now).1 ≡ some (outcome s now).1
  unfolding update outcome
  update-outcome s now l = ground arith

  outcome-Advanced :
      (s : Scheduler W) (now : ℕ) → IsRunning s → Advanced (outcome s now).0 s (outcome s now).1
  unfolding outcome
  outcome-Advanced s now v =
      let delta = tick_delta s now in
      if_elim (λ (r : ℕ × Scheduler W). Advanced r.0 s r.1) (not s.time_initialized)
        (λ _. Advanced-still v v.live refl refl refl)
        (λ _.
          if_elim (λ (r : ℕ × Scheduler W). Advanced r.0 s r.1) (ltb max_interval_ticks delta)
            (λ _. Advanced-still v v.live refl refl refl)
            (λ short.
              Advanced-slots delta s
                (record s {
                  last_tick = now;
                  slots = update_slots s.configs delta s.task_count s.slots;
                })
                v v.live refl refl (length-update_slots s.configs delta s.task_count s.slots)
                (λ i p.
                  rw
                    (slot_at-update_slots s.configs delta s.task_count s.slots i p
                      (omega (arith, v.sized)))
                    (update_slot-Kept (period_at s i) delta (slot_at s.slots i) (v.timed i p)
                      (ltb→ge _ _ short)))))

  run-Advanced :
      (s : Scheduler W) (w : W)
      → IsRunning s
      → (s' : Scheduler W) × ((run (some s) w).1 ≡ some s') × Advanced 0 s s'
  unfolding run
  run-Advanced s w v =
      let slots' = (run_slots s.configs s.task_count s.slots ok w).0 in
      let s' : Scheduler W = record s { slots = slots' } in
      (
        s',
        rw v.live,
        Advanced-slots 0 s s' v v.live refl refl
            (length-run_slots s.configs s.task_count s.slots ok w)
            (λ i p. run_slots-Kept s.configs s.task_count s.slots ok w i _ (v.timed i p)),
      )

  -- The main loop: a tick, a round of callbacks, or the program around the scheduler, each with the
  -- ticks that it passes on.
  pub data Step : Scheduler W × W → ℕ → Scheduler W × W → Type 0 where
    ticked :
        (s s' : Scheduler W) (w : W) (now : ℕ)
        → (update (some s) now).1 ≡ some s'
        → Step (s, w) (accepted s now) (s', w)
    passed :
        (s s' : Scheduler W) (w : W)
        → (run (some s) w).1 ≡ some s'
        → Step (s, w) 0 (s', (run (some s) w).2)
    outside : (s : Scheduler W) (w w' : W) → Step (s, w) 0 (s, w')

  pub data Reach (a : Scheduler W × W) : ℕ → Scheduler W × W → Type 0 where
    here : Reach a 0 a
    next : {d e : ℕ} {b c : Scheduler W × W} → Reach a d b → Step b e c → Reach a (d + e) c

  Step-Advanced :
      {a b : Scheduler W × W} {delta : ℕ} → Step a delta b → IsRunning a.0 → Advanced delta a.0 b.0
  Step-Advanced (ticked s s' w now e) v =
      let same : (outcome s now).1 ≡ s' = cc (update-outcome s now v.live) in
      subst (λ t. Advanced (accepted s now) s t) same
        (subst (λ d. Advanced d s (outcome s now).1) (sym (accepted-outcome s now))
          (outcome-Advanced s now v))
  Step-Advanced (passed s s' w e) v =
      let (t, ran, done) = run-Advanced s w v in
      let same : t ≡ s' = cc in subst (λ x. Advanced 0 s x) same done
  Step-Advanced (outside s w w') v = Advanced-still v v.live refl refl refl

  Advanced-trans :
      {d e : ℕ} {a b c : Scheduler W} → Advanced d a b → Advanced e b c → Advanced (d + e) a c
  Advanced-trans {e = e} {a = a} {b = b} {c = c} p q = record {
    running = q.running;
    configs = p.configs ∙ q.configs;
    count = p.count ∙ q.count;
    kept = λ i h.
        let k = p.kept i h in
        let e' : period_at b i ≡ period_at a i =
          sym (ap₂ (λ cs id. (config_at cs id).period_ticks) p.configs k.same) in
        Kept-trans k (
          subst (λ t. Kept t e (slot_at b.slots i) (slot_at c.slots i)) e'
            (q.kept i (omega (arith, p.count))));
  }

  pub Reach-Advanced :
      {a b : Scheduler W × W} {delta : ℕ} → IsRunning a.0 → Reach a delta b → Advanced delta a.0 b.0
  Reach-Advanced v here = Advanced-still v v.live refl refl refl
  Reach-Advanced v (next r st) =
      let p = Reach-Advanced v r in Advanced-trans p (Step-Advanced st p.running)

  -- However the main loop of a running scheduler interleaves scheduler_update, scheduler_run and the
  -- rest of the program: if in the end the run and missed counters of a task are below their ceiling,
  -- its period times the periods that were run, were missed or wait to run, plus the ticks of the
  -- period that has begun, has grown by exactly the ticks that the updates passed on.
  pub no_period_lost :
      {a b : Scheduler W × W} {delta : ℕ} (i : ℕ)
      → IsRunning a.0
      → Reach a delta b
      → i < a.0.task_count
      → IsUncapped (slot_at b.0.slots i)
      → accounted (period_at a.0 i) (slot_at b.0.slots i)
        ≡ accounted (period_at a.0 i) (slot_at a.0.slots i) + delta
  no_period_lost i v r h u = ((Reach-Advanced v r).kept i h).counted u

  -- The same loop keeps the scheduler running: each slot stays with its task, has begun less than
  -- one period, and its run and missed counters stay 32-bit words that do not fall.
  pub IsRunning-kept :
      {a b : Scheduler W × W} {delta : ℕ} (i : ℕ)
      → IsRunning a.0
      → Reach a delta b
      → i < a.0.task_count
      → IsRunning b.0
        × ((slot_at a.0.slots i).id ≡ (slot_at b.0.slots i).id)
        × ((slot_at b.0.slots i).elapsed_ticks < period_at a.0 i)
        × ((slot_at a.0.slots i).run_count ≤ (slot_at b.0.slots i).run_count)
        × ((slot_at a.0.slots i).missed_count ≤ (slot_at b.0.slots i).missed_count)
  IsRunning-kept i v r h =
      let p = Reach-Advanced v r in
      let k = p.kept i h in (p.running, k.same, k.timed.partial, k.runs, k.misses)
