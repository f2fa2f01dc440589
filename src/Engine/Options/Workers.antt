-- ===== src/Engine/Options/Workers.antt =====
-- setters.go, SetMaxWorkers: it sets the size of the pool and the baseline of the scaler, and leaves
-- the number of workers that the scaler has added.
use prox.Base.{
  ◌+◌, ◌≤◌, ◌<◌, ◌≡◌, refl, ap, ◌∙◌, ◌↔◌, Bool, some, List, [], ◌∷◌, length, All, ◌≢◌, arith, ℤ,
  pos, pos_part, neg_part, two63, ◌≤ℤ◌, ◌<ℤ◌, sub64, add64_down, sub64_down, neg_part_zero,
  eq_of_parts,
}
use prox.Scaler.{Ants, AutoScaler, disabled, scale_down, scale_ants, set_baseline}
use prox.Scaler.Modes.{scale_ants_down}
use prox.Scaler.Bounds.{IsTunable, InStep, calls}
use prox.Engine.{Engine}
use prox.Engine.Options.Setters.{tune_workers, set_max_workers}

-- A call of ScaleAnts that asks for fewer workers.
abbrev pub AsksForLess : ℤ → ℤ × ℤ → Type 0
AsksForLess threshold (validated, dispensed) =
    (dispensed ≤ℤ validated) × (threshold <ℤ sub64 validated dispensed)

module _ {P : Type 0} ⦃ants : Ants P⦄ (tunable : IsTunable ants) where
  -- Nothing in a call looks at the baseline while the scaler is on.
  calls_down :
      (l : List (ℤ × ℤ)) (s : AutoScaler) (pool : P)
      → s.state ≢ disabled
      → length l ≤ pos_part s.scale_mod
      → pos_part s.scale_mod < two63
      → length l < pos_part (ants.cap pool)
      → pos_part (ants.cap pool) < two63
      → All (AsksForLess s.threshold) l
      → (r : AutoScaler × P) × (calls tunable l s pool ≡ some r)
        × (r.0.baseline ≡ s.baseline)
        × (pos_part (ants.cap r.1) + length l ≡ pos_part (ants.cap pool))
  unfolding calls
  calls_down [] s pool on left range room wide asks = ((s, pool), refl, refl, omega arith)
  calls_down (c ∷ rest) s pool on left range room wide asks =
      let (a, b) = add64_down s.scale_mod (omega arith) range in
      let (m, n) = sub64_down (ants.cap pool) (omega arith) wide in
      let tuned = tunable.cap-tune pool (sub64 (ants.cap pool) (pos 1)) (omega arith) in
      let t : AutoScaler × P × Bool = scale_down s pool in
      let now : pos_part (ants.cap t.1) + 1 ≡ pos_part (ants.cap pool) =
        omega (arith, ap pos_part tuned) in
      let step : scale_ants s pool c.0 c.1 ≡ some t =
        scale_ants_down s pool c.0 c.1 on asks.0.0 asks.0.1
          (omega (arith, neg_part_zero s.scale_mod (omega arith))) in
      let (r, f, g, h) =
        calls_down rest t.0 t.1 (λ e. cc) (omega arith) (omega arith) (omega arith) (omega arith)
          asks.1 in
      (r, rw (step, calls) f, g, omega arith)

module _ {P L M : Type 0} ⦃ants : Ants P⦄ (tunable : IsTunable ants) where
  pub set_max_workers_eq :
      (num : ℤ) (e : Engine P L M) → pos 2 ≤ℤ num → set_max_workers num e ≡ tune_workers num e
  unfolding set_max_workers
  set_max_workers_eq num e large = ground arith

  -- From a scaler and a pool in step, a number of workers that is at least two, and that does not take
  -- the maximum out of range, leaves them in step exactly when the scaler has added no worker.
  pub set_max_workers-InStep :
      (num : ℤ) (e : Engine P L M)
      → InStep tunable e.scaler e.pool
      → pos 2 ≤ℤ num
      → pos_part num + pos_part e.scaler.max < two63
      → InStep tunable (set_max_workers num e).scaler (set_max_workers num e).pool
        ↔ (e.scaler.scale_mod ≡ pos 0)
  unfolding set_baseline tune_workers
  set_max_workers-InStep num e v large room =
      let size : ants.cap (ants.tune e.pool num) ≡ num =
        tunable.cap-tune e.pool num (omega arith) in
      let natural : neg_part num ≡ 0 = neg_part_zero num (omega arith) in
      rw (set_max_workers_eq num e large) (
        (
          λ w.
              eq_of_parts e.scaler.scale_mod (pos 0)
                (omega (arith, ap pos_part size, w.in_step, v.mod_nonneg)),
          λ h. record {
            mod_nonneg = v.mod_nonneg;
            baseline_nonneg = natural;
            baseline_pos = omega arith;
            cap_nonneg = rw size natural;
            in_step = rw (size, h) (omega arith);
            below_max = v.below_max;
            room = room;
          },
        ))

  -- Behind SetMaxWorkers, while the scaler is on and has added workers, each call that asks for fewer
  -- takes one worker from the number that was set, so that the pool falls below its baseline, as long as
  -- the calls are no more than the workers that were added and fewer than that number.
  pub set_max_workers_undershoots :
      (num : ℤ) (e : Engine P L M) (l : List (ℤ × ℤ))
      → InStep tunable e.scaler e.pool
      → e.scaler.state ≢ disabled
      → pos 2 ≤ℤ num
      → pos_part num + pos_part e.scaler.max < two63
      → length l ≤ pos_part e.scaler.scale_mod
      → length l < pos_part num
      → All (AsksForLess e.scaler.threshold) l
      → (r : AutoScaler × P) × (calls tunable l
            (set_max_workers num e).scaler
            (set_max_workers num e).pool
          ≡ some r)
        × (r.0.baseline ≡ num)
        × (pos_part (ants.cap r.1) + length l ≡ pos_part num)
  unfolding set_baseline tune_workers
  set_max_workers_undershoots num e l v on large room few fewer asks =
      let size : ants.cap (ants.tune e.pool num) ≡ num =
        tunable.cap-tune e.pool num (omega arith) in
      let size_pos : pos_part (ants.cap (ants.tune e.pool num)) ≡ pos_part num = ap pos_part size in
      let (r, f, b, c) =
        calls_down tunable l (set_baseline e.scaler num) (ants.tune e.pool num) on few (omega arith)
          (omega arith) (omega arith) asks in
      (r, rw (set_max_workers_eq num e large) f, b, c ∙ size_pos)
