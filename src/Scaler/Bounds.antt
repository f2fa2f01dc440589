-- ===== src/Scaler/Bounds.antt =====
-- The capacity of the pool over a history of calls.
use prox.Base.{
  ◌+◌, ◌≤◌, ◌<◌, ◌≡◌, refl, ◌∙◌, true, Option, none, some, ◌⊎◌, inl, inr, List, [], ◌∷◌, length,
  All, ◌≢◌, arith, ℤ, pos, negsuc, pos_part, neg_part, two63, ◌≤ℤ◌, ◌<ℤ◌, add64, sub64, add64_up,
  add64_down, sub64_down, neg_part_zero,
}
use prox.Scaler.{
  Ants, AutoScaler, disabled, idle, Outcome, scale_up, scale_off, scale_body, scale_ants, is_on,
}
use prox.Scaler.Modes.{SameSettings, Moves, scale_ants-Moves, scale_ants_up}

-- What the documentation of ants says of Tune on a pool that is bounded and not preallocated, and of
-- closing and reopening a pool, which leave its capacity.
pub record IsTunable {P : Type 0} (ants : Ants P) : Type 0 where
  pub cap-tune : (pool : P) (size : ℤ) → pos 0 <ℤ size → ants.cap (ants.tune pool size) ≡ size
  pub cap-reboot : (pool : P) → ants.cap (ants.reboot pool) ≡ ants.cap pool
  pub cap-release : (pool : P) → ants.cap (ants.release pool) ≡ ants.cap pool

module _ {P : Type 0} ⦃ants : Ants P⦄ (tunable : IsTunable ants) where
  -- The capacity is the baseline and `mod`, and `mod` is between zero and the maximum.
  pub record InStep (s : AutoScaler) (pool : P) : Type 0 where
    pub mod_nonneg : neg_part s.scale_mod ≡ 0
    pub baseline_nonneg : neg_part s.baseline ≡ 0
    pub baseline_pos : 0 < pos_part s.baseline
    pub cap_nonneg : neg_part (ants.cap pool) ≡ 0
    pub in_step : pos_part (ants.cap pool) ≡ pos_part s.baseline + pos_part s.scale_mod
    pub below_max : pos_part s.scale_mod ≤ pos_part s.max
    pub room : pos_part s.baseline + pos_part s.max < two63

  scale_up-InStep :
      (s : AutoScaler) (pool : P)
      → InStep s pool
      → s.scale_mod <ℤ s.max
      → InStep (scale_up s pool).0 (scale_up s pool).1
  scale_up-InStep s pool v m = ground (
    arith,
    add64_up s.scale_mod,
    add64_up (ants.cap pool),
    tunable.cap-tune pool (add64 (ants.cap pool) (pos 1)),
  )

  pub Moves-InStep :
      (s : AutoScaler) (pool : P) (o : Outcome P)
      → InStep s pool
      → SameSettings s o.0
      → Moves s pool o
      → InStep o.0 o.1
  Moves-InStep s pool o v (m, b, t) (inl (p, r, k)) = record {
    mod_nonneg = rw k v.mod_nonneg;
    baseline_nonneg = rw b v.baseline_nonneg;
    baseline_pos = rw b v.baseline_pos;
    cap_nonneg = rw p v.cap_nonneg;
    in_step = rw (p, b, k) v.in_step;
    below_max = rw (m, k) v.below_max;
    room = rw (b, m) v.room;
  }
  Moves-InStep s pool o v (m, b, t) (inr (inl (e, k, d))) = rw e (scale_up-InStep s pool v k)
  Moves-InStep s pool o v (m, b, t) (inr (inr (k, p, r, d))) = ground (
    arith,
    add64_down s.scale_mod,
    sub64_down (ants.cap pool),
    tunable.cap-tune pool (sub64 (ants.cap pool) (pos 1)),
  )

  -- A history of calls, each with its counts of validated and dispensed proxies.
  unfoldable pub calls : List (ℤ × ℤ) → AutoScaler → P → Option (AutoScaler × P)
  calls [] s pool = some (s, pool)
  calls ((validated, dispensed) ∷ rest) s pool = elim (scale_ants s pool validated dispensed) [
    | none ↦ none
    | some (s', pool', changed) ↦ calls rest s' pool'
  ]

  -- From a scaler in step, no history of calls panics; after it the capacity is still the baseline and
  -- `mod` together, with `mod` between zero and the maximum.
  pub calls-InStep :
      (l : List (ℤ × ℤ)) (s : AutoScaler) (pool : P)
      → InStep s pool
      → (r : AutoScaler × P) × (calls l s pool ≡ some r) × InStep r.0 r.1
  unfolding calls
  calls-InStep [] s pool v = ((s, pool), refl, v)
  calls-InStep ((validated, dispensed) ∷ rest) s pool v =
      let (o, e, same, moves) = scale_ants-Moves s pool validated dispensed (omega arith) in
      let (r, f, w) = calls-InStep rest o.0 o.1 (Moves-InStep s pool o v same moves) in
      (r, rw (e, calls) f, w)

  off_step :
      (s : AutoScaler) (pool : P) (validated dispensed : ℤ)
      → InStep s pool
      → s.state ≡ disabled
      → 0 < pos_part s.scale_mod
      → (t : AutoScaler) × (q : P) × (scale_ants s pool validated dispensed ≡ some (t, q, true))
        × InStep t q
        × (t.state ≡ disabled)
        × (t.baseline ≡ s.baseline)
        × (pos_part t.scale_mod + 1 ≡ pos_part s.scale_mod)
  off_step s pool validated dispensed v off dirty = (
    record s { scale_mod = add64 s.scale_mod (negsuc 0) },
    ants.tune pool (sub64 (ants.cap pool) (pos 1)),
    (unfold scale_ants scale_body scale_off is_on in ground arith),
    Moves-InStep s pool
        (
          record s { scale_mod = add64 s.scale_mod (negsuc 0) },
          ants.tune pool (sub64 (ants.cap pool) (pos 1)),
          true,
        )
        v (refl, refl, refl) (inr (inr (refl, refl, refl, ground arith))),
    off,
    refl,
    ground (arith, add64_down s.scale_mod),
  )

  -- Once the scaler is off, as many calls as `mod` counts bring `mod` back to zero and the pool back to
  -- the baseline, whatever the counts of validated and dispensed proxies are.
  pub calls_off :
      (l : List (ℤ × ℤ)) (s : AutoScaler) (pool : P)
      → InStep s pool
      → s.state ≡ disabled
      → pos_part s.scale_mod ≡ length l
      → (r : AutoScaler × P) × (calls l s pool ≡ some r)
        × (r.0.scale_mod ≡ pos 0)
        × (r.0.baseline ≡ s.baseline)
        × (ants.cap r.1 ≡ s.baseline)
  unfolding calls
  calls_off [] s pool v off n = ((s, pool), refl, ground arith, refl, ground arith)
  calls_off ((validated, dispensed) ∷ rest) s pool v off n =
      let (t, q, e, w, o, base, m) = off_step s pool validated dispensed v off (omega arith) in
      let (r, f, z, b, c) = calls_off rest t q w o (omega arith) in
      (r, rw (e, calls) f, z, b ∙ base, c ∙ base)

  -- A call that asks for more workers.
  abbrev AsksForMore : ℤ → ℤ × ℤ → Type 0
  AsksForMore threshold (validated, dispensed) =
      (dispensed ≤ℤ validated) × (sub64 validated dispensed <ℤ threshold) × (threshold ≤ℤ validated)

  up_step :
      (s : AutoScaler) (pool : P) (c : ℤ × ℤ)
      → InStep s pool
      → s.state ≢ disabled
      → (s.state ≡ idle) ⊎ (0 < pos_part s.scale_mod)
      → s.scale_mod <ℤ s.max
      → AsksForMore s.threshold c
      → scale_ants s pool c.0 c.1 ≡ some (scale_up s pool)
  up_step s pool (validated, dispensed) v on ready low (d, g, t) =
      scale_ants_up s pool validated dispensed on (omega arith) d g low t
        (elim ready [ inl i ↦ inl i | inr m ↦ inr (omega arith) ])

  -- While every call asks for more workers, an idle or scaling scaler adds one to `mod`, and one worker,
  -- at each call, as long as the maximum is not met.
  calls_up :
      (l : List (ℤ × ℤ)) (s : AutoScaler) (pool : P)
      → InStep s pool
      → s.state ≢ disabled
      → (s.state ≡ idle) ⊎ (0 < pos_part s.scale_mod)
      → pos_part s.scale_mod + length l ≤ pos_part s.max
      → All (AsksForMore s.threshold) l
      → (r : AutoScaler × P) × (calls l s pool ≡ some r)
        × (pos_part r.0.scale_mod ≡ pos_part s.scale_mod + length l)
        × (pos_part (ants.cap r.1) ≡ pos_part (ants.cap pool) + length l)
  unfolding calls
  calls_up [] s pool v on ready room asks = ((s, pool), refl, omega arith, omega arith)
  calls_up (c ∷ rest) s pool v on ready room asks =
      let low : s.scale_mod <ℤ s.max = omega (arith, neg_part_zero s.max (omega arith)) in
      let w = scale_up-InStep s pool v low in
      let (m, n) = add64_up s.scale_mod v.mod_nonneg (omega arith) in
      let (r, f, g, h) =
        calls_up rest (scale_up s pool).0 (scale_up s pool).1 w (λ e. cc) (inr (omega arith))
          (omega arith) asks.1 in
      (
        r,
        rw (up_step s pool c v on ready low asks.0, calls) f,
        omega arith,
        omega (arith, w.in_step, v.in_step),
      )
