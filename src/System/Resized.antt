-- ===== src/System/Resized.antt =====
-- The setters of the scaler and of the workers keep the invariant, and a pool may close and open again.
use prox.Base.{
  ◌<◌, ◌≡◌, refl, Bool, true, false, inl, inr, arith, ℤ, pos, pos_part, two63, if◌then◌else◌,
}
use prox.Debug.{Debug}
use prox.Scaler.{Ants, AutoScaler, enable, disable, set_max, set_threshold, set_baseline}
use prox.Scaler.Bounds.{IsTunable}
use prox.Scaler.Upright.{IsUpright}
use prox.Engine.{Engine, Limiter, Plot}
use prox.Engine.Options.{
  enable_auto_scaler, disable_auto_scaler, set_auto_scaler_max_scale, set_auto_scaler_threshold,
  set_max_workers, tune_workers,
}
use prox.System.{Internet}
use prox.System.Sound.{Safe}

same_mod :
    (s t : AutoScaler)
    → t.scale_mod ≡ s.scale_mod
    → pos_part t.max < two63
    → IsUpright s
    → IsUpright t
same_mod s t h fits w = record { nonneg = rw h w.nonneg; ranged = rw h w.ranged; max_ranged = fits }

module _ ⦃internet : Internet⦄ {P L M : Type 0} ⦃ants : Ants P⦄ ⦃limiter : Limiter L⦄
    ⦃plots : Plot M⦄ (tunable : IsTunable ants) where
  -- A scaler that is upright if the one before it is, and any pool.
  rescaled :
      (s : AutoScaler) (pool : P) (d : Debug) (e : Engine P L M)
      → (IsUpright e.scaler → IsUpright s)
      → Safe tunable e (record e { scaler = s; pool = pool; debug = d })
  rescaled s pool d e h v = (
    record {
      known = record { exists = v.known.exists; keyed = v.known.keyed; queued = v.known.queued };
      listed = v.listed;
      once = v.once;
      upright = h v.upright;
    },
    record { grows = omega arith; keeps = λ a. inr (inl refl) },
  )

  pub repooled :
      (pool : P) (d : Debug) (e : Engine P L M)
      → Safe tunable e (record e { pool = pool; debug = d })
  repooled pool d e = rescaled e.scaler pool d e (λ w. w)

  pub enable_auto_scaler-Safe : (e : Engine P L M) → Safe tunable e (enable_auto_scaler e)
  unfolding enable_auto_scaler enable
  enable_auto_scaler-Safe e =
      rescaled (enable e.scaler) e.pool _ e
        (λ w. same_mod e.scaler (enable e.scaler) refl w.max_ranged w)

  pub disable_auto_scaler-Safe : (e : Engine P L M) → Safe tunable e (disable_auto_scaler e)
  unfolding disable_auto_scaler disable
  disable_auto_scaler-Safe e =
      rescaled (disable e.scaler) e.pool _ e
        (λ w. same_mod e.scaler (disable e.scaler) refl w.max_ranged w)

  pub set_auto_scaler_threshold-Safe :
      (threshold : ℤ) (e : Engine P L M) → Safe tunable e (set_auto_scaler_threshold threshold e)
  unfolding set_auto_scaler_threshold set_threshold
  set_auto_scaler_threshold-Safe threshold e =
      rescaled (set_threshold e.scaler threshold) e.pool _ e
        (λ w. same_mod e.scaler (set_threshold e.scaler threshold) refl w.max_ranged w)

  pub set_auto_scaler_max_scale-Safe :
      (max : ℤ) (e : Engine P L M)
      → pos_part max < two63
      → Safe tunable e (set_auto_scaler_max_scale max e)
  unfolding set_auto_scaler_max_scale set_max
  set_auto_scaler_max_scale-Safe max e fits =
      rescaled (set_max e.scaler max) e.pool _ e
        (λ w. same_mod e.scaler (set_max e.scaler max) refl fits w)

  if-Workers :
      (b : Bool) (e x y : Engine P L M)
      → Safe tunable e x
      → Safe tunable e y
      → Safe tunable e (if b then x else y)
  if-Workers true e x y h k = h
  if-Workers false e x y h k = k

  -- Whatever the number is, and whatever the scaler has added.
  pub set_max_workers-Safe : (num : ℤ) (e : Engine P L M) → Safe tunable e (set_max_workers num e)
  unfolding set_max_workers tune_workers set_baseline
  set_max_workers-Safe num e =
      if-Workers _ e _ _
        (rescaled (set_baseline e.scaler (pos 2)) (ants.tune e.pool (pos 2)) _ e
          (λ w. same_mod e.scaler (set_baseline e.scaler (pos 2)) refl w.max_ranged w))
        (rescaled (set_baseline e.scaler num) (ants.tune e.pool num) _ e
          (λ w. same_mod e.scaler (set_baseline e.scaler num) refl w.max_ranged w))
