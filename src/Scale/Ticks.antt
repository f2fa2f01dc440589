-- ===== src/Scale/Ticks.antt =====
-- A tick of the auto scaler does not panic, and keeps the pool in step.
use prox.Base.{ℕ, ◌≡◌, Bool, some, arith}
use prox.Scaler.{Ants}
use prox.Scaler.Bounds.{IsTunable, InStep, Moves-InStep}
use prox.Engine.{Engine, Limiter}
use prox.Scale.{scale}
use prox.Scale.Kept
use prox.Scale.Kept.{IsStable}

module _ {P : Type 0} ⦃ants : Ants P⦄ (tunable : IsTunable ants) where
  stable : IsStable (InStep tunable)
  stable = record { nonneg = λ s pool v. omega arith; closed = Moves-InStep tunable }

module _ {P L M : Type 0} ⦃ants : Ants P⦄ ⦃limiter : Limiter L⦄ (tunable : IsTunable ants) where
  -- A tick leaves the scaler and the pool in step, and changes none of what the proxies are kept in.
  abbrev pub Ticked : Engine P L M → Engine P L M → Type 0
  Ticked e f = Kept.Ticked (InStep tunable) e f

  pub Ticked-refl : (e : Engine P L M) → InStep tunable e.scaler e.pool → Ticked e e
  Ticked-refl e v = Kept.Ticked-refl (InStep tunable) (stable tunable) e v

  pub Ticked-trans : (e f g : Engine P L M) → Ticked e f → Ticked f g → Ticked e g
  Ticked-trans e f g s t = Kept.Ticked-trans (InStep tunable) (stable tunable) e f g s t

  -- From a scaler and a pool that are in step, a tick does not panic. It leaves them in step and keeps
  -- the scaler's settings, the proxies, the map, the lists, the pending queue, the status and the options.
  pub scale-Ticked :
      (now : ℕ) (e : Engine P L M)
      → InStep tunable e.scaler e.pool
      → (r : Engine P L M × Bool) × (scale now e ≡ some r) × Ticked e r.0
  scale-Ticked now e v = Kept.scale-Ticked (InStep tunable) (stable tunable) now e v
