-- ===== src/System/Dialed.antt =====
-- Whole dials, whatever the others do between their rounds.
use mathlib.Core.List.{Perm}
use prox.Base.{ℕ, List}
use prox.Text.{Bytes}
use prox.Scaler.{Ants}
use prox.Scaler.Bounds.{IsTunable}
use prox.Debug.{Debug}
use prox.Engine.{Engine, Limiter, Plot}
use prox.Daemons.MapLaws.{PlotLaws}
use prox.Dialer.{Outcome, Outside}
use prox.System.{Internet, Reach}
use prox.System.Dials.{Fair}

module _ ⦃internet : Internet⦄ {P L M : Type 0} ⦃ants : Ants P⦄ ⦃limiter : Limiter L⦄
    ⦃plots : Plot M⦄ (shuffle : List (Bytes × ℕ) → List (Bytes × ℕ)) (tunable : IsTunable ants)
    (laws : PlotLaws plots) (permutes : (l : List (Bytes × ℕ)) → Perm (shuffle l) l)
    (world : Outside) (network addr : Bytes) where
  abbrev pub Dials : Engine P L M → Engine P L M × Outcome → Type 0
  Dials e (f, outcome) = Reach shuffle e f × Fair world f outcome
