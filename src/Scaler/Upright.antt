-- ===== src/Scaler/Upright.antt =====
-- What keeps ScaleAnts from its panic, whatever the setters do: the number of workers that the scaler has
-- added is never negative.
use prox.Base.{inl, inr, ◌<◌, ◌≡◌, arith, pos_part, neg_part, two63, add64_up, add64_down}
use prox.Scaler.{Ants, AutoScaler, Outcome}
use prox.Scaler.Modes.{Moves, SameSettings}

-- `mod` is not negative, and it and the maximum are in the range of an int64.
pub record IsUpright (s : AutoScaler) : Type 0 where
  pub nonneg : neg_part s.scale_mod ≡ 0
  pub ranged : pos_part s.scale_mod < two63
  pub max_ranged : pos_part s.max < two63

pub Moves-IsUpright :
    {P : Type 0} ⦃ants : Ants P⦄ (s : AutoScaler) (pool : P) (o : Outcome P)
    → IsUpright s
    → SameSettings s o.0
    → Moves s pool o
    → IsUpright o.0
Moves-IsUpright s pool o v (m, b, t) (inl (p, r, k)) = record {
  nonneg = rw k v.nonneg;
  ranged = rw k v.ranged;
  max_ranged = rw m v.max_ranged;
}
Moves-IsUpright s pool o v (m, b, t) (inr (inl (e, k, d))) =
    rw e (ground (arith, add64_up s.scale_mod))
Moves-IsUpright s pool o v (m, b, t) (inr (inr (k, p, r, d))) =
    ground (arith, add64_down s.scale_mod)
