-- ===== src/Dialer/Exhausted.antt =====
-- A dial that gives up.
use prox.Base.{ℕ, suc, ◌≡◌, true, List, [], ◌∷◌, some}
use prox.Text.{Bytes}
use prox.Scaler.{Ants}
use prox.Engine.{Engine, Limiter, Plot}
use prox.Engine.Lists.{Channel}
use prox.Dialer.{inner_round, Outside, Moment, outer, Next, goes}
use prox.Dialer.Tries.{IsOnTime, IsCalm, CanDraw, Draws}

-- The middleware accepts every proxy, and the target is reached through none.
pub record IsUnreachable (world : Outside) (network addr : Bytes) : Type 0 where
  pub accepts : (p : ℕ) → (q : ℕ) × (world.middleware p ≡ (some q, true))
  pub fails : (socks : Bytes) → (err : Bytes) × (world.socks_dial socks network addr ≡ some err)

module _ {P L M : Type 0} where
  abbrev Fails : ℕ → Engine P L M → Engine P L M × Next → Type 0
  Fails count e r = (r.1 ≡ goes (outer (suc count))) × (r.0.opt ≡ e.opt)

-- A failed dial: the moments of the round of the outer loop and of the inner one, when neither the caller nor
-- the timer ends the dial and nobody else acts in the inner one, and what is drawn there.
pub record Retry (P L M : Type 0) : Type 0 where
  pub first : Moment P L M
  pub second : Moment P L M
  pub now : ℕ
  pub p : ℕ
  pub c : Channel
  pub rest : List ℕ
  pub on_time : IsOnTime first
  pub calm : IsCalm second
  pub draws : Draws now c second

module _ {P L M : Type 0} where
  abbrev pub schedule_of : List (Retry P L M) → List (Moment P L M) → List (Moment P L M)
  schedule_of [] schedule = schedule
  schedule_of (r ∷ retries) schedule = r.first ∷ r.second ∷ schedule_of retries schedule

module _ {P L M : Type 0} ⦃ants : Ants P⦄ ⦃limiter : Limiter L⦄ ⦃plots : Plot M⦄
    (shuffle : List (Bytes × ℕ) → List (Bytes × ℕ)) (world : Outside) (network addr : Bytes) where
  -- In this run, from this state and with these failed dials, a good proxy can be drawn for each retry, and
  -- the others leave the options alone.
  unfoldable pub Stocked : List (Retry P L M) → Moment P L M → ℕ → Engine P L M → Type 0
  Stocked [] last count e = (last.others e).opt ≡ e.opt
  Stocked (r ∷ retries) last count e =
      let f : Engine P L M = r.first.others e in
      CanDraw r.now r.p r.c r.rest f
      × (f.opt ≡ e.opt)
      × Stocked retries last (suc count) (inner_round shuffle world network addr r.second count f).0
