-- ===== src/Dialer/Connects.antt =====
-- A dial that gets through.
use prox.Base.{some, ℕ, ◌≡◌, true, false, List, none, pos, ltb_ℤ}
use prox.Text.{Bytes}
use prox.Scaler.{Ants}
use prox.Engine.{Engine, Limiter, Plot}
use prox.Engine.Options.{get_dialer_bailout, proxy_string}
use prox.Engine.Lists.{Channel}
use prox.Dialer.{Outside}
use prox.Dialer.Tries.{CanDraw}

module _ {P L M : Type 0} ⦃ants : Ants P⦄ ⦃limiter : Limiter L⦄ ⦃plots : Plot M⦄
    (shuffle : List (Bytes × ℕ) → List (Bytes × ℕ)) (world : Outside) (network addr : Bytes) where
  -- A good proxy can be drawn, the bailout is not negative, the middleware accepts the proxy and gives `q`
  -- back, and the target is reached through it.
  pub record CanConnect (now p q : ℕ) (c : Channel) (rest : List ℕ) (e : Engine P L M)
      : Type 0 where
    pub draw : CanDraw now p c rest e
    pub patient : ltb_ℤ (get_dialer_bailout e) (pos 0) ≡ false
    pub accepts : world.middleware p ≡ (some q, true)
    pub reaches : world.socks_dial (proxy_string e.opt (e.heap p)) network addr ≡ none
