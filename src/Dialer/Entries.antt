-- ===== src/Dialer/Entries.antt =====
-- mystery_dialer.go: the three entries of the dialer, which differ in the context of the dial, and
-- addTimeout.
use prox.Base.{ℕ, ◌+◌, false, List, ◌++◌, map, leb}
use prox.Text.{Bytes, codes}
use prox.Scaler.{Ants}
use prox.Engine.{Engine, Limiter, Plot}
use prox.Engine.Options.{get_server_timeout_str}
use prox.Dialer.{Outside, Moment, Outcome, mystery_dialer}

module _ {P L M : Type 0} where
  -- A moment under context.Background(), which is never done, or under one with a deadline.
  abbrev pub in_background : Moment P L M → Moment P L M
  in_background moment = record moment { cancelled = false }

  abbrev pub before_deadline : ℕ → Moment P L M → Moment P L M
  before_deadline deadline moment = record moment { cancelled = leb deadline moment.now }

  unfoldable pub add_timeout : Bytes → Engine P L M → Bytes
  add_timeout socks e = socks ++ (codes "?timeout=" ++ (get_server_timeout_str e ++ codes "s"))

module _ {P L M : Type 0} ⦃ants : Ants P⦄ ⦃limiter : Limiter L⦄ ⦃plots : Plot M⦄
    (shuffle : List (Bytes × ℕ) → List (Bytes × ℕ)) (world : Outside) (network addr : Bytes) where
  -- DialContext
  unfoldable pub dial_context : List (Moment P L M) → Engine P L M → Engine P L M × Outcome
  unfolding mystery_dialer
  dial_context schedule e = mystery_dialer shuffle world network addr schedule e

  -- Dial
  unfoldable pub dial : List (Moment P L M) → Engine P L M → Engine P L M × Outcome
  unfolding mystery_dialer
  dial schedule e = mystery_dialer shuffle world network addr (map in_background schedule) e

  -- DialTimeout, called at time `start`.
  unfoldable pub dial_timeout : ℕ → ℕ → List (Moment P L M) → Engine P L M → Engine P L M × Outcome
  unfolding mystery_dialer
  dial_timeout start timeout schedule e =
      mystery_dialer shuffle world network addr (map (before_deadline (start + timeout)) schedule) e
