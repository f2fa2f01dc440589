-- ===== src/Validate/Lock.antt =====
-- The lock of a proxy over its validation.
use prox.Base.{ℕ, ◌≡◌, Bool, List, some, arith}
use prox.Proxy.{Protocol}
use prox.Engine.{Engine, Limiter}
use prox.Engine.Store.{store, set_lock}
use prox.Validate.{Network, validate}

module _ {P L M : Type 0} ⦃limiter : Limiter L⦄ where
  -- A validation leaves the lock of the proxy as it finds it, in every state and on every way out, early
  -- returns included.
  pub validate-lock :
      (net : Network) (cancelled : Protocol → Bool) (order : List Protocol) (now p : ℕ)
      (e : Engine P L M)
      → ((validate net cancelled order now (some p) e).heap p).lock ≡ (e.heap p).lock
  unfolding validate set_lock store
  validate-lock net cancelled order now p e = ground arith
