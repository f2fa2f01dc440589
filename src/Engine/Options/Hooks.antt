-- ===== src/Engine/Options/Hooks.antt =====
-- getters.go and setters.go: the middleware, the random choices and the workers of the pool.
use prox.Base.{Option, some, ℕ, Bool, true, List, ℤ, []}
use prox.Text.{Bytes}
use prox.Debug.{printf}
use prox.Scaler.{Ants}
use prox.Engine.{Engine}

-- A function that sits in a dial: it takes a proxy, and gives one back and whether it may be used.
abbrev pub Middleware : Type 0
Middleware = ℕ → Option ℕ × Bool

-- The middleware of a new engine.
unfoldable pub default_middleware : Middleware
default_middleware p = (some p, true)

-- What Running and Free of the pool give.
pub record WorkerCounts (P : Type 0) : Type 0 where
  pub running : P → ℤ
  pub free : P → ℤ

module _ {P L M : Type 0} where
  -- The middleware that is in use from now on, and the engine.
  unfoldable pub set_dispense_middleware :
      Middleware → Engine P L M × Middleware → Engine P L M × Middleware
  set_dispense_middleware f (e, _) =
      (record e { debug = printf "prox5 dispense middleware set" [] e.debug }, f)

  abbrev pub get_dispense_middleware : Engine P L M × Middleware → Middleware
  get_dispense_middleware (e, f) = f

  -- `choose` is RandomStrChoice of the entropy package.
  unfoldable pub random_user_agent : (List Bytes → Bytes) → Engine P L M → Bytes
  random_user_agent choose e = choose e.opt.user_agents

  unfoldable pub get_random_endpoint : (List Bytes → Bytes) → Engine P L M → Bytes
  get_random_endpoint choose e = choose e.opt.check_endpoints

  -- The capacity of the pool, its running workers and its idle ones.
  unfoldable pub get_workers : ⦃ants : Ants P⦄ → WorkerCounts P → Engine P L M → ℤ × ℤ × ℤ
  get_workers ⦃ants⦄ workers e = (ants.cap e.pool, workers.running e.pool, workers.free e.pool)
