-- ===== src/Engine/Store.antt =====
-- Reads and writes of a proxy that is known by its address.
use prox.Base.{ℕ, ◌≡◌, arith}
use prox.Proxy.{Proxy, Lock}
use prox.Engine.{Engine, update}

module _ {P L M : Type 0} where
  unfoldable pub store : ℕ → Proxy → Engine P L M → Engine P L M
  store p sock e = record e { heap = update e.heap p sock }

  -- The atomic store to `lock`.
  unfoldable pub set_lock : ℕ → Lock → Engine P L M → Engine P L M
  unfolding store
  set_lock p l e = store p (record (e.heap p) { lock = l }) e

pub update_self : (heap : ℕ → Proxy) (p : ℕ) (sock : Proxy) → update heap p sock p ≡ sock
update_self heap p sock = ground arith
