-- ===== src/Base/Pool.antt =====
-- sync.Pool. Get takes an item that it chooses, or makes a new one; a choice is a position, and one that
-- is out of range stands for a pool that gives nothing back.
use Prim.Native.Nat.{ℕ, zero, suc}
use mathlib.Core.List.{List, [], ◌∷◌}
use prox.Base.Lists.{All}

module _ {ℓ} {A : Type ℓ} where
  unfoldable pub pool_get : ℕ → A → List A → A × List A
  pool_get choice new [] = (new, [])
  pool_get zero new (x ∷ pool) = (x, pool)
  pool_get (suc choice) new (x ∷ pool) = let (y, rest) = pool_get choice new pool in (y, x ∷ rest)

  abbrev pub pool_put : A → List A → List A
  pool_put x pool = x ∷ pool

  pub pool_get-All {κ} :
      (Q : A → Type κ) (choice : ℕ) (new : A) (pool : List A)
      → Q new
      → All Q pool
      → Q (pool_get choice new pool).0 × All Q (pool_get choice new pool).1
  unfolding pool_get
  pool_get-All Q choice new [] h k = (h, k)
  pool_get-All Q zero new (x ∷ pool) h k = k
  pool_get-All Q (suc choice) new (x ∷ pool) h k =
      let (q, rest) = pool_get-All Q choice new pool h k.1 in (q, (k.0, rest))

  pub pool_rest-All {κ} :
      (Q : A → Type κ) (choice : ℕ) (new : A) (pool : List A)
      → All Q pool
      → All Q (pool_get choice new pool).1
  unfolding pool_get
  pool_rest-All Q choice new [] k = k
  pool_rest-All Q zero new (x ∷ pool) k = k.1
  pool_rest-All Q (suc choice) new (x ∷ pool) k = (k.0, pool_rest-All Q choice new pool k.1)
