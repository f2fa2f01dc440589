-- ===== src/Daemons.antt =====
-- daemons.go: the map of known proxies, and the recycler.
pub mod MapLaws
pub mod Recycling
use prox.Base.{
  ℕ, zero, suc, ◌+◌, ◌≡◌, Bool, true, false, not, ◌||◌, List, [], ◌∷◌, ◌++◌, Option, none, some, ℤ,
  pos, ltb_ℤ, if◌then◌else◌,
}
use prox.Text.{Bytes}
use prox.Proxy.{Proxy, new_immutable_proto, unlocked}
use prox.Engine.{Engine, Plot, update}
use prox.Engine.Options.{get_recycling_status, get_recycler_shuffle_status}
use prox.Engine.Lists.{add}

-- The proxy that proxyMap.add allocates; time.UnixMilli(0) is the epoch.
unfoldable pub new_proxy : Bytes → Proxy
new_proxy sock = record {
  endpoint = sock;
  proxied_ip = [];
  protocol = new_immutable_proto;
  last_validated = 0;
  times_validated = pos 0;
  times_bad = pos 0;
  has_parent = true;
  lock = unlocked;
}

-- The loop that pushes each tuple of the map to Pending, and counts.
pub push_all : List (Bytes × ℕ) → List ℕ → ℕ → List ℕ × ℕ
unfolding add
push_all [] pending count = (pending, count)
push_all ((k, p) ∷ rest) pending count = push_all rest (add pending p) (count + 1)

module _ {P L M : Type 0} ⦃plots : Plot M⦄ where
  -- proxyMap.add: a fresh proxy, which is garbage if the map has the key already.
  unfoldable pub map_add : Bytes → Engine P L M → Engine P L M × Option ℕ
  unfolding new_proxy
  map_add sock e =
      let plot = plots.set_if_absent e.plot sock e.next_address in
      (
        record e {
          plot = plot;
          heap = update e.heap e.next_address (new_proxy sock);
          next_address = suc e.next_address;
        },
        plots.get plot sock,
      )

  -- proxyMap.delete: `false` is the error "proxy not found".
  unfoldable pub map_delete : Bytes → Engine P L M → Engine P L M × Bool
  map_delete sock e = elim (plots.get e.plot sock) [
    | none ↦ (e, false)
    | some _ ↦ (record e { plot = plots.remove e.plot sock }, true)
  ]

  -- proxyMap.clear
  unfoldable pub map_clear : Engine P L M → Engine P L M
  map_clear e = record e { plot = plots.clear e.plot }

  -- The tuples in the order of the push; `shuffle` is that of the random source.
  pub tuples_of : (List (Bytes × ℕ) → List (Bytes × ℕ)) → Engine P L M → List (Bytes × ℕ)
  tuples_of shuffle e =
      if get_recycler_shuffle_status e then shuffle (plots.entries e.plot) else plots.entries e.plot

  -- What the recycler does once a tick has come.
  unfoldable pub recycle_all :
      (List (Bytes × ℕ) → List (Bytes × ℕ)) → Engine P L M → Engine P L M × ℕ
  unfolding push_all tuples_of
  recycle_all shuffle e =
      let (pending, count) = push_all (tuples_of shuffle e) e.pending 0 in
      (record e { pending = pending; recycle_tick = false }, count)

  -- recycling: the mutex is free again on each way out, unless it was held at the start.
  unfoldable pub recycling : (List (Bytes × ℕ) → List (Bytes × ℕ)) → Engine P L M → Engine P L M × ℕ
  unfolding recycle_all
  recycling shuffle e =
      if e.recycle_held
      then (e, 0)
      else if not (get_recycling_status e) || ltb_ℤ (plots.count e.plot) (pos 1)
      then (e, 0)
      else if e.recycle_tick
      then recycle_all shuffle e
      else (e, 0)
