-- ===== src/Daemons/MapLaws.antt =====
-- The map of known proxies under add, delete and clear.
use prox.Base.{
  ℕ, suc, ◌<◌, ◌≡◌, Option, none, some, length, pos, arith, if◌then◌else◌, Option-cases, inl, inr,
  is_some, All, All-mono,
}
use prox.Text.{Bytes, same, same→eq, same_refl}
use prox.Engine.{Engine, Plot}
use prox.Daemons.{new_proxy, map_add, map_delete}

abbrev pub or_value : Option ℕ → ℕ → ℕ
or_value none v = v
or_value (some w) v = w

-- What the program relies on of the concurrent map.
pub record PlotLaws {M : Type 0} (plots : Plot M) : Type 0 where
  pub get-new : (k : Bytes) → plots.get plots.new_plot k ≡ none
  pub get-set_if_absent :
      (m : M) (k j : Bytes) (v : ℕ)
      → plots.get (plots.set_if_absent m k v) j
        ≡ (if same k j then some (or_value (plots.get m k) v) else plots.get m j)
  pub get-remove :
      (m : M) (k j : Bytes)
      → plots.get (plots.remove m k) j ≡ (if same k j then none else plots.get m j)
  pub get-clear : (m : M) (k : Bytes) → plots.get (plots.clear m) k ≡ none
  pub count-entries : (m : M) → plots.count m ≡ pos (length (plots.entries m))
  pub entries-get : (m : M) → All (λ t. plots.get m t.0 ≡ some t.1) (plots.entries m)

module _ {P L M : Type 0} ⦃plots : Plot M⦄ where
  -- Each entry of the map is a proxy that exists, with the key as its endpoint; and each address on
  -- Pending is that of a proxy that exists.
  pub record IsKnown (e : Engine P L M) : Type 0 where
    pub exists : (k : Bytes) (p : ℕ) → plots.get e.plot k ≡ some p → p < e.next_address
    pub keyed : (k : Bytes) (p : ℕ) → plots.get e.plot k ≡ some p → (e.heap p).endpoint ≡ k
    pub queued : All (λ p. p < e.next_address) e.pending

  module _ (laws : PlotLaws plots) where
    -- proxyMap.add never fails.
    pub map_add-some :
        (sock : Bytes) (e : Engine P L M)
        → (map_add sock e).1 ≡ some (or_value (plots.get e.plot sock) e.next_address)
    unfolding map_add
    map_add-some sock e =
        ground (arith, laws.get-set_if_absent e.plot sock sock e.next_address, same_refl sock)

    pub map_add-found :
        (sock : Bytes) (e : Engine P L M)
        → plots.get (map_add sock e).0.plot sock
          ≡ some (or_value (plots.get e.plot sock) e.next_address)
    unfolding map_add
    map_add-found sock e =
        ground (arith, laws.get-set_if_absent e.plot sock sock e.next_address, same_refl sock)

    pub map_add-IsKnown : (sock : Bytes) (e : Engine P L M) → IsKnown e → IsKnown (map_add sock e).0
    unfolding map_add new_proxy
    map_add-IsKnown sock e v = record {
      exists = λ k p h. ground (
        arith,
        laws.get-set_if_absent e.plot sock k e.next_address,
        v.exists k p,
        v.exists sock p,
      );
      keyed = λ k p h. ground (
        arith,
        laws.get-set_if_absent e.plot sock k e.next_address,
        v.exists k p,
        v.exists sock p,
        v.keyed k p,
        v.keyed sock p,
        same→eq sock k,
      );
      queued =
          All-mono (λ p. p < e.next_address) (λ p. p < suc e.next_address) (λ p h. omega arith)
            e.pending v.queued;
    }

    pub map_delete-IsKnown :
        (sock : Bytes) (e : Engine P L M) → IsKnown e → IsKnown (map_delete sock e).0
    unfolding map_delete
    map_delete-IsKnown sock e v = record {
      exists = λ k p h. ground (arith, laws.get-remove e.plot sock k, v.exists k p);
      keyed = λ k p h. ground (arith, laws.get-remove e.plot sock k, v.keyed k p);
      queued = elim (Option-cases (plots.get e.plot sock)) [
        | inl missing ↦ rw (missing, map_delete) v.queued
        | inr (p, found) ↦ rw (found, map_delete) v.queued
      ];
    }

    -- After proxyMap.delete the key is gone and every other key is as before; the result says whether
    -- the key was there.
    pub map_delete_lem :
        (sock k : Bytes) (e : Engine P L M)
        → (plots.get (map_delete sock e).0.plot k
            ≡ (if same sock k then none else plots.get e.plot k))
          × ((map_delete sock e).1 ≡ is_some (plots.get e.plot sock))
    unfolding map_delete
    map_delete_lem sock k e =
        (ground (arith, laws.get-remove e.plot sock k, same→eq sock k), ground arith)
