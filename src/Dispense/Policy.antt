-- ===== src/Dispense/Policy.antt =====
-- Which proxies stillGood approves of, and what it changes.
use prox.Base.{
  ◌&&◌, ◌⊎◌, ◌≤ℤ◌, negsuc, ℕ, ◌≡◌, ◌↔◌, refl, true, false, none, pos, add64, arith, ◌++◌, inl, inr,
  if◌then◌else◌, Bool-cases,
}
use prox.Text.{Bytes, same}
use prox.Proxy.{Proxy, unlocked, locked, is_unlocked}
use prox.Engine.{Engine, Limiter, Plot}
use prox.Engine.Counters.{count_stale, since}
use prox.Engine.Options.{remove_after_policy}
use prox.Engine.Store.{store, set_lock}
use prox.Debug.{simple_string}
use prox.Daemons.{map_delete}
use prox.Daemons.MapLaws.{PlotLaws, map_delete_lem}
use prox.Dispense.{say, too_many_failures, is_stale, delete_bad, still_good_locked, still_good}

module _ {P L M : Type 0} ⦃limiter : Limiter L⦄ ⦃plots : Plot M⦄ where
  -- A proxy that may be handed out: nobody holds its lock, it has not failed too often, its key is not
  -- limited, and its last validation is recent enough.
  pub record IsGood (now : ℕ) (p : ℕ) (e : Engine P L M) : Type 0 where
    pub free : (e.heap p).lock ≡ unlocked
    pub reliable :
        (e.opt.recycle ≡ false)
        ⊎ (e.opt.remove_after ≡ negsuc 0)
        ⊎ ((e.heap p).times_bad ≤ℤ e.opt.remove_after)
    pub calm : limiter.peek e.bad_prox (e.heap p).endpoint ≡ false
    pub recent : since now (e.heap p).last_validated ≤ℤ e.opt.stale

  -- What the tests read, and the lists, are the same in both states.
  pub record SameTests (e f : Engine P L M) : Type 0 where
    pub heap : (a : ℕ) → f.heap a ≡ e.heap a
    pub opt : f.opt ≡ e.opt
    pub bad_prox : f.bad_prox ≡ e.bad_prox
    pub valids : f.valids ≡ e.valids
    pub pending : f.pending ≡ e.pending
    pub ctx_done : f.ctx_done ≡ e.ctx_done
    pub dispensed : f.stats.dispensed ≡ e.stats.dispensed
    pub next_address : f.next_address ≡ e.next_address

  delete_bad-SameTests : (sock : Proxy) (e : Engine P L M) → SameTests e (delete_bad sock e)
  unfolding delete_bad map_delete
  delete_bad-SameTests sock e = record {
    heap = λ a. ground arith;
    opt = ground arith;
    bad_prox = ground arith;
    valids = ground arith;
    pending = ground arith;
    ctx_done = ground arith;
    dispensed = ground arith;
    next_address = ground arith;
  }

  still_good_locked-SameTests :
      (now : ℕ) (sock : Proxy) (e : Engine P L M) → SameTests e (still_good_locked now sock e).0
  unfolding still_good_locked count_stale
  still_good_locked-SameTests now sock e = elim (Bool-cases (too_many_failures sock e)) [
    | inl bad ↦ rw bad (delete_bad-SameTests sock e)
    | inr fine ↦ rw fine (record {
      heap = λ a. ground arith;
      opt = ground arith;
      bad_prox = ground arith;
      valids = ground arith;
      pending = ground arith;
      ctx_done = ground arith;
      dispensed = ground arith;
      next_address = ground arith;
    })
  ]

  lock_cycle :
      (p : ℕ) (e f : Engine P L M)
      → (e.heap p).lock ≡ unlocked
      → SameTests (set_lock p locked e) f
      → SameTests e (set_lock p unlocked f)
  unfolding set_lock store
  lock_cycle p e f free s = record {
    heap = λ a. ground (arith, s.heap a, s.heap p);
    opt = s.opt;
    bad_prox = s.bad_prox;
    valids = s.valids;
    pending = s.pending;
    ctx_done = s.ctx_done;
    dispensed = s.dispensed;
    next_address = s.next_address;
  }

  -- stillGood leaves every proxy as it was, its lock included; and the options, the limiter, the lists
  -- and the count of dispensed proxies.
  pub still_good-SameTests : (now p : ℕ) (e : Engine P L M) → SameTests e (still_good now p e).0
  unfolding still_good
  still_good-SameTests now p e = elim (Bool-cases (is_unlocked (e.heap p).lock)) [
    | inl free ↦ rw free (
        lock_cycle p e (still_good_locked now (e.heap p) (set_lock p locked e)).0 (ground arith)
          (still_good_locked-SameTests now (e.heap p) (set_lock p locked e)))
    | inr held ↦ rw held (record {
      heap = λ a. refl;
      opt = refl;
      bad_prox = refl;
      valids = refl;
      pending = refl;
      ctx_done = refl;
      dispensed = refl;
      next_address = refl;
    })
  ]

  pub reliable_iff :
      (sock : Proxy) (e : Engine P L M)
      → (too_many_failures sock e ≡ false) ↔ (
          (e.opt.recycle ≡ false)
          ⊎ (e.opt.remove_after ≡ negsuc 0)
          ⊎ (sock.times_bad ≤ℤ e.opt.remove_after))
  unfolding too_many_failures remove_after_policy
  reliable_iff sock e = (λ h. ground arith, λ h. ground arith)

  recent_iff :
      (now : ℕ) (sock : Proxy) (e : Engine P L M)
      → (is_stale now sock e ≡ false) ↔ (since now sock.last_validated ≤ℤ e.opt.stale)
  unfolding is_stale
  recent_iff now sock e = (λ h. ground arith, λ h. ground arith)

  -- stillGood approves of a proxy exactly when nobody holds its lock, recycling is off or the
  -- proxy has been counted bad no more often than the policy says (with -1 for no limit), its key is not
  -- limited, and its last validation is no longer ago than the stale time.
  pub still_good_iff :
      (now p : ℕ) (e : Engine P L M) → ((still_good now p e).1 ≡ true) ↔ IsGood now p e
  unfolding still_good still_good_locked set_lock store
  still_good_iff now p e =
      let r = reliable_iff (e.heap p) e in
      let s = recent_iff now (e.heap p) e in
      (
        λ h. record {
          free = ground arith;
          reliable = r.0 (ground arith);
          calm = ground arith;
          recent = s.0 (ground arith);
        },
        λ g. ground (arith, g.free, r.1 g.reliable, g.calm, s.1 g.recent),
      )

  delete_bad-get :
      (laws : PlotLaws plots) (sock : Proxy) (k : Bytes) (e : Engine P L M)
      → plots.get (delete_bad sock e).plot k
        ≡ (if same sock.endpoint k then none else plots.get e.plot k)
  unfolding delete_bad
  delete_bad-get laws sock k e =
      let noted : Engine P L M =
        say (simple_string "deleting from map (too many failures): " ++ sock.endpoint) e in
      ground (arith, map_delete_lem laws sock.endpoint k noted)

  -- A proxy that nobody holds and that has failed too often is taken out of the map; no other key is,
  -- and in every other case the map keeps all its keys.
  pub still_good_deletes :
      (laws : PlotLaws plots) (now p : ℕ) (k : Bytes) (e : Engine P L M)
      → plots.get (still_good now p e).0.plot k ≡ (
          if is_unlocked (e.heap p).lock
            && too_many_failures (e.heap p) e
            && same (e.heap p).endpoint k
          then none
          else plots.get e.plot k)
  unfolding still_good still_good_locked set_lock store too_many_failures
  still_good_deletes laws now p k e =
      ground (arith, delete_bad-get laws (e.heap p) k (set_lock p locked e))

  -- A proxy that passes all tests but the last is counted as stale.
  pub still_good_stale :
      (now p : ℕ) (e : Engine P L M)
      → (e.heap p).lock ≡ unlocked
      → too_many_failures (e.heap p) e ≡ false
      → limiter.peek e.bad_prox (e.heap p).endpoint ≡ false
      → (still_good now p e).0.stats.stale
        ≡ (if is_stale now (e.heap p) e then add64 e.stats.stale (pos 1) else e.stats.stale)
  unfolding still_good still_good_locked set_lock store count_stale too_many_failures is_stale
  still_good_stale now p e free fine calm = ground arith
