-- ===== src/System/Draws.antt =====
-- The recycler and the getters keep the invariant.
use mathlib.Core.List.{Perm}
use native.Mathlib.Bridge.{le_prop}
use prox.Base.{
  ℕ, Option, ◌<◌, ◌≡◌, Bool, false, not, ◌||◌, List, [], ◌∷◌, ◌++◌, none, some, inl, inr, All,
  All-mono, All-append, Bool-cases, Option-cases, List-cases, pos, ltb_ℤ,
}
use prox.Text.{Bytes}
use prox.Proxy.{Proxy, locked, unlocked, is_unlocked}
use prox.Scaler.{Ants}
use prox.Scaler.Bounds.{IsTunable}
use prox.Engine.{Engine, Limiter, Plot}
use prox.Engine.Options.{get_recycling_status}
use prox.Engine.Counters.{count_stale, dispense}
use prox.Engine.Lists.{Channel, list_of, dequeue}
use prox.Engine.Store.{set_lock}
use prox.Daemons.{recycling, recycle_all, tuples_of, map_delete}
use prox.Daemons.MapLaws.{PlotLaws, IsKnown}
use prox.Daemons.Recycling.{addresses, recycle_all_eq, tuples_of-perm}
use prox.Dispense.{
  say, too_many_failures, is_stale, delete_bad, still_good_locked, still_good, check_drawn,
  get_socks_round, get_any_lists,
}
use prox.Debug.{simple_string}
use prox.System.{Internet}
use prox.System.Sound.{
  Safe, Safe-trans, Safe-refl, if-Safe, Framed-Safe, set_lock-Framed, aside-Framed,
}
use prox.System.Queues.{All-perm, dequeue-Safe, requeued}
use prox.System.Loads.{map_delete-Safe}

All-addresses : (Q : ℕ → Type 0) (l : List (Bytes × ℕ)) → All (λ t. Q t.1) l → All Q (addresses l)
All-addresses Q [] h = tt
All-addresses Q (t ∷ l) h = (h.0, All-addresses Q l h.1)

module _ ⦃internet : Internet⦄ {P L M : Type 0} ⦃ants : Ants P⦄ ⦃plots : Plot M⦄
    (tunable : IsTunable ants) (laws : PlotLaws plots)
    (shuffle : List (Bytes × ℕ) → List (Bytes × ℕ))
    (permutes : (l : List (Bytes × ℕ)) → Perm (shuffle l) l) where
  recycled_exist :
      (e : Engine P L M)
      → IsKnown e
      → All (λ p. p < e.next_address) (addresses (tuples_of shuffle e))
  recycled_exist e v =
      All-addresses (λ p. p < e.next_address) (tuples_of shuffle e)
        (All-perm (λ t. t.1 < e.next_address) (λ t. le_prop) (tuples_of shuffle e)
          (plots.entries e.plot) (tuples_of-perm shuffle permutes e)
          (All-mono (λ t. plots.get e.plot t.0 ≡ some t.1) (λ t. t.1 < e.next_address)
            (λ t h. v.exists t.0 t.1 h) (plots.entries e.plot) (laws.entries-get e.plot)))

  recycle_all-Safe : (e : Engine P L M) → Safe tunable e (recycle_all shuffle e).0
  recycle_all-Safe e v =
      let f : Engine P L M = record e { recycle_tick = false } in
      rw (recycle_all_eq shuffle e) (
        Safe-trans tunable e f _ (Framed-Safe tunable e f (aside-Framed e.debug e.stats false e))
          (requeued tunable _ f (
            All-append (λ p. p < e.next_address) e.pending (addresses (tuples_of shuffle e))
              v.known.queued (recycled_exist e v.known)))
          v)

  pub recycling-Safe : (e : Engine P L M) → Safe tunable e (recycling shuffle e).0
  unfolding recycling
  recycling-Safe e = if-Safe tunable e.recycle_held e _ _ (Safe-refl tunable e) (
      if-Safe tunable (not (get_recycling_status e) || ltb_ℤ (plots.count e.plot) (pos 1)) e _ _
        (Safe-refl tunable e)
        (if-Safe tunable e.recycle_tick e _ _ (recycle_all-Safe e) (Safe-refl tunable e)))

  module _ ⦃limiter : Limiter L⦄ where
    say-Safe : (message : Bytes) (e : Engine P L M) → Safe tunable e (say message e)
    say-Safe message e = Framed-Safe tunable e _ (aside-Framed _ e.stats e.recycle_tick e)

    delete_bad-Safe : (sock : Proxy) (e : Engine P L M) → Safe tunable e (delete_bad sock e)
    unfolding delete_bad
    delete_bad-Safe sock e =
        let f : Engine P L M =
          say (simple_string "deleting from map (too many failures): " ++ sock.endpoint) e in
        let g : Engine P L M × Bool = map_delete sock.endpoint f in
        let told : Safe tunable e g.0 =
          Safe-trans tunable e f g.0 (say-Safe _ e)
            (map_delete-Safe tunable laws sock.endpoint f) in
        elim (Bool-cases g.1) [
          | inl gone ↦ rw gone told
          | inr missing ↦ rw missing (Safe-trans tunable e g.0 _ told (say-Safe _ g.0))
        ]

    still_good_locked-Safe :
        (now : ℕ) (sock : Proxy) (e : Engine P L M)
        → Safe tunable e (still_good_locked now sock e).0
    unfolding still_good_locked
    still_good_locked-Safe now sock e =
        if-Safe tunable (too_many_failures sock e) e _ _ (delete_bad-Safe sock e) (
          if-Safe tunable (limiter.peek e.bad_prox sock.endpoint) e _ _
            (Framed-Safe tunable e _ (aside-Framed _ e.stats e.recycle_tick e))
            (if-Safe tunable (is_stale now sock e) e _ _
              (Framed-Safe tunable e _ (aside-Framed _ (count_stale e.stats) e.recycle_tick e))
              (Safe-refl tunable e)))

    pub still_good-Safe : (now p : ℕ) (e : Engine P L M) → Safe tunable e (still_good now p e).0
    unfolding still_good
    still_good-Safe now p e =
        let f : Engine P L M = set_lock p locked e in
        let g : Engine P L M = (still_good_locked now (e.heap p) f).0 in
        if-Safe tunable (is_unlocked (e.heap p).lock) e _ _
          (Safe-trans tunable e f _ (Framed-Safe tunable e f (set_lock-Framed p locked e)) (
            Safe-trans tunable f g _ (still_good_locked-Safe now (e.heap p) f)
              (Framed-Safe tunable g _ (set_lock-Framed p unlocked g))))
          (Safe-refl tunable e)

    check_drawn-Safe :
        (now p : ℕ) (e : Engine P L M) → Safe tunable e (check_drawn shuffle now (some p) e).0
    unfolding check_drawn
    check_drawn-Safe now p e =
        let f : Engine P L M = (still_good now p e).0 in
        if-Safe tunable (still_good now p e).1 e _ _
          (Safe-trans tunable e f _ (still_good-Safe now p e)
            (Framed-Safe tunable f _ (aside-Framed f.debug (dispense f.stats) f.recycle_tick f)))
          (still_good-Safe now p e)

    drawn-Safe :
        (now : ℕ) (r : Engine P L M × Option ℕ) (e : Engine P L M)
        → Safe tunable e r.0
        → Safe tunable e (check_drawn shuffle now r.1 r.0).0
    unfolding check_drawn
    drawn-Safe now (f, none) e h = Safe-trans tunable e f _ h (recycling-Safe f)
    drawn-Safe now (f, some p) e h = Safe-trans tunable e f _ h (check_drawn-Safe now p f)

    pub get_socks_round-Safe :
        (c : Channel) (now : ℕ) (e : Engine P L M)
        → Safe tunable e (get_socks_round shuffle c now e).0
    unfolding get_socks_round
    get_socks_round-Safe c now e = elim (List-cases (list_of c e.valids)) [
      | inl empty ↦ rw (empty, get_socks_round) (recycling-Safe e)
      | inr (p, rest, front) ↦
          rw (front, get_socks_round) (drawn-Safe now (dequeue c e) e (dequeue-Safe tunable c e))
    ]

    pub get_any_lists-Safe :
        (now : ℕ) (lists : List Channel) (e : Engine P L M)
        → Safe tunable e (get_any_lists shuffle now lists e).0
    unfolding get_any_lists
    get_any_lists-Safe now [] e = Safe-refl tunable e
    get_any_lists-Safe now (c ∷ lists) e = elim (Option-cases (dequeue c e).1) [
      | inl empty ↦ rw (empty, get_any_lists) (get_any_lists-Safe now lists e)
      | inr (p, front) ↦
          let f : Engine P L M = (dequeue c e).0 in
          let g : Engine P L M = (still_good now p f).0 in
          let told : Safe tunable e g =
            Safe-trans tunable e f g (dequeue-Safe tunable c e) (still_good-Safe now p f) in
          rw (front, get_any_lists)
            (if-Safe tunable (still_good now p f).1 e _ _ told
              (Safe-trans tunable e g _ told (get_any_lists-Safe now lists g)))
    ]
