-- ===== src/System/Loads.antt =====
-- Loading and deleting keep the invariant.
use prox.Base.{
  ℕ, suc, ◌≡◌, refl, ap, ◌∙◌, subst, Bool, true, false, List, [], ◌∷◌, none, some, inl, inr, arith,
  ◌⊎◌, All-mono,
}
use prox.Text.{Bytes}
use prox.Scaler.{Ants}
use prox.Scaler.Bounds.{IsTunable}
use prox.Engine.{Engine, Plot}
use prox.Engine.Lists.{Channel, channel_of, list_of}
use prox.Daemons.{map_add, map_delete, map_clear, new_proxy}
use prox.Daemons.MapLaws.{PlotLaws, IsKnown, map_delete-IsKnown}
use prox.Load.{
  FileRead, failed, contents, load_single_proxy, load_filtered, load_lines, load_multi_line_string,
  load_proxy_txt, clear_socks_list, say, scan,
}
use prox.Load.Outcome.{load_single_proxy-IsKnown, load_single_proxy_eq}
use prox.Proxy.{proto_null, new_immutable_proto}
use prox.System.{Internet}
use prox.System.Sound.{Belongs, IsSound, Safe, Safe-trans, Safe-refl, if-Safe, Framed-Safe}

module _ ⦃internet : Internet⦄ {P L M : Type 0} ⦃ants : Ants P⦄ ⦃plots : Plot M⦄
    (tunable : IsTunable ants) (laws : PlotLaws plots) where
  -- What loading a line leaves alone.
  record Loaded (e f : Engine P L M) : Type 0 where
    valids : f.valids ≡ e.valids
    scaler : f.scaler ≡ e.scaler
    pool : f.pool ≡ e.pool
    next_address : f.next_address ≡ suc e.next_address
    heap : (a : ℕ) → (e.next_address ≡ a) ⊎ (f.heap a ≡ e.heap a)
    once : (f.heap e.next_address).protocol.value ≡ proto_null

  load_single_proxy-Loaded :
      (sock : Bytes) (e : Engine P L M) → Loaded e (load_single_proxy sock e).0
  unfolding map_add new_proxy new_immutable_proto
  load_single_proxy-Loaded sock e = rw (load_single_proxy_eq laws sock e) (record {
    valids = refl;
    scaler = refl;
    pool = refl;
    next_address = refl;
    heap = λ a. ground arith;
    once = ground arith;
  })

  Loaded-Belongs :
      (e f : Engine P L M) → Loaded e f → (c : Channel) (p : ℕ) → Belongs e c p → Belongs f c p
  Loaded-Belongs e f s c p (old, l) = (
    omega (arith, s.next_address),
    elim (s.heap p) [
      | inl fresh ↦ absurd (omega arith)
      | inr kept ↦ ap (λ x. channel_of x.protocol.value) kept ∙ l
    ],
  )

  load_single_proxy-Safe :
      (sock : Bytes) (e : Engine P L M) → Safe tunable e (load_single_proxy sock e).0
  load_single_proxy-Safe sock e v =
      let f : Engine P L M = (load_single_proxy sock e).0 in
      let s : Loaded e f = load_single_proxy-Loaded sock e in
      (
        record {
          known = load_single_proxy-IsKnown laws sock e v.known;
          listed = λ c. rw s.valids (
              All-mono (Belongs e c) (Belongs f c) (Loaded-Belongs e f s c) (list_of c e.valids)
                (v.listed c));
          once = λ a. elim (s.heap a) [
            | inl fresh ↦ inr (subst (λ b. (f.heap b).protocol.value ≡ proto_null) fresh s.once)
            | inr kept ↦ rw kept (v.once a)
          ];
          upright = rw s.scaler v.upright;
        },
        record {
          grows = omega (arith, s.next_address);
          keeps = λ a. elim (s.heap a) [
            | inl fresh ↦ inl (omega arith)
            | inr kept ↦ inr (inl (ap (λ x. x.protocol) kept))
          ];
        },
      )

  say-Safe : (message : Bytes) (e : Engine P L M) → Safe tunable e (say message e)
  say-Safe message e = Framed-Safe tunable e (say message e) (record {
    endpoints = λ a. refl;
    protocols = λ a. inl refl;
    next_address = refl;
    plot = refl;
    pending = refl;
    scaler = refl;
    pool = refl;
    valids = refl;
  })

  pub load_filtered-Safe :
      (line : Bytes × Bool) (e : Engine P L M) → Safe tunable e (load_filtered line e).0
  unfolding load_filtered
  load_filtered-Safe (sock, false) e = say-Safe _ e
  load_filtered-Safe (sock, true) e =
      let r : Engine P L M × Bool = load_single_proxy sock e in
      if-Safe tunable r.1 e _ _ (load_single_proxy-Safe sock e)
        (Safe-trans tunable e r.0 _ (load_single_proxy-Safe sock e) (say-Safe _ r.0))

  load_lines-Safe :
      (lines : List Bytes) (n : ℕ) (e : Engine P L M) → Safe tunable e (load_lines lines n e).0
  unfolding load_lines
  load_lines-Safe [] n e = Safe-refl tunable e
  load_lines-Safe (line ∷ rest) n e =
      let f : Engine P L M = (load_single_proxy line e).0 in
      Safe-trans tunable e f _ (load_single_proxy-Safe line e) (load_lines-Safe rest _ f)

  pub load_proxy_txt-Safe :
      (file : FileRead) (e : Engine P L M) → Safe tunable e (load_proxy_txt file e).0
  unfolding load_proxy_txt load_multi_line_string
  load_proxy_txt-Safe (failed err) e = say-Safe err e
  load_proxy_txt-Safe (contents bs none) e = load_lines-Safe (scan bs) 0 e
  load_proxy_txt-Safe (contents bs (some err)) e =
      Safe-trans tunable e (load_multi_line_string bs e).0 _ (load_lines-Safe (scan bs) 0 e)
        (say-Safe err (load_multi_line_string bs e).0)

  -- The map loses entries.
  replotted :
      (e f : Engine P L M)
      → (v : f ≡ record e { plot = f.plot }) → (IsSound tunable e → IsKnown f)
      → Safe tunable e f
  replotted e f same known v = (
    record {
      known = known v;
      listed = rw same v.listed;
      once = rw same v.once;
      upright = rw same v.upright;
    },
    record { grows = rw same (omega arith); keeps = λ a. rw same (inr (inl refl)) },
  )

  pub clear_socks_list-Safe : (e : Engine P L M) → Safe tunable e (clear_socks_list e)
  unfolding clear_socks_list map_clear
  clear_socks_list-Safe e = replotted e (clear_socks_list e) refl (λ v. record {
    exists = λ k p h. absurd (cc (h, laws.get-clear e.plot k));
    keyed = λ k p h. absurd (cc (h, laws.get-clear e.plot k));
    queued = v.known.queued;
  })

  map_delete-plot :
      (sock : Bytes) (e : Engine P L M)
      → (map_delete sock e).0 ≡ record e { plot = (map_delete sock e).0.plot }
  unfolding map_delete
  map_delete-plot sock e = ground arith

  pub map_delete-Safe : (sock : Bytes) (e : Engine P L M) → Safe tunable e (map_delete sock e).0
  map_delete-Safe sock e =
      replotted e (map_delete sock e).0 (map_delete-plot sock e)
        (λ v. map_delete-IsKnown laws sock e v.known)
