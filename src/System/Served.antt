-- ===== src/System/Served.antt =====
-- From a line to a proxy that is handed out.
use prox.Base.{
  ℕ, ◌≡◌, refl, ap, ◌∙◌, subst, false, List, [], ◌∷◌, ◌++◌, none, some, pos, inl, inr, arith, ltb_ℤ,
}
use prox.Text.{Bytes}
use prox.Proxy.{Protocol, proto_null, locked, unlocked}
use prox.Engine.{Engine, Limiter, Plot}
use prox.Engine.Counters.{since}
use prox.Engine.Lists.{Channel, channel_of, list_of, enqueue}
use prox.Engine.Store.{store, set_lock, update_self}
use prox.Daemons.{map_add, new_proxy}
use prox.Daemons.MapLaws.{PlotLaws, or_value}
use prox.Load.{load_single_proxy}
use prox.Load.Outcome.{load_single_proxy_eq, load_single_proxy_lem}
use prox.Dispense.{out, get_socks_round}
use prox.Dispense.Policy.{IsGood}
use prox.Dispense.Draws.{get_socks_round_lem, list_of-with_list}
use prox.Validate.{Network, validate, conclude, tally, good, bad}
use prox.Validate.Attempts.{works}
use prox.Validate.Walks.{first_success}
use prox.Validate.Loop.{try_protocols-Walked}
use prox.Validate.Verdict.{Verdict, Verified, pushed}
use prox.Validate.Fresh.{Passes, chosen, ready, validate-Passes, validate_lem, set_lock-endpoint}
use prox.Validate.Lock.{validate-lock}

module _ {P L M : Type 0} ⦃limiter : Limiter L⦄ where
  Verdict-Verified :
      (now p : ℕ) (q : Protocol) (c : Channel) (e f : Engine P L M)
      → channel_of q ≡ some c
      → Verdict now p q e f
      → Verified now p q e f
  unfolding Verdict
  Verdict-Verified now p proto_null c e f h v = absurd (cc h)
  Verdict-Verified now p q c e f h v = v

  conclude-opt : (now p : ℕ) (e : Engine P L M) → (conclude now p e).opt ≡ e.opt
  unfolding conclude tally store enqueue
  conclude-opt now p e = ground arith

  conclude-endpoint :
      (now p : ℕ) (e : Engine P L M) → ((conclude now p e).heap p).endpoint ≡ (e.heap p).endpoint
  unfolding conclude tally store enqueue good bad
  conclude-endpoint now p e = ground arith

  validate-opt :
      (net : Network) (order : List Protocol) (now p : ℕ) (e : Engine P L M)
      → Passes p e
      → (validate net (λ _. false) order now (some p) e).opt ≡ e.opt
  unfolding set_lock store ready
  validate-opt net order now p e h =
      ap (λ f. f.opt) (validate-Passes net order now p e h)
      ∙ conclude-opt now p _
      ∙ (try_protocols-Walked net p order (ready p e)).frame.opt

  validate-endpoint :
      (net : Network) (order : List Protocol) (now p : ℕ) (e : Engine P L M)
      → Passes p e
      → ((validate net (λ _. false) order now (some p) e).heap p).endpoint ≡ (e.heap p).endpoint
  validate-endpoint net order now p e h =
      ap (λ f. (f.heap p).endpoint) (validate-Passes net order now p e h)
      ∙ set_lock-endpoint p unlocked _
      ∙ conclude-endpoint now p _
      ∙ (try_protocols-Walked net p order (ready p e)).frame.endpoint
      ∙ (unfold ready in set_lock-endpoint p locked e)

  -- Where a proxy that was just verified stands.
  record Listed (now p : ℕ) (c : Channel) (e f : Engine P L M) : Type 0 where
    front : list_of c f.valids ≡ list_of c e.valids ++ (p ∷ [])
    endpoint : (f.heap p).endpoint ≡ (e.heap p).endpoint
    lock : (f.heap p).lock ≡ unlocked
    times_bad : (f.heap p).times_bad ≡ (e.heap p).times_bad
    last_validated : (f.heap p).last_validated ≡ now
    opt : f.opt ≡ e.opt

  validate-Listed :
      (net : Network) (order : List Protocol) (now p : ℕ) (e : Engine P L M) (q : Protocol)
      (c : Channel)
      → Passes p e
      → first_success (works net e.opt (e.heap p)) order ≡ some q
      → channel_of q ≡ some c
      → Listed now p c e (validate net (λ _. false) order now (some p) e)
  validate-Listed net order now p e q c h first known =
      let f : Engine P L M = validate net (λ _. false) order now (some p) e in
      let v : Verified now p q e f =
        Verdict-Verified now p q c e f known
          (subst (λ o. Verdict now p (chosen o) e f) first (validate_lem net order now p e h)) in
      record {
        front =
            ap (list_of c) (v.queued ∙ ap (λ o. pushed o p e.valids) known)
            ∙ list_of-with_list c (list_of c e.valids ++ (p ∷ [])) e.valids;
        endpoint = validate-endpoint net order now p e h;
        lock = validate-lock net (λ _. false) order now p e ∙ h.unheld;
        times_bad = v.times_bad;
        last_validated = v.last_validated;
        opt = validate-opt net order now p e h;
      }

  -- A line that is new to the engine, and that nothing stops.
  pub record IsWelcome (sock : Bytes) (e : Engine P L M) : Type 0 where
    pub alive : e.ctx_done ≡ false
    pub allowed : (limiter.check e.use_prox sock).1 ≡ false
    pub sound : limiter.peek e.bad_prox sock ≡ false
    pub tolerant : ltb_ℤ e.opt.remove_after (pos 0) ≡ false

module _ {P L M : Type 0} ⦃limiter : Limiter L⦄ ⦃plots : Plot M⦄ where
  -- The engine once a line is loaded and its proxy is checked.
  abbrev pub loaded_and_checked : Network → List Protocol → ℕ → Bytes → Engine P L M → Engine P L M
  loaded_and_checked net order now sock e =
      validate net (λ _. false) order now (some e.next_address) (load_single_proxy sock e).0

module _ {P L M : Type 0} ⦃limiter : Limiter L⦄ ⦃plots : Plot M⦄ (laws : PlotLaws plots) where
  loaded_proxy :
      (sock : Bytes) (e : Engine P L M)
      → (load_single_proxy sock e).0.heap e.next_address ≡ new_proxy sock
  unfolding map_add
  loaded_proxy sock e = rw (load_single_proxy_eq laws sock e) (update_self e.heap e.next_address _)

  loaded-Passes :
      (sock : Bytes) (e : Engine P L M)
      → IsWelcome sock e
      → Passes e.next_address (load_single_proxy sock e).0
  unfolding map_add new_proxy
  loaded-Passes sock e w = record {
    parent = ap (λ s. s.has_parent) (loaded_proxy sock e);
    unheld = ap (λ s. s.lock) (loaded_proxy sock e);
    alive = rw (load_single_proxy_eq laws sock e) w.alive;
    allowed = rw (loaded_proxy sock e) (rw (load_single_proxy_eq laws sock e) w.allowed);
    sound = rw (loaded_proxy sock e) (rw (load_single_proxy_eq laws sock e) w.sound);
    unset = ap (λ s. s.protocol) (loaded_proxy sock e);
    fresh = ap (λ s. s.times_validated) (loaded_proxy sock e);
  }

  Listed-IsGood :
      (now later p : ℕ) (c : Channel) (e f : Engine P L M)
      → Listed now p c e f
      → (e.heap p).times_bad ≡ pos 0
      → ltb_ℤ e.opt.remove_after (pos 0) ≡ false
      → ltb_ℤ e.opt.stale (since later now) ≡ false
      → limiter.peek f.bad_prox (f.heap p).endpoint ≡ false
      → IsGood later p f
  Listed-IsGood now later p c e f s none_bad tolerant recent calm = record {
    free = s.lock;
    reliable = inr (inr (rw (s.times_bad, none_bad, s.opt) (ground arith)));
    calm = calm;
    recent = rw (s.opt, s.last_validated) (ground arith);
  }

  loaded_opt : (sock : Bytes) (e : Engine P L M) → (load_single_proxy sock e).0.opt ≡ e.opt
  unfolding map_add
  loaded_opt sock e = rw (load_single_proxy_eq laws sock e) refl

  loaded_valids : (sock : Bytes) (e : Engine P L M) → (load_single_proxy sock e).0.valids ≡ e.valids
  unfolding map_add
  loaded_valids sock e = rw (load_single_proxy_eq laws sock e) refl

  loaded-Listed :
      (net : Network) (order : List Protocol) (now : ℕ) (sock : Bytes) (e : Engine P L M)
      (q : Protocol) (c : Channel)
      → IsWelcome sock e
      → first_success (works net e.opt (new_proxy sock)) order ≡ some q
      → channel_of q ≡ some c
      → Listed now e.next_address c
          (load_single_proxy sock e).0
          (loaded_and_checked net order now sock e)
  loaded-Listed net order now sock e q c w first known =
      let l : Engine P L M = (load_single_proxy sock e).0 in
      validate-Listed net order now e.next_address l q c (loaded-Passes sock e w)
        (rw (loaded_opt sock e, loaded_proxy sock e) first) known

  -- A line that is new to the engine is handed out in the end: loading it puts a proxy at the end of
  -- Pending; once that proxy is checked, and `q` is the first protocol in the order whose check
  -- succeeds, a round of getSocksStr for that protocol hands out the line itself, if no other proxy was
  -- on its list, none of the limiters stops it, and it is asked for before the proxy is stale.
  pub served :
      (shuffle : List (Bytes × ℕ) → List (Bytes × ℕ)) (net : Network) (order : List Protocol)
      (now later : ℕ) (sock : Bytes) (e : Engine P L M) (q : Protocol) (c : Channel)
      → plots.get e.plot sock ≡ none
      → IsWelcome sock e
      → first_success (works net e.opt (new_proxy sock)) order ≡ some q
      → channel_of q ≡ some c
      → list_of c e.valids ≡ []
      → limiter.peek (loaded_and_checked net order now sock e).bad_prox sock ≡ false
      → ltb_ℤ e.opt.stale (since later now) ≡ false
      → ((load_single_proxy sock e).0.pending ≡ e.pending ++ (e.next_address ∷ []))
        × ((get_socks_round shuffle c later (loaded_and_checked net order now sock e)).1 ≡ out sock)
  unfolding new_proxy
  served shuffle net order now later sock e q c unknown w first known empty calm recent =
      let p : ℕ = e.next_address in
      let l : Engine P L M = (load_single_proxy sock e).0 in
      let f : Engine P L M = loaded_and_checked net order now sock e in
      let s : Listed now p c l f = loaded-Listed net order now sock e q c w first known in
      let named : (f.heap p).endpoint ≡ sock =
        s.endpoint ∙ ap (λ x. x.endpoint) (loaded_proxy sock e) in
      let alone : list_of c f.valids ≡ p ∷ [] =
        s.front
        ∙ ap (λ v. list_of c v ++ (p ∷ [])) (loaded_valids sock e)
        ∙ ap (λ r. r ++ (p ∷ [])) empty in
      let well : IsGood later p f =
        Listed-IsGood now later p c l f s (ap (λ x. x.times_bad) (loaded_proxy sock e))
          (rw (loaded_opt sock e) w.tolerant) (rw (loaded_opt sock e) recent) (rw named calm) in
      (
        (load_single_proxy_lem laws sock sock e).1
            ∙ ap (λ o. e.pending ++ (or_value o p ∷ [])) unknown,
        elim (get_socks_round_lem shuffle c later p [] f alone).1 [
          | inl (_, given, _) ↦ given ∙ ap out named
          | inr (ill, _, _) ↦ absurd (ill well)
        ],
      )
