-- ===== src/Validate/Fresh.antt =====
-- The first validation of a proxy.
use prox.Base.{
  ℕ, ◌≡◌, refl, ap, ◌∙◌, sym, subst, fun_ext, true, false, List, Option, none, some, pos, arith,
}
use prox.Proxy.{
  Proto, Protocol, proto_null, set, get, unlocked, locked, unique_key, new_immutable_proto, Lock,
}
use prox.Engine.{Engine, Limiter}
use prox.Engine.Store.{store, set_lock}
use prox.Validate.{Network, try_protocols, conclude, check_protocols, validate_locked, validate}
use prox.Validate.Attempts.{succeeds, works, attempt-endpoint, Untouched}
use prox.Validate.Walks.{first_success, set_option, Walked}
use prox.Validate.Loop.{try_protocols-Walked}
use prox.Validate.Verdict.{Verdict, SameCounts, Verdict-before, Verdict-after, conclude-Verdict}

-- The protocol of the first check that succeeds, or null.
abbrev pub chosen : Option Protocol → Protocol
chosen none = proto_null
chosen (some q) = q

chosen-set_option :
    (x : Proto) (o : Option Protocol) → x ≡ new_immutable_proto → get (set_option x o) ≡ chosen o
unfolding get set new_immutable_proto
chosen-set_option x none h = ap (λ p. p.value) h
chosen-set_option x (some q) h = rw h

module _ {P L M : Type 0} ⦃limiter : Limiter L⦄ where
  pub set_lock-SameCounts : (p : ℕ) (l : Lock) (e : Engine P L M) → SameCounts p e (set_lock p l e)
  unfolding set_lock store
  set_lock-SameCounts p l e = record {
    times_validated = ground arith;
    times_bad = ground arith;
    last_validated = ground arith;
    valids = refl;
  }

  pub set_lock-protocol :
      (p : ℕ) (l : Lock) (e : Engine P L M)
      → ((set_lock p l e).heap p).protocol ≡ (e.heap p).protocol
  unfolding set_lock store
  set_lock-protocol p l e = ground arith

  -- A proxy that nothing stops the checks of: it is unlocked, was never checked, and is not limited,
  -- in an engine that was not closed.
  pub record Passes (p : ℕ) (e : Engine P L M) : Type 0 where
    pub parent : (e.heap p).has_parent ≡ true
    pub unheld : (e.heap p).lock ≡ unlocked
    pub alive : e.ctx_done ≡ false
    pub allowed : (limiter.check e.use_prox (unique_key (e.heap p))).1 ≡ false
    pub sound : limiter.peek e.bad_prox (unique_key (e.heap p)) ≡ false
    pub unset : (e.heap p).protocol ≡ new_immutable_proto
    pub fresh : (e.heap p).times_validated ≡ pos 0

  -- The engine at the first check.
  unfoldable pub ready : ℕ → Engine P L M → Engine P L M
  ready p e =
      let f : Engine P L M = set_lock p locked e in
      record f { use_prox = (limiter.check f.use_prox (unique_key (f.heap p))).0 }

  check_protocols-fresh :
      (net : Network) (order : List Protocol) (now p : ℕ) (f : Engine P L M)
      → (f.heap p).times_validated ≡ pos 0
      → check_protocols net (λ _. false) order now p f
        ≡ conclude now p (try_protocols net (λ _. false) p order f).0
  unfolding check_protocols
  check_protocols-fresh net order now p f h = rw (h, (try_protocols-Walked net p order f).returned)

  pub validate_locked-allowed :
      (net : Network) (order : List Protocol) (now p : ℕ) (f : Engine P L M)
      → f.ctx_done ≡ false
      → (limiter.check f.use_prox (unique_key (f.heap p))).1 ≡ false
      → limiter.peek f.bad_prox (unique_key (f.heap p)) ≡ false
      → validate_locked net (λ _. false) order now p f
        ≡ check_protocols net
            (λ _. false)
            order
            now
            p
            (record f { use_prox = (limiter.check f.use_prox (unique_key (f.heap p))).0 })
  unfolding validate_locked
  validate_locked-allowed net order now p f alive allowed sound = rw (alive, allowed, sound)

  pub set_lock-endpoint :
      (p : ℕ) (l : Lock) (e : Engine P L M)
      → ((set_lock p l e).heap p).endpoint ≡ (e.heap p).endpoint
  unfolding set_lock store
  set_lock-endpoint p l e = ground arith

  pub locked-alive : (p : ℕ) (e : Engine P L M) → (set_lock p locked e).ctx_done ≡ e.ctx_done
  unfolding set_lock store
  locked-alive p e = refl

  pub locked-allowed :
      (p : ℕ) (e : Engine P L M)
      → limiter.check (set_lock p locked e).use_prox ((set_lock p locked e).heap p).endpoint
        ≡ limiter.check e.use_prox (e.heap p).endpoint
  unfolding set_lock store
  locked-allowed p e = ap (limiter.check e.use_prox) (set_lock-endpoint p locked e)

  pub locked_sound :
      (p : ℕ) (e : Engine P L M)
      → limiter.peek (set_lock p locked e).bad_prox ((set_lock p locked e).heap p).endpoint
        ≡ limiter.peek e.bad_prox (e.heap p).endpoint
  unfolding set_lock store
  locked_sound p e = ap (limiter.peek e.bad_prox) (set_lock-endpoint p locked e)

  pub validate-Passes :
      (net : Network) (order : List Protocol) (now p : ℕ) (e : Engine P L M)
      → Passes p e
      → validate net (λ _. false) order now (some p) e
        ≡ set_lock p unlocked
            (conclude now p (try_protocols net (λ _. false) p order (ready p e)).0)
  unfolding validate ready
  validate-Passes net order now p e h =
      let inner : validate_locked net (λ _. false) order now p (set_lock p locked e)
          ≡ conclude now p (try_protocols net (λ _. false) p order (ready p e)).0 =
        validate_locked-allowed net order now p (set_lock p locked e) (locked-alive p e ∙ h.alive)
          (ap (λ r. r.1) (locked-allowed p e) ∙ h.allowed) (locked_sound p e ∙ h.sound)
        ∙ check_protocols-fresh net order now p (ready p e)
            ((set_lock-SameCounts p locked e).times_validated ∙ h.fresh) in
      rw (h.parent, h.unheld, inner)

  pub ready-SameCounts : (p : ℕ) (e : Engine P L M) → SameCounts p e (ready p e)
  unfolding ready
  ready-SameCounts p e = record {
    times_validated = (set_lock-SameCounts p locked e).times_validated;
    times_bad = (set_lock-SameCounts p locked e).times_bad;
    last_validated = (set_lock-SameCounts p locked e).last_validated;
    valids = (set_lock-SameCounts p locked e).valids;
  }

  pub ready-protocol :
      (p : ℕ) (e : Engine P L M) → ((ready p e).heap p).protocol ≡ (e.heap p).protocol
  unfolding ready
  ready-protocol p e = set_lock-protocol p locked e

  pub Untouched-SameCounts : (p : ℕ) (e f : Engine P L M) → Untouched p e f → SameCounts p e f
  Untouched-SameCounts p e f u = record {
    times_validated = u.times_validated;
    times_bad = u.times_bad;
    last_validated = u.last_validated;
    valids = u.valids;
  }

  pub works-ready :
      (net : Network) (p : ℕ) (e : Engine P L M)
      → works net (ready p e).opt ((ready p e).heap p) ≡ works net e.opt (e.heap p)
  unfolding ready set_lock store
  works-ready net p e =
      fun_ext (λ q. ap succeeds (attempt-endpoint net e.opt _ _ q (set_lock-endpoint p locked e)))

  -- A proxy that nothing stops the checks of is verified when one of the checks succeeds: it gets the
  -- protocol of the first one in the order that does, one more validation, this time as its last
  -- validation, and goes to the end of the list for that protocol. When none succeeds, it keeps the
  -- null protocol, it is counted bad once more, and no list changes.
  pub validate_lem :
      (net : Network) (order : List Protocol) (now p : ℕ) (e : Engine P L M)
      → Passes p e
      → Verdict now p
          (chosen (first_success (works net e.opt (e.heap p)) order))
          e
          (validate net (λ _. false) order now (some p) e)
  validate_lem net order now p e h =
      let q : Protocol = chosen (first_success (works net e.opt (e.heap p)) order) in
      let e2 : Engine P L M = (try_protocols net (λ _. false) p order (ready p e)).0 in
      let walked : Walked net p order (ready p e)
          (try_protocols net (λ _. false) p order (ready p e)) =
        try_protocols-Walked net p order (ready p e) in
      let speaks : get (e2.heap p).protocol ≡ q =
        ap get (
          walked.protocol
          ∙ ap (λ w. set_option ((ready p e).heap p).protocol (first_success w order))
              (works-ready net p e))
        ∙ chosen-set_option _ _ (ready-protocol p e ∙ h.unset) in
      subst (Verdict now p q e) (sym (validate-Passes net order now p e h)) (
        Verdict-after now p q e (conclude now p e2) _
          (set_lock-protocol p unlocked (conclude now p e2))
          (set_lock-SameCounts p unlocked (conclude now p e2))
          (Verdict-before now p q e (ready p e) _ (ready-SameCounts p e) (
            Verdict-before now p q (ready p e) e2 _ (Untouched-SameCounts p _ _ walked.frame)
              (conclude-Verdict now p e2 q speaks))))
