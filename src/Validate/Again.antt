-- ===== src/Validate/Again.antt =====
-- A later validation of a proxy whose protocol is known.
use prox.Base.{
  ℕ, ◌≡◌, refl, ap, ◌∙◌, sym, subst, Bool, true, false, List, some, pos, add64, arith, eqb_ℤ,
  if◌then◌else◌,
}
use prox.Proxy.{Protocol, is_null, get, get_proto, unlocked, locked, unique_key}
use prox.Engine.{Engine, Limiter}
use prox.Engine.Store.{store, set_lock}
use prox.Validate.{
  Network, single_proxy_check, conclude, check_protocols, validate_locked, validate, mark_bad, bad,
}
use prox.Validate.Attempts.{works, single_proxy_check-Settled}
use prox.Validate.Verdict.{Verdict, SameCounts, Verdict-before, Verdict-after, conclude-Verdict}
use prox.Validate.Fresh.{
  ready, locked-alive, locked-allowed, locked_sound, validate_locked-allowed, ready-SameCounts,
  ready-protocol, set_lock-SameCounts, set_lock-protocol, Untouched-SameCounts, works-ready,
}

module _ {P L M : Type 0} ⦃limiter : Limiter L⦄ where
  -- A proxy that was verified before, and that nothing stops the check of.
  pub record Returns (p : ℕ) (e : Engine P L M) : Type 0 where
    pub parent : (e.heap p).has_parent ≡ true
    pub unheld : (e.heap p).lock ≡ unlocked
    pub alive : e.ctx_done ≡ false
    pub allowed : (limiter.check e.use_prox (unique_key (e.heap p))).1 ≡ false
    pub sound : limiter.peek e.bad_prox (unique_key (e.heap p)) ≡ false
    pub known : is_null (get (e.heap p).protocol) ≡ false
    pub before : eqb_ℤ (e.heap p).times_validated (pos 0) ≡ false

  -- A proxy that fails its check keeps its protocol.
  pub record Failed (p : ℕ) (e f : Engine P L M) : Type 0 where
    pub protocol : (f.heap p).protocol ≡ (e.heap p).protocol
    pub times_validated : (f.heap p).times_validated ≡ (e.heap p).times_validated
    pub times_bad : (f.heap p).times_bad ≡ add64 (e.heap p).times_bad (pos 1)
    pub last_validated : (f.heap p).last_validated ≡ (e.heap p).last_validated
    pub valids : f.valids ≡ e.valids

  mark_bad-Failed : (p : ℕ) (e : Engine P L M) → Failed p e (mark_bad p e)
  unfolding store bad
  mark_bad-Failed p e = record {
    protocol = ground arith;
    times_validated = ground arith;
    times_bad = ground arith;
    last_validated = ground arith;
    valids = refl;
  }

  Failed-before :
      (p : ℕ) (e e' f : Engine P L M)
      → (e'.heap p).protocol ≡ (e.heap p).protocol
      → SameCounts p e e'
      → Failed p e' f
      → Failed p e f
  Failed-before p e e' f h s v = record {
    protocol = v.protocol ∙ h;
    times_validated = v.times_validated ∙ s.times_validated;
    times_bad = v.times_bad ∙ ap (λ n. add64 n (pos 1)) s.times_bad;
    last_validated = v.last_validated ∙ s.last_validated;
    valids = v.valids ∙ s.valids;
  }

  Failed-after :
      (p : ℕ) (e f f' : Engine P L M)
      → (f'.heap p).protocol ≡ (f.heap p).protocol
      → SameCounts p f f'
      → Failed p e f
      → Failed p e f'
  Failed-after p e f f' h s v = record {
    protocol = h ∙ v.protocol;
    times_validated = s.times_validated ∙ v.times_validated;
    times_bad = s.times_bad ∙ v.times_bad;
    last_validated = s.last_validated ∙ v.last_validated;
    valids = s.valids ∙ v.valids;
  }

  -- The verdict on a proxy that was checked for its own protocol.
  pub Recheck : ℕ → ℕ → Bool → Engine P L M → Engine P L M → Type 0
  Recheck now p true e f = Verdict now p (get (e.heap p).protocol) e f
  Recheck now p false e f = Failed p e f

  -- The engine after the check, by its result.
  concluded : ℕ → ℕ → Engine P L M × Bool → Engine P L M
  concluded now p (e, true) = conclude now p e
  concluded now p (e, false) = mark_bad p e

  concluded_eq :
      (now p : ℕ) (r : Engine P L M × Bool)
      → (if r.1 then conclude now p r.0 else mark_bad p r.0) ≡ concluded now p r
  unfolding concluded
  concluded_eq now p (e, true) = refl
  concluded_eq now p (e, false) = refl

  check_protocols-again :
      (net : Network) (order : List Protocol) (now p : ℕ) (e : Engine P L M)
      → is_null (get (e.heap p).protocol) ≡ false
      → eqb_ℤ (e.heap p).times_validated (pos 0) ≡ false
      → check_protocols net (λ _. false) order now p e
        ≡ concluded now p (single_proxy_check net p (get_proto (e.heap p)) e)
  unfolding check_protocols
  check_protocols-again net order now p e known before =
      rw (known, before) (concluded_eq now p (single_proxy_check net p (get_proto (e.heap p)) e))

  -- The check of the proxy's own protocol.
  checked : Network → ℕ → Engine P L M → Engine P L M × Bool
  checked net p e = single_proxy_check net p (get_proto ((ready p e).heap p)) (ready p e)

  validate-Returns :
      (net : Network) (order : List Protocol) (now p : ℕ) (e : Engine P L M)
      → Returns p e
      → validate net (λ _. false) order now (some p) e
        ≡ set_lock p unlocked (concluded now p (checked net p e))
  unfolding validate ready checked
  validate-Returns net order now p e h =
      let inner : validate_locked net (λ _. false) order now p (set_lock p locked e)
          ≡ concluded now p (checked net p e) =
        validate_locked-allowed net order now p (set_lock p locked e) (locked-alive p e ∙ h.alive)
          (ap (λ r. r.1) (locked-allowed p e) ∙ h.allowed) (locked_sound p e ∙ h.sound)
        ∙ check_protocols-again net order now p (ready p e)
            (ap (λ x. is_null (get x)) (ready-protocol p e) ∙ h.known)
            (ap (λ n. eqb_ℤ n (pos 0)) (ready-SameCounts p e).times_validated ∙ h.before) in
      rw (h.parent, h.unheld, inner)

  concluded-Recheck :
      (now p : ℕ) (e : Engine P L M) (r : Engine P L M × Bool)
      → SameCounts p e r.0
      → (r.0.heap p).protocol ≡ (e.heap p).protocol
      → Recheck now p r.1 e (concluded now p r)
  unfolding Recheck concluded
  concluded-Recheck now p e (f, true) s h =
      Verdict-before now p (get (e.heap p).protocol) e f _ s
        (conclude-Verdict now p f (get (e.heap p).protocol) (ap get h))
  concluded-Recheck now p e (f, false) s h = Failed-before p e f _ h s (mark_bad-Failed p f)

  Recheck-around :
      (now p : ℕ) (b : Bool) (e e' f : Engine P L M)
      → (e'.heap p).protocol ≡ (e.heap p).protocol
      → SameCounts p e e'
      → Recheck now p b e' f
      → Recheck now p b e (set_lock p unlocked f)
  unfolding Recheck
  Recheck-around now p true e e' f h s v =
      let q : Protocol = get (e.heap p).protocol in
      Verdict-after now p q e f _ (set_lock-protocol p unlocked f)
        (set_lock-SameCounts p unlocked f)
        (Verdict-before now p q e e' f s (subst (λ x. Verdict now p (get x) e' f) h v))
  Recheck-around now p false e e' f h s v =
      Failed-after p e f _ (set_lock-protocol p unlocked f) (set_lock-SameCounts p unlocked f)
        (Failed-before p e e' f h s v)

  checked_result :
      (net : Network) (p : ℕ) (e : Engine P L M)
      → (checked net p e).1 ≡ works net e.opt (e.heap p) (get_proto (e.heap p))
  unfolding checked get_proto
  checked_result net p e =
      (single_proxy_check-Settled net p (get_proto ((ready p e).heap p)) (ready p e)).result
      ∙ ap (works net (ready p e).opt ((ready p e).heap p)) (ap get (ready-protocol p e))
      ∙ ap (λ w. w (get_proto (e.heap p))) (works-ready net p e)

  -- A proxy that was verified before, and that nothing stops the check of, is checked for its own
  -- protocol only. If that succeeds, it is verified again: one more validation, this time as its last,
  -- and it goes to the end of the list for its protocol. If not, it is counted bad once more and keeps
  -- its protocol, and no list changes.
  pub validate_again_lem :
      (net : Network) (order : List Protocol) (now p : ℕ) (e : Engine P L M)
      → Returns p e
      → Recheck now p
          (works net e.opt (e.heap p) (get_proto (e.heap p)))
          e
          (validate net (λ _. false) order now (some p) e)
  unfolding checked
  validate_again_lem net order now p e h =
      let r : Engine P L M × Bool = checked net p e in
      let s = single_proxy_check-Settled net p (get_proto ((ready p e).heap p)) (ready p e) in
      subst (Recheck now p _ e) (sym (validate-Returns net order now p e h)) (
        subst (λ b. Recheck now p b e (set_lock p unlocked (concluded now p r)))
          (checked_result net p e)
          (Recheck-around now p r.1 e (ready p e) _ (ready-protocol p e) (ready-SameCounts p e) (
            concluded-Recheck now p (ready p e) r (Untouched-SameCounts p _ _ s.frame) s.protocol)))
