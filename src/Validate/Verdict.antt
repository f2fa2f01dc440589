-- ===== src/Validate/Verdict.antt =====
-- What the verdict of Proxy.validate does with a proxy.
use prox.Base.{[], ◌∷◌, ◌++◌, Option, none, ℕ, ◌≡◌, ap, ◌∙◌, some, pos, add64, arith}
use prox.Proxy.{Protocol, proto_null, get}
use prox.Engine.{Engine, Valids, Limiter}
use prox.Engine.Lists.{Channel, channel_of, list_of, with_list, enqueue}
use prox.Engine.Store.{store}
use prox.Validate.{bad, good, tally, conclude}

-- The lists with a proxy at the end of one of them.
abbrev pub pushed : Option Channel → ℕ → Valids → Valids
pushed none p v = v
pushed (some c) p v = with_list c (list_of c v ++ (p ∷ [])) v

module _ {P L M : Type 0} ⦃limiter : Limiter L⦄ where
  -- What the verdict on the proxy at `p` does, for the protocol it was found to speak.
  pub record Verified (now p : ℕ) (q : Protocol) (e f : Engine P L M) : Type 0 where
    pub protocol : get (f.heap p).protocol ≡ q
    pub times_validated : (f.heap p).times_validated ≡ add64 (e.heap p).times_validated (pos 1)
    pub times_bad : (f.heap p).times_bad ≡ (e.heap p).times_bad
    pub last_validated : (f.heap p).last_validated ≡ now
    pub queued : f.valids ≡ pushed (channel_of q) p e.valids

  pub record Rejected (p : ℕ) (e f : Engine P L M) : Type 0 where
    pub protocol : get (f.heap p).protocol ≡ proto_null
    pub times_validated : (f.heap p).times_validated ≡ (e.heap p).times_validated
    pub times_bad : (f.heap p).times_bad ≡ add64 (e.heap p).times_bad (pos 1)
    pub last_validated : (f.heap p).last_validated ≡ (e.heap p).last_validated
    pub valids : f.valids ≡ e.valids

  unfoldable pub Verdict : ℕ → ℕ → Protocol → Engine P L M → Engine P L M → Type 0
  Verdict now p proto_null e f = Rejected p e f
  Verdict now p q e f = Verified now p q e f

  pub conclude-Verdict :
      (now p : ℕ) (e : Engine P L M) (q : Protocol)
      → get (e.heap p).protocol ≡ q
      → Verdict now p q e (conclude now p e)
  unfolding conclude tally store good bad enqueue get Verdict
  conclude-Verdict now p e proto_null h = record {
    protocol = ground arith;
    times_validated = ground arith;
    times_bad = ground arith;
    last_validated = ground arith;
    valids = ground arith;
  }
  conclude-Verdict now p e q h = record {
    protocol = ground arith;
    times_validated = ground arith;
    times_bad = ground arith;
    last_validated = ground arith;
    queued = ground arith;
  }

  -- What the verdict reads of an engine.
  pub record SameCounts (p : ℕ) (e f : Engine P L M) : Type 0 where
    pub times_validated : (f.heap p).times_validated ≡ (e.heap p).times_validated
    pub times_bad : (f.heap p).times_bad ≡ (e.heap p).times_bad
    pub last_validated : (f.heap p).last_validated ≡ (e.heap p).last_validated
    pub valids : f.valids ≡ e.valids

  pub Verdict-before :
      (now p : ℕ) (q : Protocol) (e e' f : Engine P L M)
      → SameCounts p e e'
      → Verdict now p q e' f
      → Verdict now p q e f
  unfolding Verdict
  Verdict-before now p proto_null e e' f s v = record {
    protocol = v.protocol;
    times_validated = v.times_validated ∙ s.times_validated;
    times_bad = v.times_bad ∙ ap (λ n. add64 n (pos 1)) s.times_bad;
    last_validated = v.last_validated ∙ s.last_validated;
    valids = v.valids ∙ s.valids;
  }
  Verdict-before now p q e e' f s v = record {
    protocol = v.protocol;
    times_validated = v.times_validated ∙ ap (λ n. add64 n (pos 1)) s.times_validated;
    times_bad = v.times_bad ∙ s.times_bad;
    last_validated = v.last_validated;
    queued = v.queued ∙ ap (pushed (channel_of q) p) s.valids;
  }

  pub Verdict-after :
      (now p : ℕ) (q : Protocol) (e f f' : Engine P L M)
      → (f'.heap p).protocol ≡ (f.heap p).protocol
      → SameCounts p f f'
      → Verdict now p q e f
      → Verdict now p q e f'
  unfolding Verdict
  Verdict-after now p proto_null e f f' h s v = record {
    protocol = ap get h ∙ v.protocol;
    times_validated = s.times_validated ∙ v.times_validated;
    times_bad = s.times_bad ∙ v.times_bad;
    last_validated = s.last_validated ∙ v.last_validated;
    valids = s.valids ∙ v.valids;
  }
  Verdict-after now p q e f f' h s v = record {
    protocol = ap get h ∙ v.protocol;
    times_validated = s.times_validated ∙ v.times_validated;
    times_bad = s.times_bad ∙ v.times_bad;
    last_validated = s.last_validated ∙ v.last_validated;
    queued = s.valids ∙ v.queued;
  }
