-- ===== src/Validate/Attempts.antt =====
-- What the checks of the protocols do to a proxy.
use prox.Base.{ℕ, ◌≡◌, refl, ◌∙◌, Bool, true, false, pos, add64, arith}
use prox.Proxy.{Proxy, Protocol, proto_http}
use prox.Engine.{no_proxy, update, Engine, Config, Limiter}
use prox.Engine.Store.{store}
use prox.Validate.{
  Network, Attempt, unreachable, refused, working, attempt, request, bake_http, http_endpoint,
  socks_url, settle, single_proxy_check, anotha_one,
}

-- Whether a check succeeds.
abbrev pub succeeds : Attempt → Bool
succeeds (working _) = true
succeeds _ = false

-- Whether the check of a protocol succeeds.
abbrev pub works : Network → Config → Proxy → Protocol → Bool
works net opt sock protocol = succeeds (attempt net opt sock protocol)

-- A check looks at the endpoint of a proxy only.
pub attempt-endpoint :
    (net : Network) (opt : Config) (s t : Proxy) (protocol : Protocol)
    → s.endpoint ≡ t.endpoint
    → attempt net opt s protocol ≡ attempt net opt t protocol
unfolding attempt request bake_http socks_url http_endpoint
attempt-endpoint net opt s t proto_http h = rw h
attempt-endpoint net opt s t _ h = rw h

module _ {P L M : Type 0} where
  -- The checks of the proxy at `p` change it in its protocol and its outside address only, and no
  -- other proxy, list or option.
  pub record Untouched (p : ℕ) (e f : Engine P L M) : Type 0 where
    pub others : (a : ℕ) → update f.heap p no_proxy a ≡ update e.heap p no_proxy a
    pub endpoint : (f.heap p).endpoint ≡ (e.heap p).endpoint
    pub lock : (f.heap p).lock ≡ (e.heap p).lock
    pub has_parent : (f.heap p).has_parent ≡ (e.heap p).has_parent
    pub times_validated : (f.heap p).times_validated ≡ (e.heap p).times_validated
    pub times_bad : (f.heap p).times_bad ≡ (e.heap p).times_bad
    pub last_validated : (f.heap p).last_validated ≡ (e.heap p).last_validated
    pub opt : f.opt ≡ e.opt
    pub valids : f.valids ≡ e.valids
    pub pending : f.pending ≡ e.pending

  pub Untouched-trans :
      (p : ℕ) (e f g : Engine P L M) → Untouched p e f → Untouched p f g → Untouched p e g
  Untouched-trans p e f g s t = record {
    others = λ a. t.others a ∙ s.others a;
    endpoint = t.endpoint ∙ s.endpoint;
    lock = t.lock ∙ s.lock;
    has_parent = t.has_parent ∙ s.has_parent;
    times_validated = t.times_validated ∙ s.times_validated;
    times_bad = t.times_bad ∙ s.times_bad;
    last_validated = t.last_validated ∙ s.last_validated;
    opt = t.opt ∙ s.opt;
    valids = t.valids ∙ s.valids;
    pending = t.pending ∙ s.pending;
  }

  pub Untouched-refl : (p : ℕ) (e : Engine P L M) → Untouched p e e
  Untouched-refl p e = record {
    others = λ a. refl;
    endpoint = refl;
    lock = refl;
    has_parent = refl;
    times_validated = refl;
    times_bad = refl;
    last_validated = refl;
    opt = refl;
    valids = refl;
    pending = refl;
  }

module _ {P L M : Type 0} ⦃limiter : Limiter L⦄ where
  -- What one check does, by what it finds.
  pub record Settled (p : ℕ) (found : Attempt) (e : Engine P L M) (r : Engine P L M × Bool)
      : Type 0 where
    pub frame : Untouched p e r.0
    pub result : r.1 ≡ succeeds found
    pub protocol : (r.0.heap p).protocol ≡ (e.heap p).protocol
    pub checked : r.0.stats.checked ≡ add64 e.stats.checked (pos 1)

  settle-Settled :
      (p : ℕ) (found : Attempt) (e : Engine P L M) → Settled p found e (settle p found e)
  unfolding settle store anotha_one
  settle-Settled p unreachable e = record {
    frame = record {
      others = λ a. refl;
      endpoint = refl;
      lock = refl;
      has_parent = refl;
      times_validated = refl;
      times_bad = refl;
      last_validated = refl;
      opt = refl;
      valids = refl;
      pending = refl;
    };
    result = refl;
    protocol = refl;
    checked = refl;
  }
  settle-Settled p refused e = record {
    frame = record {
      others = λ a. refl;
      endpoint = refl;
      lock = refl;
      has_parent = refl;
      times_validated = refl;
      times_bad = refl;
      last_validated = refl;
      opt = refl;
      valids = refl;
      pending = refl;
    };
    result = refl;
    protocol = refl;
    checked = refl;
  }
  settle-Settled p (working body) e = record {
    frame = record {
      others = λ a. ground arith;
      endpoint = ground arith;
      lock = ground arith;
      has_parent = ground arith;
      times_validated = ground arith;
      times_bad = ground arith;
      last_validated = ground arith;
      opt = refl;
      valids = refl;
      pending = refl;
    };
    result = refl;
    protocol = ground arith;
    checked = refl;
  }

  pub single_proxy_check-Settled :
      (net : Network) (p : ℕ) (protocol : Protocol) (e : Engine P L M)
      → Settled p (attempt net e.opt (e.heap p) protocol) e (single_proxy_check net p protocol e)
  unfolding single_proxy_check
  single_proxy_check-Settled net p protocol e =
      settle-Settled p (attempt net e.opt (e.heap p) protocol) e
