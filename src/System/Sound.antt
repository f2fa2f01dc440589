-- ===== src/System/Sound.antt =====
-- The invariant of the engine, and the changes that keep it.
use prox.Base.{
  ℕ, Bool, ◌≤◌, ◌<◌, ◌≡◌, refl, sym, ◌∙◌, subst, true, false, some, ◌⊎◌, inl, inr, arith, All,
  All-mono, Bool-cases, ◌==◌, ==_iff, if◌then◌else◌,
}
use prox.Proxy.{Proxy, Lock}
use prox.Scaler.{Ants}
use prox.Scaler.Bounds.{IsTunable}
use prox.Scaler.Upright.{IsUpright}
use prox.Debug.{Debug}
use prox.Engine.{update, Engine, Plot, Statistics}
use prox.Engine.Lists.{Channel, channel_of, list_of}
use prox.Engine.Store.{store, set_lock}
use prox.Daemons.MapLaws.{IsKnown}
use prox.System.{Internet, Spoke}
use prox.System.Found.{
  Kept, Kept-trans, Found, IsOnce, Found-Kept, Found-trans, Found-IsOnce, listed-Kept, listed-Spoke,
}

module _ ⦃internet : Internet⦄ {P L M : Type 0} where
  -- The proxy at `p` exists and belongs on a list.
  abbrev pub Belongs : Engine P L M → Channel → ℕ → Type 0
  Belongs e c p = (p < e.next_address) × (channel_of (e.heap p).protocol.value ≡ some c)

  -- The lists, the map, Pending, the scaler and the endpoints are as before, and no protocol that was
  -- set has changed.
  pub record Framed (e f : Engine P L M) : Type 0 where
    pub endpoints : (a : ℕ) → (f.heap a).endpoint ≡ (e.heap a).endpoint
    pub protocols : (a : ℕ) → Found (e.heap a).endpoint (e.heap a).protocol (f.heap a).protocol
    pub next_address : f.next_address ≡ e.next_address
    pub plot : f.plot ≡ e.plot
    pub pending : f.pending ≡ e.pending
    pub scaler : f.scaler ≡ e.scaler
    pub pool : f.pool ≡ e.pool
    pub valids : f.valids ≡ e.valids

  -- Proxies stay, and no protocol that was set changes.
  pub record Advances (e f : Engine P L M) : Type 0 where
    pub grows : e.next_address ≤ f.next_address
    pub keeps : (a : ℕ) → (e.next_address ≤ a) ⊎ Kept (e.heap a).protocol (f.heap a).protocol

  pub Advances-trans : (e f g : Engine P L M) → Advances e f → Advances f g → Advances e g
  Advances-trans e f g s t = record {
    grows = omega (arith, s.grows, t.grows);
    keeps = λ a. elim (s.keeps a) [
      | inl new ↦ inl new
      | inr k ↦ elim (t.keeps a) [
        | inl new ↦ inl (omega (arith, s.grows))
        | inr l ↦ inr (Kept-trans (e.heap a).protocol (f.heap a).protocol (g.heap a).protocol k l)
      ]
    ];
  }

  pub Framed-trans : (e f g : Engine P L M) → Framed e f → Framed f g → Framed e g
  Framed-trans e f g s t = record {
    endpoints = λ a. t.endpoints a ∙ s.endpoints a;
    protocols = λ a.
        Found-trans (e.heap a).endpoint (e.heap a).protocol (f.heap a).protocol (g.heap a).protocol
          (s.protocols a)
          (subst (λ k. Found k (f.heap a).protocol (g.heap a).protocol) (s.endpoints a)
            (t.protocols a));
    next_address = t.next_address ∙ s.next_address;
    plot = t.plot ∙ s.plot;
    pending = t.pending ∙ s.pending;
    scaler = t.scaler ∙ s.scaler;
    pool = t.pool ∙ s.pool;
    valids = t.valids ∙ s.valids;
  }

  pub Framed-refl : (e : Engine P L M) → Framed e e
  Framed-refl e = record {
    endpoints = λ a. refl;
    protocols = λ a. inl refl;
    next_address = refl;
    plot = refl;
    pending = refl;
    scaler = refl;
    pool = refl;
    valids = refl;
  }

  -- A proxy is stored with the endpoint that it had.
  pub store-Framed :
      (p : ℕ) (sock : Proxy) (e : Engine P L M)
      → sock.endpoint ≡ (e.heap p).endpoint
      → Found (e.heap p).endpoint (e.heap p).protocol sock.protocol
      → Framed e (store p sock e)
  unfolding store
  store-Framed p sock e same kept = record {
    endpoints = λ a. ground arith;
    protocols = λ a. elim (Bool-cases (a == p)) [
      | inl here ↦
          (let at : a ≡ p = (==_iff a p).0 here in
            subst
              (λ b. Found (e.heap b).endpoint (e.heap b).protocol (update e.heap p sock b).protocol)
              (sym at) (rw ((==_iff p p).1 refl) kept))
      | inr there ↦ rw there (inl refl)
    ];
    next_address = refl;
    plot = refl;
    pending = refl;
    scaler = refl;
    pool = refl;
    valids = refl;
  }

  pub set_lock-Framed : (p : ℕ) (l : Lock) (e : Engine P L M) → Framed e (set_lock p l e)
  unfolding set_lock
  set_lock-Framed p l e = store-Framed p (record (e.heap p) { lock = l }) e refl (inl refl)

  -- Messages, counters, limiters and timers are outside the invariant.
  pub aside-Framed :
      (d : Debug) (s : Statistics) (t : Bool) (e : Engine P L M)
      → Framed e (record e { debug = d; stats = s; recycle_tick = t })
  aside-Framed d s t e = record {
    endpoints = λ a. refl;
    protocols = λ a. inl refl;
    next_address = refl;
    plot = refl;
    pending = refl;
    scaler = refl;
    pool = refl;
    valids = refl;
  }

  pub limits-Framed :
      (used bad : L) (s : Statistics) (e : Engine P L M)
      → Framed e (record e { use_prox = used; bad_prox = bad; stats = s })
  limits-Framed used bad s e = record {
    endpoints = λ a. refl;
    protocols = λ a. inl refl;
    next_address = refl;
    plot = refl;
    pending = refl;
    scaler = refl;
    pool = refl;
    valids = refl;
  }

  pub signals-Framed : (full : Bool) (e : Engine P L M) → Framed e (record e { con_killer = full })
  signals-Framed full e = record {
    endpoints = λ a. refl;
    protocols = λ a. inl refl;
    next_address = refl;
    plot = refl;
    pending = refl;
    scaler = refl;
    pool = refl;
    valids = refl;
  }

  pub if-Framed :
      {A : Type 0} (b : Bool) (e : Engine P L M) (x y : Engine P L M × A)
      → Framed e x.0
      → Framed e y.0
      → Framed e (if b then x else y).0
  if-Framed true e x y h k = h
  if-Framed false e x y h k = k

module _ ⦃internet : Internet⦄ {P L M : Type 0} ⦃ants : Ants P⦄ ⦃plots : Plot M⦄
    (tunable : IsTunable ants) where
  -- The map and Pending are made of proxies that exist; every list holds only proxies that exist and
  -- whose protocol is that of the list; a protocol is null until it is set, and then the check of it
  -- on that endpoint succeeds; and the scaler has not added a negative number of workers.
  pub record IsSound (e : Engine P L M) : Type 0 where
    pub known : IsKnown e
    pub listed : (c : Channel) → All (Belongs e c) (list_of c e.valids)
    pub once : (a : ℕ) → IsOnce (e.heap a).endpoint (e.heap a).protocol
    pub upright : IsUpright e.scaler

  -- A change that keeps the invariant and the protocols.
  abbrev pub Safe : Engine P L M → Engine P L M → Type 0
  Safe e f = IsSound e → IsSound f × Advances e f

  pub Safe-trans : (e f g : Engine P L M) → Safe e f → Safe f g → Safe e g
  Safe-trans e f g s t v = let (w, a) = s v in let (x, b) = t w in (x, Advances-trans e f g a b)

  Framed-IsKnown : (e f : Engine P L M) → Framed e f → IsKnown e → IsKnown f
  Framed-IsKnown e f s v = record {
    exists = λ k p h. rw s.next_address (v.exists k p (rw (sym s.plot) h));
    keyed = λ k p h. s.endpoints p ∙ v.keyed k p (rw (sym s.plot) h);
    queued = rw (s.next_address, s.pending) v.queued;
  }

  Framed-Belongs :
      (e f : Engine P L M)
      → Framed e f
      → IsSound e
      → (c : Channel) (p : ℕ) → Belongs e c p
      → Belongs f c p
  Framed-Belongs e f s v c p (old, l) = (
    rw s.next_address old,
    listed-Kept (e.heap p).endpoint (e.heap p).protocol (f.heap p).protocol c (v.once p)
        (Found-Kept (e.heap p).endpoint (e.heap p).protocol (f.heap p).protocol (s.protocols p)) l,
  )

  pub Framed-Safe : (e f : Engine P L M) → Framed e f → Safe e f
  Framed-Safe e f s v = (
    record {
      known = Framed-IsKnown e f s v.known;
      listed = λ c. rw s.valids (
          All-mono (Belongs e c) (Belongs f c) (Framed-Belongs e f s v c) (list_of c e.valids)
            (v.listed c));
      once = λ a.
          subst (λ k. IsOnce k (f.heap a).protocol) (sym (s.endpoints a))
            (Found-IsOnce (e.heap a).endpoint (e.heap a).protocol (f.heap a).protocol
              (s.protocols a) (v.once a));
      upright = rw s.scaler v.upright;
    },
    record {
      grows = omega (arith, s.next_address);
      keeps = λ a.
          inr (
            Found-Kept (e.heap a).endpoint (e.heap a).protocol (f.heap a).protocol (s.protocols a));
    },
  )

  -- A proxy that belongs on a list does so from then on.
  pub Advances-Belongs :
      (e f : Engine P L M)
      → IsSound e
      → Advances e f
      → (c : Channel) (p : ℕ) → Belongs e c p
      → Belongs f c p
  Advances-Belongs e f v a c p (old, l) = (
    omega (arith, old, a.grows),
    elim (a.keeps p) [
      | inl new ↦ absurd (omega (arith, old, new))
      | inr kept ↦
          listed-Kept (e.heap p).endpoint (e.heap p).protocol (f.heap p).protocol c (v.once p) kept
            l
    ],
  )

  -- A proxy that belongs on a list was found to speak its protocol.
  pub Belongs-Spoke :
      (e : Engine P L M) (c : Channel) (p : ℕ)
      → IsSound e
      → Belongs e c p
      → Spoke (e.heap p).endpoint (e.heap p).protocol.value
  Belongs-Spoke e c p v (old, l) =
      listed-Spoke (e.heap p).endpoint (e.heap p).protocol c (v.once p) l

  pub Safe-refl : (e : Engine P L M) → Safe e e
  Safe-refl e = Framed-Safe e e (Framed-refl e)

  pub if-Safe :
      {A : Type 0} (b : Bool) (e : Engine P L M) (x y : Engine P L M × A)
      → Safe e x.0
      → Safe e y.0
      → Safe e (if b then x else y).0
  if-Safe true e x y h k = h
  if-Safe false e x y h k = k
