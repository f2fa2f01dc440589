-- ===== src/System/Checks.antt =====
-- A validation keeps the invariant.
use prox.Base.{
  ℕ, ◌<◌, ◌≡◌, refl, ap, sym, Bool, true, false, not, ◌||◌, List, [], ◌∷◌, some, inl, arith,
  if◌then◌else◌, pos, eqb_ℤ,
}
use prox.Proxy.{
  Protocol, proto_null, proto_socks4, proto_socks4a, proto_socks5, proto_http, is_null, get,
  get_proto, locked, unlocked, is_unlocked, unique_key,
}
use prox.Text.{Bytes}
use prox.Debug.{Debug}
use prox.Scaler.{Ants}
use prox.Scaler.Bounds.{IsTunable}
use prox.Engine.{Engine, Limiter, Plot, Statistics}
use prox.Engine.Counters.{v4, v4a, v5, http}
use prox.Engine.Lists.{Channel, channel_of, enqueue}
use prox.Engine.Lists
use prox.Engine.Store.{store, set_lock}
use prox.Validate.{
  note_protocol, Network, Attempt, unreachable, refused, working, attempt, settle,
  single_proxy_check, try_protocols, tally, conclude, mark_bad, check_protocols, validate_locked,
  validate, bad, good, anotha_one,
}
use prox.System.{Internet, Spoke}
use prox.System.Found.{set-Found}
use prox.System.Sound.{
  Framed, Framed-refl, Framed-trans, store-Framed, set_lock-Framed, aside-Framed, limits-Framed,
  if-Framed, Safe, Safe-trans, Safe-refl, Framed-Safe,
}
use prox.System.Queues.{enqueue-Safe}

module _ ⦃internet : Internet⦄ {P L M : Type 0} ⦃limiter : Limiter L⦄ where
  settle-Framed : (p : ℕ) (found : Attempt) (e : Engine P L M) → Framed e (settle p found e).0
  unfolding settle
  settle-Framed p unreachable e = limits-Framed e.use_prox e.bad_prox (anotha_one e.stats) e
  settle-Framed p refused e = limits-Framed e.use_prox _ (anotha_one e.stats) e
  settle-Framed p (working body) e =
      let f : Engine P L M = store p (record (e.heap p) { proxied_ip = body }) e in
      Framed-trans e f _ (store-Framed p _ e refl (inl refl))
        (limits-Framed f.use_prox f.bad_prox (anotha_one f.stats) f)

  pub single_proxy_check-Framed :
      (net : Network) (p : ℕ) (protocol : Protocol) (e : Engine P L M)
      → Framed e (single_proxy_check net p protocol e).0
  unfolding single_proxy_check
  single_proxy_check-Framed net p protocol e =
      settle-Framed p (attempt net e.opt (e.heap p) protocol) e

  -- Only a protocol that the proxy was found to speak is noted.
  pub note_protocol-Framed :
      (p : ℕ) (protocol : Protocol) (e : Engine P L M)
      → Spoke (e.heap p).endpoint protocol
      → Framed e (note_protocol p protocol e)
  note_protocol-Framed p protocol e spoke =
      store-Framed p _ e refl (set-Found (e.heap p).endpoint (e.heap p).protocol protocol spoke)

  if-note :
      (b : Bool) (p : ℕ) (protocol : Protocol) (e : Engine P L M)
      → (b ≡ true → Spoke (e.heap p).endpoint protocol)
      → Framed e (if b then note_protocol p protocol e else e)
  if-note true p protocol e spoke = note_protocol-Framed p protocol e (spoke refl)
  if-note false p protocol e spoke = Framed-refl e

  settle-answers :
      (p : ℕ) (found : Attempt) (e : Engine P L M)
      → (settle p found e).1 ≡ true
      → (body : Bytes) × (found ≡ working body)
  unfolding settle
  settle-answers p unreachable e h = absurd (cc h)
  settle-answers p refused e h = absurd (cc h)
  settle-answers p (working body) e h = (body, refl)

  -- A check that succeeds has found the proxy to speak the protocol.
  single_proxy_check-Spoke :
      (net : Network) (p : ℕ) (protocol : Protocol) (e : Engine P L M)
      → internet.shows net
      → (single_proxy_check net p protocol e).1 ≡ true
      → Spoke ((single_proxy_check net p protocol e).0.heap p).endpoint protocol
  unfolding single_proxy_check
  single_proxy_check-Spoke net p protocol e shown h =
      let found : Attempt = attempt net e.opt (e.heap p) protocol in
      let (body, answers) = settle-answers p found e h in
      record {
        net = net;
        shown = shown;
        opt = e.opt;
        sock = e.heap p;
        same = sym ((settle-Framed p found e).endpoints p);
        body = body;
        answers = answers;
      }

  try_protocols-Framed :
      (net : Network) (cancelled : Protocol → Bool) (p : ℕ) (order : List Protocol)
      (e : Engine P L M)
      → internet.shows net
      → Framed e (try_protocols net cancelled p order e).0
  unfolding try_protocols
  try_protocols-Framed net cancelled p [] e shown = Framed-refl e
  try_protocols-Framed net cancelled p (protocol ∷ rest) e shown =
      let f : Engine P L M = (single_proxy_check net p protocol e).0 in
      if-Framed (is_null protocol) e _ _ (try_protocols-Framed net cancelled p rest e shown) (
        if-Framed (cancelled protocol) e _ _ (Framed-refl e) (
          Framed-trans e f _ (single_proxy_check-Framed net p protocol e) (
            Framed-trans f _ _
              (if-note (single_proxy_check net p protocol e).1 p protocol f
                (single_proxy_check-Spoke net p protocol e shown))
              (try_protocols-Framed net cancelled p rest _ shown))))

  pub mark_bad-Framed : (p : ℕ) (e : Engine P L M) → Framed e (mark_bad p e)
  unfolding bad
  mark_bad-Framed p e =
      let f : Engine P L M = store p (bad (e.heap p)) e in
      Framed-trans e f _ (store-Framed p (bad (e.heap p)) e refl (inl refl))
        (limits-Framed f.use_prox _ f.stats f)

module _ ⦃internet : Internet⦄ {P L M : Type 0} ⦃ants : Ants P⦄ ⦃limiter : Limiter L⦄
    ⦃plots : Plot M⦄ (tunable : IsTunable ants) where
  counted-Safe :
      (s : Statistics) (c : Channel) (p : ℕ) (e : Engine P L M)
      → p < e.next_address
      → channel_of (e.heap p).protocol.value ≡ some c
      → Safe tunable e (enqueue c p (record e { stats = s }))
  counted-Safe s c p e old h =
      let f : Engine P L M = record e { stats = s } in
      Safe-trans tunable e f _ (Framed-Safe tunable e f (aside-Framed e.debug s e.recycle_tick e))
        (enqueue-Safe tunable c p f (old, h))

  tally-Safe :
      (p : ℕ) (q : Protocol) (e : Engine P L M)
      → p < e.next_address
      → (e.heap p).protocol.value ≡ q
      → Safe tunable e (tally p e).0
  unfolding tally get
  tally-Safe p proto_null e old h = rw (h, tally) (Safe-refl tunable e)
  tally-Safe p proto_socks4 e old h =
      rw (h, tally) (counted-Safe (v4 e.stats) Lists.socks4 p e old (ap channel_of h))
  tally-Safe p proto_socks4a e old h =
      rw (h, tally) (counted-Safe (v4a e.stats) Lists.socks4a p e old (ap channel_of h))
  tally-Safe p proto_socks5 e old h =
      rw (h, tally) (counted-Safe (v5 e.stats) Lists.socks5 p e old (ap channel_of h))
  tally-Safe p proto_http e old h =
      rw (h, tally) (counted-Safe (http e.stats) Lists.http p e old (ap channel_of h))

  if-Safe-plain :
      (b : Bool) (e x y : Engine P L M)
      → Safe tunable e x
      → Safe tunable e y
      → Safe tunable e (if b then x else y)
  if-Safe-plain true e x y h k = h
  if-Safe-plain false e x y h k = k

  told-Safe : (d : Debug) (e : Engine P L M) → Safe tunable e (record e { debug = d })
  told-Safe d e = Framed-Safe tunable e _ (aside-Framed d e.stats e.recycle_tick e)

  pub conclude-Safe :
      (now p : ℕ) (e : Engine P L M) → p < e.next_address → Safe tunable e (conclude now p e)
  unfolding conclude good store
  conclude-Safe now p e old =
      if-Safe-plain (is_null (get (e.heap p).protocol)) e _ _
        (Safe-trans tunable e _ _ (told-Safe _ e) (Framed-Safe tunable _ _ (mark_bad-Framed p _)))
        (let f : Engine P L M = record e { debug = _ } in
          let g : Engine P L M = store p (good now (e.heap p)) f in
          Safe-trans tunable e f _ (told-Safe _ e) (
            Safe-trans tunable f g _
              (Framed-Safe tunable f g (store-Framed p (good now (e.heap p)) f refl (inl refl)))
              (tally-Safe p _ g old refl)))

  check_protocols-Safe :
      (net : Network) (cancelled : Protocol → Bool) (order : List Protocol) (now p : ℕ)
      (e : Engine P L M)
      → internet.shows net
      → p < e.next_address
      → Safe tunable e (check_protocols net cancelled order now p e)
  unfolding check_protocols
  check_protocols-Safe net cancelled order now p e shown old =
      let r : Engine P L M × Bool = try_protocols net cancelled p order e in
      let s : Engine P L M × Bool = single_proxy_check net p (get_proto (e.heap p)) e in
      let tried : Framed e r.0 = try_protocols-Framed net cancelled p order e shown in
      let checked : Framed e s.0 = single_proxy_check-Framed net p (get_proto (e.heap p)) e in
      if-Safe-plain (eqb_ℤ (e.heap p).times_validated (pos 0) || is_null (get (e.heap p).protocol))
        e _ _
        (if-Safe-plain r.1 e _ _ (Framed-Safe tunable e r.0 tried) (
          Safe-trans tunable e r.0 _ (Framed-Safe tunable e r.0 tried)
            (conclude-Safe now p r.0 (omega (arith, tried.next_address)))))
        (if-Safe-plain s.1 e _ _
          (Safe-trans tunable e s.0 _ (Framed-Safe tunable e s.0 checked)
            (conclude-Safe now p s.0 (omega (arith, checked.next_address))))
          (Safe-trans tunable e s.0 _ (Framed-Safe tunable e s.0 checked)
            (Framed-Safe tunable s.0 _ (mark_bad-Framed p s.0))))

  validate_locked-Safe :
      (net : Network) (cancelled : Protocol → Bool) (order : List Protocol) (now p : ℕ)
      (e : Engine P L M)
      → internet.shows net
      → p < e.next_address
      → Safe tunable e (validate_locked net cancelled order now p e)
  unfolding validate_locked
  validate_locked-Safe net cancelled order now p e shown old =
      let f : Engine P L M = record e {
        use_prox = (limiter.check e.use_prox (unique_key (e.heap p))).0;
      } in
      let used : Safe tunable e f =
        Framed-Safe tunable e f (limits-Framed f.use_prox e.bad_prox e.stats e) in
      if-Safe-plain e.ctx_done e _ _ (Safe-refl tunable e) (
        if-Safe-plain (limiter.check e.use_prox (unique_key (e.heap p))).1 e _ _ used (
          if-Safe-plain (limiter.peek f.bad_prox (unique_key (f.heap p))) e _ _
            (Safe-trans tunable e f _ used (told-Safe _ f))
            (Safe-trans tunable e f _ used
              (check_protocols-Safe net cancelled order now p f shown old))))

  pub validate-Safe :
      (net : Network) (cancelled : Protocol → Bool) (order : List Protocol) (now p : ℕ)
      (e : Engine P L M)
      → internet.shows net
      → p < e.next_address
      → Safe tunable e (validate net cancelled order now (some p) e)
  unfolding validate
  validate-Safe net cancelled order now p e shown old =
      let f : Engine P L M = set_lock p locked e in
      let g : Engine P L M = validate_locked net cancelled order now p f in
      let taken : Framed e f = set_lock-Framed p locked e in
      if-Safe-plain (not (e.heap p).has_parent || not (is_unlocked (e.heap p).lock)) e _ _
        (Safe-refl tunable e)
        (Safe-trans tunable e f _ (Framed-Safe tunable e f taken) (
          Safe-trans tunable f g _
            (validate_locked-Safe net cancelled order now p f shown
              (omega (arith, taken.next_address)))
            (Framed-Safe tunable g _ (set_lock-Framed p unlocked g))))
