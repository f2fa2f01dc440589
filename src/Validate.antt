-- ===== src/Validate.antt =====
-- validator_engine.go: the check of a proxy. The network answers by functions; the order in which the
-- map of protocols is walked, which Go leaves open, is an argument.
pub mod Attempts
pub mod Walks
pub mod Loop
pub mod Verdict
pub mod Fresh
pub mod Again
pub mod Lock
pub mod Headers
use prox.Base.{
  ℕ, Bool, true, false, not, ◌&&◌, ◌||◌, List, [], ◌∷◌, ◌++◌, Option, none, some, ℤ, pos, add64,
  eqb_ℤ, is_some, if◌then◌else◌,
}
use prox.Text.{Bytes, codes, same, split}
use prox.Proxy.{
  Proxy, Protocol, proto_null, proto_socks4, proto_socks4a, proto_socks5, proto_http, is_null,
  proto_string, get, set, get_proto, unlocked, locked, is_unlocked, unique_key,
}
use prox.Debug.{msg_bad_prox_rate, msg_checked}
use prox.Engine.{Engine, Config, Statistics, Limiter}
use prox.Engine.Counters.{v4, v4a, v5, http}
use prox.Engine.Options.{validation_timeout_string}
use prox.Engine.Lists.{Channel, channel_of, enqueue}
use prox.Engine.Lists
use prox.Engine.Store.{store, set_lock}

-- How a client reaches its target: as every client does, or through the dialer for a SOCKS URL.
pub data Transport : Type 0 where
  default_transport : Transport
  dial_socks : Bytes → Transport

-- The network and the libraries: net.DialTimeout on an address; whether a URL parses; the random
-- choice of an endpoint; the answer to a GET through a client, with `none` as an error; and whether
-- net.ParseIP reads a text.
pub record Network : Type 0 where
  pub dials : Bytes → Bool
  pub url_parses : Bytes → Bool
  pub choose : List Bytes → Bytes
  pub answer : Transport → Bytes → Option Bytes
  pub parses_ip : Bytes → Bool

-- The keys of `protoMap`.
abbrev pub proto_keys : List Protocol
proto_keys = proto_socks5 ∷ proto_null ∷ proto_socks4 ∷ proto_socks4a ∷ []

-- bad and good
unfoldable pub bad : Proxy → Proxy
bad sock = record sock { times_bad = add64 sock.times_bad (pos 1) }

unfoldable pub good : ℕ → Proxy → Proxy
good now sock = record sock {
  times_validated = add64 sock.times_validated (pos 1);
  last_validated = now;
}

-- anothaOne
unfoldable pub anotha_one : Statistics → Statistics
anotha_one s = record s { checked = add64 s.checked (pos 1) }

-- The URL that bakeHTTP builds.
unfoldable pub socks_url : Config → Proxy → Protocol → Bytes
socks_url opt sock protocol =
    proto_string protocol
    ++ (codes "://"
        ++ (sock.endpoint ++ (codes "/?timeout=" ++ (validation_timeout_string opt ++ codes "s"))))

-- http.Header
abbrev pub Header : Type 0
Header = List (Bytes × List Bytes)

-- The request that prepHTTP makes, and what it sets of the transport. The headers that it takes from
-- `headerPool` are not given to the request; Validate/Headers follows the pool.
pub record Prepared : Type 0 where
  pub url : Bytes
  pub header : Header
  pub disable_keep_alives : Bool
  pub insecure_skip_verify : Bool
  pub handshake_timeout : ℤ

-- prepHTTP on the endpoint that was chosen.
unfoldable pub prep_http : Network → Config → Bytes → Option Prepared
prep_http net opt target =
    if not (net.url_parses target)
    then none
    else some (record {
      url = target;
      header = [];
      disable_keep_alives = true;
      insecure_skip_verify = true;
      handshake_timeout = opt.validation_timeout;
    })

-- httpEndpoint: the URL of the proxy.
unfoldable pub http_endpoint : Network → Proxy → Option Bytes
http_endpoint net sock =
    let purl : Bytes = codes "http://" ++ sock.endpoint in
    if net.url_parses purl then some purl else none

-- bakeHTTP: how the client reaches its target, or `none` where a URL does not parse. The transport that
-- is built for an HTTP proxy is not given to the client.
unfoldable pub bake_http : Network → Config → Proxy → Protocol → Bytes → Option Transport
unfolding socks_url prep_http http_endpoint
bake_http net opt sock protocol target =
    if not (is_some (prep_http net opt target)) then none else elim protocol [
      | proto_http ↦ if is_some (http_endpoint net sock) then some default_transport else none
      | other ↦ some (dial_socks (socks_url opt sock other))
    ]

-- The answer to a GET through the client, where one was built.
abbrev pub ask : Network → Bytes → Option Transport → Option Bytes
ask net target none = none
ask net target (some transport) = net.answer transport target

-- ProxyEngine.validate: the body of the answer.
unfoldable pub request : Network → Config → Proxy → Protocol → Option Bytes
unfolding bake_http
request net opt sock protocol =
    let target : Bytes = net.choose opt.check_endpoints in
    ask net target (bake_http net opt sock protocol target)

-- handMeDown.Dial: the connection that was made before, where it is one to the address, or else that of
-- the dialer under it.
pub record Connection : Type 0 where
  pub network : Bytes
  pub remote : Bytes

unfoldable pub hand_me_down :
    Connection → (Bytes → Bytes → Option Connection) → Bytes → Bytes → Option Connection
hand_me_down conn under network addr =
    if not (same conn.network network)
    then under network addr
    else if not (same conn.remote addr)
    then under network addr
    else some conn

-- The address behind the credentials.
unfoldable pub dial_address : Bytes → Bytes
dial_address endpoint = elim (split endpoint (b'@' ∷ [])) [
  | [] ↦ []
  | only ∷ [] ↦ only
  | _ ∷ address ∷ [] ↦ address
  | first ∷ _ ∷ _ ∷ _ ↦ first
]

-- What a check of one protocol finds.
pub data Attempt : Type 0 where
  unreachable : Attempt
  refused : Attempt
  working : Bytes → Attempt

unfoldable pub attempt : Network → Config → Proxy → Protocol → Attempt
attempt net opt sock protocol =
    if not (net.dials (dial_address sock.endpoint))
    then unreachable
    else elim (request net opt sock protocol) [
      | none ↦ refused
      | some body ↦ if net.parses_ip body then working body else refused
    ]

module _ {P L M : Type 0} ⦃limiter : Limiter L⦄ where
  -- badProx.Check, whose result is not used.
  abbrev pub count_bad : Bytes → Engine P L M → Engine P L M
  count_bad key e = record e { bad_prox = (limiter.check e.bad_prox key).0 }

  abbrev pub count_check : Engine P L M → Engine P L M
  count_check e = record e { stats = anotha_one e.stats }

  unfoldable pub settle : ℕ → Attempt → Engine P L M → Engine P L M × Bool
  settle p unreachable e = (count_check e, false)
  settle p refused e = (count_check (count_bad (e.heap p).endpoint e), false)
  settle p (working body) e =
      (count_check (store p (record (e.heap p) { proxied_ip = body }) e), true)

  -- singleProxyCheck: `false` is an error.
  unfoldable pub single_proxy_check : Network → ℕ → Protocol → Engine P L M → Engine P L M × Bool
  single_proxy_check net p protocol e = settle p (attempt net e.opt (e.heap p) protocol) e

  -- The protocol of a check that succeeded is set, once.
  abbrev pub note_protocol : ℕ → Protocol → Engine P L M → Engine P L M
  note_protocol p protocol e =
      store p (record (e.heap p) { protocol = set (e.heap p).protocol protocol }) e

  -- The loop over the protocols; `cancelled` tells for which of them the context is done. The `break`
  -- ends the `select` and not the loop. The Boolean tells whether the method returns.
  unfoldable pub try_protocols :
      Network → (Protocol → Bool) → ℕ → List Protocol → Engine P L M → Engine P L M × Bool
  try_protocols net cancelled p [] e = (e, false)
  try_protocols net cancelled p (protocol ∷ rest) e =
      let (e', ok) = single_proxy_check net p protocol e in
      let known : Engine P L M = note_protocol p protocol e' in
      let skip : Engine P L M × Bool = try_protocols net cancelled p rest e in
      let next : Engine P L M × Bool =
        try_protocols net cancelled p rest (if ok then known else e') in
      if is_null protocol then skip else if cancelled protocol then (e, true) else next

  -- tally
  unfoldable pub tally : ℕ → Engine P L M → Engine P L M × Bool
  tally p e = elim (get (e.heap p).protocol) [
    | proto_socks4 ↦ (enqueue Lists.socks4 p (record e { stats = v4 e.stats }), true)
    | proto_socks4a ↦ (enqueue Lists.socks4a p (record e { stats = v4a e.stats }), true)
    | proto_socks5 ↦ (enqueue Lists.socks5 p (record e { stats = v5 e.stats }), true)
    | proto_http ↦ (enqueue Lists.http p (record e { stats = http e.stats }), true)
    | proto_null ↦ (e, false)
  ]

  abbrev pub mark_bad : ℕ → Engine P L M → Engine P L M
  mark_bad p e = count_bad (e.heap p).endpoint (store p (bad (e.heap p)) e)

  -- The last `switch` of Proxy.validate, and what follows it.
  unfoldable pub conclude : ℕ → ℕ → Engine P L M → Engine P L M
  conclude now p e =
      if is_null (get (e.heap p).protocol)
      then mark_bad p (record e { debug = msg_checked e.opt.redact (e.heap p) false e.debug })
      else (tally p (
          store p (good now (e.heap p))
            (record e { debug = msg_checked e.opt.redact (e.heap p) true e.debug }))).0

  -- The checks, once the limiters have let the proxy pass.
  unfoldable pub check_protocols :
      Network → (Protocol → Bool) → List Protocol → ℕ → ℕ → Engine P L M → Engine P L M
  check_protocols net cancelled order now p e =
      if eqb_ℤ (e.heap p).times_validated (pos 0) || is_null (get (e.heap p).protocol)
      then (let (e', returned) = try_protocols net cancelled p order e in
          if returned then e' else conclude now p e')
      else (let (e', ok) = single_proxy_check net p (get_proto (e.heap p)) e in
          if ok then conclude now p e' else mark_bad p e')

  -- Proxy.validate under the lock.
  unfoldable pub validate_locked :
      Network → (Protocol → Bool) → List Protocol → ℕ → ℕ → Engine P L M → Engine P L M
  validate_locked net cancelled order now p e =
      let (used, limited) = limiter.check e.use_prox (unique_key (e.heap p)) in
      let e' : Engine P L M = record e { use_prox = used } in
      if e.ctx_done
      then e
      else if limited
      then e'
      else if limiter.peek e'.bad_prox (unique_key (e.heap p))
      then record e' { debug = msg_bad_prox_rate e.opt.redact (e.heap p) e'.debug }
      else check_protocols net cancelled order now p e'

  -- Proxy.validate; `none` is nil.
  unfoldable pub validate :
      Network → (Protocol → Bool) → List Protocol → ℕ → Option ℕ → Engine P L M → Engine P L M
  validate net cancelled order now none e = e
  validate net cancelled order now (some p) e =
      if not (e.heap p).has_parent || not (is_unlocked (e.heap p).lock)
      then e
      else set_lock p unlocked (validate_locked net cancelled order now p (set_lock p locked e))
