-- ===== src/Validate/Headers.antt =====
-- The pool of headers: what prepHTTP, bakeHTTP and validate take from it and give to it.
pub mod Undressed
use prox.Base.{
  subst, sym, arith, ℕ, ◌≡◌, refl, ap, ◌∙◌, List, [], ◌∷◌, Option, none, some, All, is_some,
  Bool-cases, Option-cases, inl, inr, if◌then◌else◌, map,
}
use prox.Base.Pool.{pool_get, pool_put, pool_rest-All}
use prox.Text.{Bytes, codes, same}
use prox.Proxy.{Proxy, Protocol, proto_null, proto_socks4, proto_socks4a, proto_socks5, proto_http}
use prox.Engine.{Config}
use prox.Validate.{
  Network, Header, Prepared, Transport, default_transport, dial_socks, socks_url, prep_http,
  http_endpoint, bake_http, ask, request,
}

-- What `New` of headerPool makes.
unfoldable pub new_header : Header
new_header =
    (codes "User-Agent", codes "" ∷ [])
    ∷ (
      codes "Accept",
      codes "text/html,application/xhtml+xml,application/xml;q=0.9,image/webp,image/apng,*/*;q=0.8"
          ∷ [],
    )
    ∷ (codes "Accept-Language", codes "en-US,en;q=0.5" ∷ [])
    ∷ (codes "Accept-Encoding", codes "gzip, deflate, br" ∷ [])
    ∷ []

-- `header[key] = values`
unfoldable pub set_key : Bytes → List Bytes → Header → Header
set_key key values [] = (key, values) ∷ []
set_key key values ((k, old) ∷ header) =
    let rest : Header = set_key key values header in
    if same key k then (key, values) ∷ header else (k, old) ∷ rest

-- The headers that prepHTTP takes and writes a user agent into, and the pool without them.
unfoldable pub dressed : ℕ → Bytes → List Header → Header × List Header
unfolding set_key new_header
dressed choice agent pool =
    let (headers, rest) = pool_get choice new_header pool in
    (set_key (codes "User-Agent") (agent ∷ []) headers, rest)

-- prepHTTP: the headers are dropped.
unfoldable pub prep_pooled :
    Network → Config → Bytes → ℕ → Bytes → List Header → Option Prepared × List Header
unfolding dressed
prep_pooled net opt target choice agent pool = elim (prep_http net opt target) [
  | none ↦ (none, pool)
  | some prepared ↦ let (headers, rest) = dressed choice agent pool in (some prepared, rest)
]

-- The end of bakeHTTP for an HTTP proxy, and for the others.
unfoldable pub route :
    Network
    → Config
    → Proxy
    → Protocol
    → Prepared
    → List Header
    → Option (Transport × Prepared) × List Header
route net opt sock proto_http prepared pool =
    if is_some (http_endpoint net sock)
    then (some (default_transport, prepared), pool)
    else (none, pool_put prepared.header pool)
route net opt sock other prepared pool =
    (some (dial_socks (socks_url opt sock other), prepared), pool)

abbrev pub routed :
    Network
    → Config
    → Proxy
    → Protocol
    → Option Prepared × List Header
    → Option (Transport × Prepared) × List Header
routed net opt sock protocol (none, pool) = (none, pool)
routed net opt sock protocol (some prepared, pool) = route net opt sock protocol prepared pool

-- The request is sent, and its own header goes into the pool once the answer is read.
abbrev pub sent :
    Network
    → Option (Transport × Prepared) × List Header
    → Option Bytes × Option Prepared × List Header
sent net (none, pool) = (none, none, pool)
sent net (some (transport, prepared), pool) =
    (net.answer transport prepared.url, some prepared, pool_put prepared.header pool)

-- bakeHTTP and validate with the pool: the answer, the request that was sent, and the pool afterwards.
unfoldable pub request_pooled :
    Network
    → Config
    → Proxy
    → Protocol
    → ℕ
    → Bytes
    → List Header
    → Option Bytes × Option Prepared × List Header
unfolding prep_pooled route
request_pooled net opt sock protocol choice agent pool = sent net (
    routed net opt sock protocol
      (prep_pooled net opt (net.choose opt.check_endpoints) choice agent pool))

module _ (net : Network) (opt : Config) where
  -- The checks of a list, one after another: the answers and the requests that are sent, and the pool
  -- afterwards.
  unfoldable pub requests_pooled :
      List (Proxy × Protocol × ℕ × Bytes)
      → List Header
      → List (Option Bytes) × List (Option Prepared) × List Header
  unfolding request_pooled
  requests_pooled [] pool = ([], [], pool)
  requests_pooled ((sock, protocol, choice, agent) ∷ checks) pool =
      let (answer, request, pool') = request_pooled net opt sock protocol choice agent pool in
      let (answers, requests, last) = requests_pooled checks pool' in
      (answer ∷ answers, request ∷ requests, last)
