-- ===== src/Validate/Headers/Undressed.antt =====
-- The pool of headers: that it makes no difference.
use prox.Base.{
  subst, sym, arith, ℕ, ◌≡◌, refl, ap, ◌∙◌, List, [], ◌∷◌, Option, none, some, All, is_some,
  Bool-cases, Option-cases, inl, inr, if◌then◌else◌, map,
}
use prox.Base.Pool.{pool_get, pool_put, pool_rest-All}
use prox.Text.{Bytes, same}
use prox.Proxy.{Proxy, Protocol, proto_null, proto_socks4, proto_socks4a, proto_socks5, proto_http}
use prox.Engine.{Config}
use prox.Validate.{
  Network, Header, Prepared, Transport, default_transport, dial_socks, socks_url, prep_http,
  http_endpoint, bake_http, ask, request,
}
use prox.Validate.Headers.{
  new_header, dressed, prep_pooled, route, routed, sent, request_pooled, requests_pooled,
}

abbrev pub IsBare : Header → Type 0
IsBare h = h ≡ []

-- A check answers what it does without the pool, sends no header of its own, and keeps the pool bare.
pub record Undressed (expected : Option Bytes) (pool : List Header)
    (r : Option Bytes × Option Prepared × List Header) : Type 0 where
  pub answer : r.0 ≡ expected
  pub plain : (p : Prepared) → r.1 ≡ some p → IsBare p.header
  pub bare : All IsBare pool → All IsBare r.2

some_inj : {A : Type 0} (x y : A) → some x ≡ some y → x ≡ y
some_inj x y h = cc h

module _ (net : Network) (opt : Config) (sock : Proxy) (target : Bytes) where
  -- A prepared request is for the target, with no headers.
  IsFor : Prepared → Type 0
  IsFor p = IsBare p.header × (p.url ≡ target)

  prep_http-IsFor : (p : Prepared) → prep_http net opt target ≡ some p → IsFor p
  unfolding prep_http IsFor
  prep_http-IsFor p h = ground arith

  -- A transport was found, or the HTTP proxy's URL does not parse.
  sent_one :
      (transport : Transport) (p : Prepared) (pool rest : List Header)
      → IsFor p
      → (All IsBare pool → All IsBare rest)
      → Undressed (net.answer transport target) pool (sent net (some (transport, p), rest))
  unfolding IsFor
  sent_one transport p pool rest (bare, url) keeps = record {
    answer = ap (net.answer transport) url;
    plain = λ q h. subst (λ x. IsBare x.header) (some_inj p q h) bare;
    bare = λ h. (bare, keeps h);
  }

  unsent :
      (pool rest : List Header)
      → (All IsBare pool → All IsBare rest)
      → Undressed none pool (sent net (none, rest))
  unsent pool rest keeps = record { answer = refl; plain = λ q h. absurd (cc h); bare = keeps }

  -- The two ways on from a prepared request.
  abbrev client : Protocol → Option Transport
  client proto_http = if is_some (http_endpoint net sock) then some default_transport else none
  client other = some (dial_socks (socks_url opt sock other))

  abbrev answer_of : Option Transport → Option Bytes
  answer_of none = none
  answer_of (some transport) = net.answer transport target

  routed-Undressed :
      (protocol : Protocol) (p : Prepared) (pool rest : List Header)
      → IsFor p
      → (All IsBare pool → All IsBare rest)
      → Undressed (answer_of (client protocol)) pool (sent net (route net opt sock protocol p rest))
  unfolding route IsFor
  routed-Undressed proto_null p pool rest for keeps = sent_one _ p pool rest for keeps
  routed-Undressed proto_socks4 p pool rest for keeps = sent_one _ p pool rest for keeps
  routed-Undressed proto_socks4a p pool rest for keeps = sent_one _ p pool rest for keeps
  routed-Undressed proto_socks5 p pool rest for keeps = sent_one _ p pool rest for keeps
  routed-Undressed proto_http p pool rest for keeps =
      elim (Bool-cases (is_some (http_endpoint net sock))) [
        | inl parses ↦ rw parses (sent_one default_transport p pool rest for keeps)
        | inr fails ↦ rw fails (unsent pool (pool_put p.header rest) (λ h. (for.0, keeps h)))
      ]

  unprepared :
      (protocol : Protocol)
      → prep_http net opt target ≡ none
      → ask net target (bake_http net opt sock protocol target) ≡ none
  unfolding bake_http
  unprepared protocol h = rw h refl

  prepared :
      (protocol : Protocol) (p : Prepared)
      → prep_http net opt target ≡ some p
      → bake_http net opt sock protocol target ≡ client protocol
  unfolding bake_http
  prepared proto_null p h = rw h refl
  prepared proto_socks4 p h = rw h refl
  prepared proto_socks4a p h = rw h refl
  prepared proto_socks5 p h = rw h refl
  prepared proto_http p h = rw h refl

  asked : (o : Option Transport) → ask net target o ≡ answer_of o
  asked none = refl
  asked (some transport) = refl

module _ (net : Network) (opt : Config) where
  prep_none :
      (target : Bytes) (choice : ℕ) (agent : Bytes) (pool : List Header)
      → prep_http net opt target ≡ none
      → prep_pooled net opt target choice agent pool ≡ (none, pool)
  unfolding prep_pooled
  prep_none target choice agent pool h = rw (h, prep_pooled) refl

  prep_some :
      (target : Bytes) (choice : ℕ) (agent : Bytes) (pool : List Header) (p : Prepared)
      → prep_http net opt target ≡ some p
      → prep_pooled net opt target choice agent pool ≡ (some p, (pool_get choice new_header pool).1)
  unfolding prep_pooled dressed
  prep_some target choice agent pool p h = rw (h, prep_pooled) refl

  -- The pool without what was taken from it.
  taken_bare :
      (choice : ℕ) (pool : List Header)
      → All IsBare pool
      → All IsBare (pool_get choice new_header pool).1
  taken_bare choice pool h = pool_rest-All IsBare choice new_header pool h

  pub request_pooled-Undressed :
      (sock : Proxy) (protocol : Protocol) (choice : ℕ) (agent : Bytes) (pool : List Header)
      → Undressed
          (request net opt sock protocol)
          pool
          (request_pooled net opt sock protocol choice agent pool)
  unfolding request request_pooled
  request_pooled-Undressed sock protocol choice agent pool =
      let target : Bytes = net.choose opt.check_endpoints in
      elim (Option-cases (prep_http net opt target)) [
        | inl none_made ↦ rw (unprepared net opt sock target protocol none_made) (
            subst (λ x. Undressed none pool (sent net (routed net opt sock protocol x)))
              (sym (prep_none target choice agent pool none_made))
              (unsent net opt sock target pool pool (λ h. h)))
        | inr (p, made) ↦
            rw
              (ap (ask net target) (prepared net opt sock target protocol p made)
                ∙ asked net opt sock target (client net opt sock target protocol))
              (subst
                (λ x.
                  Undressed (answer_of net opt sock target (client net opt sock target protocol))
                    pool (sent net (routed net opt sock protocol x)))
                (sym (prep_some target choice agent pool p made))
                (routed-Undressed net opt sock target protocol p pool _
                  (prep_http-IsFor net opt sock target p made) (taken_bare choice pool)))
      ]

  abbrev pub IsPlain : Option Prepared → Type 0
  IsPlain o = (p : Prepared) → o ≡ some p → IsBare p.header

  -- The answer to a check without the pool.
  abbrev pub plain_answer : Proxy × Protocol × ℕ × Bytes → Option Bytes
  plain_answer (sock, protocol, choice, agent) = request net opt sock protocol

  -- Over any checks, with any user agents and whatever the pool gives back: the answers are those of the
  -- checks without the pool; and from a pool that holds only headers without entries, as the empty one
  -- does, no request is sent with a header of its own, so that neither the user agents nor the other
  -- headers are used, and the pool is left with only such headers.
  pub requests_pooled_lem :
      (checks : List (Proxy × Protocol × ℕ × Bytes)) (pool : List Header)
      → All IsBare pool
      → let (answers, requests, last) = requests_pooled net opt checks pool in
        (answers ≡ map plain_answer checks) × All IsPlain requests × All IsBare last
  unfolding requests_pooled
  requests_pooled_lem [] pool h = (refl, tt, h)
  requests_pooled_lem ((sock, protocol, choice, agent) ∷ checks) pool h =
      let r = request_pooled net opt sock protocol choice agent pool in
      let u = request_pooled-Undressed sock protocol choice agent pool in
      let (same, plain, bare) = requests_pooled_lem checks r.2 (u.bare h) in
      (
        ap (λ a. a ∷ (requests_pooled net opt checks r.2).0) u.answer
            ∙ ap (λ l. request net opt sock protocol ∷ l) same,
        (u.plain, plain),
        bare,
      )
