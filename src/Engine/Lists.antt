-- ===== src/Engine/Lists.antt =====
-- defs.go: the proxy lists. The head of a list is its front.
use prox.Base.{ℕ, List, [], ◌∷◌, ◌++◌, Option, none, some}
use prox.Proxy.{Protocol, proto_null, proto_socks4, proto_socks4a, proto_socks5, proto_http}
use prox.Engine.{Valids, Engine}

-- proxyList.add
unfoldable pub add : List ℕ → ℕ → List ℕ
add pl p = pl ++ (p ∷ [])

-- proxyList.pop, with nil as `none`.
unfoldable pub pop : List ℕ → List ℕ × Option ℕ
pop [] = ([], none)
pop (p ∷ rest) = (rest, some p)

-- The lists of ProxyChannels.
pub data Channel : Type 0 where
  socks5 socks4 socks4a http : Channel

-- The list for a protocol, in each `switch` over the protocols.
abbrev pub channel_of : Protocol → Option Channel
channel_of proto_socks4 = some socks4
channel_of proto_socks4a = some socks4a
channel_of proto_socks5 = some socks5
channel_of proto_http = some http
channel_of proto_null = none

unfoldable pub list_of : Channel → Valids → List ℕ
list_of socks5 v = v.socks5
list_of socks4 v = v.socks4
list_of socks4a v = v.socks4a
list_of http v = v.http

unfoldable pub with_list : Channel → List ℕ → Valids → Valids
with_list socks5 l v = record v { socks5 = l }
with_list socks4 l v = record v { socks4 = l }
with_list socks4a l v = record v { socks4a = l }
with_list http l v = record v { http = l }

-- The lists that `Slice` hands out, before they are shuffled.
abbrev pub slice : List Channel
slice = socks5 ∷ socks4 ∷ socks4a ∷ []

module _ {P L M : Type 0} where
  -- `add` on a list of the engine.
  unfoldable pub enqueue : Channel → ℕ → Engine P L M → Engine P L M
  unfolding add list_of with_list
  enqueue c p e = record e { valids = with_list c (add (list_of c e.valids) p) e.valids }

  -- `pop` on a list of the engine.
  unfoldable pub dequeue : Channel → Engine P L M → Engine P L M × Option ℕ
  unfolding pop list_of with_list
  dequeue c e =
      let (rest, sock) = pop (list_of c e.valids) in
      (record e { valids = with_list c rest e.valids }, sock)
