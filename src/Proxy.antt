-- ===== src/Proxy.antt =====
-- proto.go and proxy.go: a proxy, and the protocol that is set once.
use prox.Base.{ℕ, Bool, true, false, [], ℤ, if◌then◌else◌}
use prox.Text.{Bytes, codes}

-- ProxyProtocol
pub data Protocol : Type 0 where
  proto_null proto_socks4 proto_socks4a proto_socks5 proto_http : Protocol

pub Protocol-discrete : Discrete Protocol
Protocol-discrete = hlevel

abbrev pub is_null : Protocol → Bool
is_null proto_null = true
is_null _ = false

-- The lookup in `protoMap`, which has no entry for HTTP.
unfoldable pub proto_string : Protocol → Bytes
proto_string proto_socks5 = codes "socks5"
proto_string proto_null = codes "unknown"
proto_string proto_socks4 = codes "socks4"
proto_string proto_socks4a = codes "socks4a"
proto_string proto_http = []

-- The value, and whether the `sync.Once` has run.
pub record Proto : Type 0 where
  pub value : Protocol
  pub fired : Bool

unfoldable pub new_immutable_proto : Proto
new_immutable_proto = record { value = proto_null; fired = false }

unfoldable pub get : Proto → Protocol
get p = p.value

unfoldable pub set : Proto → Protocol → Proto
set p protocol = if p.fired then p else record { value = protocol; fired = true }

-- stateUnlocked and stateLocked
pub data Lock : Type 0 where
  unlocked locked : Lock

abbrev pub is_unlocked : Lock → Bool
is_unlocked unlocked = true
is_unlocked locked = false

pub record Proxy : Type 0 where
  pub endpoint : Bytes
  pub proxied_ip : Bytes
  pub protocol : Proto
  -- Nanoseconds since the epoch.
  pub last_validated : ℕ
  pub times_validated : ℤ
  pub times_bad : ℤ
  -- Whether `parent` is not nil.
  pub has_parent : Bool
  pub lock : Lock

abbrev pub unique_key : Proxy → Bytes
unique_key sock = sock.endpoint

unfoldable pub get_proto : Proxy → Protocol
unfolding get
get_proto sock = get sock.protocol
