-- ===== src/Engine.antt =====
-- defs.go: the state of a ProxyEngine. A proxy is known by its address in a heap, since the map, the
-- lists and the callers share it; a list of addresses is a `proxyList`, its front first.
pub mod Defaults
pub mod Options
pub mod Counters
pub mod Lists
pub mod Store
pub mod Timeouts
use prox.Base.{
  ℕ, zero, suc, ◌+◌, ◌*◌, Bool, true, false, List, [], ◌∷◌, ◌++◌, Option, none, some, ℤ, pos, add64,
  ◌==◌, if◌then◌else◌,
}
use prox.Text.{Bytes}
use prox.Scaler.{Ants, AutoScaler, new_auto_scaler}
use prox.Proxy.{Proxy, Proto, proto_null, unlocked}
use prox.Debug.{Debug}
use Defaults.{default_checks, default_user_agents}

-- rl.Policy of github.com/yunginnanet/Rate5
pub record Policy : Type 0 where
  pub window : ℕ
  pub burst : ℕ

-- A rate limiter of Rate5, asked by a proxy's key: Check counts, Peek does not. `item_count` is that
-- of its `Patrons`, behind their DeleteExpired.
pub record Limiter (L : Type 0) : Type 0 where
  pub new_limiter : Policy → L
  pub check : L → Bytes → L × Bool
  pub peek : L → Bytes → Bool
  pub delete_expired : L → L
  pub item_count : L → ℤ

-- The concurrent map of github.com/orcaman/concurrent-map, from strings to addresses. `entries` is
-- what IterBuffered yields.
pub record Plot (M : Type 0) : Type 0 where
  pub new_plot : M
  pub set_if_absent : M → Bytes → ℕ → M
  pub get : M → Bytes → Option ℕ
  pub remove : M → Bytes → M
  pub clear : M → M
  pub count : M → ℤ
  pub entries : M → List (Bytes × ℕ)

-- ProxyChannels
pub record Valids : Type 0 where
  pub socks5 : List ℕ
  pub socks4 : List ℕ
  pub socks4a : List ℕ
  pub http : List ℕ

pub record Statistics : Type 0 where
  pub valid4 : ℤ
  pub valid4a : ℤ
  pub valid5 : ℤ
  pub valid_http : ℤ
  pub dispensed : ℤ
  pub stale : ℤ
  pub checked : ℤ
  pub birthday : ℕ
  pub bad_accounted : ℤ
  pub accounting_last_done : ℕ

-- A duration is in nanoseconds.
pub record Config : Type 0 where
  pub stale : ℤ
  pub user_agents : List Bytes
  pub debug : Bool
  pub check_endpoints : List Bytes
  pub max_workers : ℤ
  pub validation_timeout : ℤ
  pub server_timeout : ℤ
  pub dialer_bailout : ℤ
  pub redact : Bool
  pub recycle : Bool
  pub remove_after : ℤ
  pub shuffle : Bool
  pub tls_verify : Bool
  pub use_prox_config : Policy
  pub bad_prox_config : Policy

abbrev pub second : ℕ
second = 1000000000

unfoldable pub def_opt : Config
def_opt = record {
  stale = pos (30 * (60 * second));
  user_agents = default_user_agents;
  debug = true;
  check_endpoints = default_checks;
  max_workers = pos 20;
  validation_timeout = pos (9 * second);
  server_timeout = pos (15 * second);
  dialer_bailout = pos 20;
  redact = false;
  recycle = true;
  remove_after = pos 25;
  shuffle = true;
  tls_verify = false;
  use_prox_config = record { window = 55; burst = 55 };
  bad_prox_config = record { window = 55; burst = 10 };
}

-- conductor.go: engineState
pub data EngineState : Type 0 where
  state_running state_paused state_new : EngineState

abbrev pub is_running_state : EngineState → Bool
is_running_state state_running = true
is_running_state _ = false

pub record Engine (P L M : Type 0) : Type 0 where
  pub valids : Valids
  pub debug : Debug
  pub stats : Statistics
  pub status : EngineState
  pub pending : List ℕ
  pub use_prox : L
  pub bad_prox : L
  -- Whether `ctx` is done.
  pub ctx_done : Bool
  pub http_opts_dirty : Bool
  pub plot : M
  -- Whether the buffer of `conKiller` is full.
  pub con_killer : Bool
  -- Whether `recycleMu` is held.
  pub recycle_held : Bool
  pub pool : P
  pub scaler : AutoScaler
  -- Whether a tick waits in the channel of each timer.
  pub scale_tick : Bool
  pub recycle_tick : Bool
  pub opt : Config
  -- The proxies that exist, and the first address that is free.
  pub heap : ℕ → Proxy
  pub next_address : ℕ

abbrev pub update : (ℕ → Proxy) → ℕ → Proxy → ℕ → Proxy
update heap address sock a = if a == address then sock else heap a

abbrev pub no_valids : Valids
no_valids = record { socks5 = []; socks4 = []; socks4a = []; http = [] }

unfoldable pub new_statistics : ℕ → Statistics
new_statistics now = record {
  valid4 = pos 0;
  valid4a = pos 0;
  valid5 = pos 0;
  valid_http = pos 0;
  dispensed = pos 0;
  stale = pos 0;
  checked = pos 0;
  birthday = now;
  bad_accounted = pos 0;
  accounting_last_done = now;
}

-- An address that nothing has been stored at.
abbrev pub no_proxy : Proxy
no_proxy = record {
  endpoint = [];
  proxied_ip = [];
  protocol = record { value = proto_null; fired = false };
  last_validated = 0;
  times_validated = pos 0;
  times_bad = pos 0;
  has_parent = false;
  lock = unlocked;
}

module _ {P L M : Type 0} ⦃ants : Ants P⦄ ⦃limiter : Limiter L⦄ ⦃plots : Plot M⦄ where
  -- The engine that NewProxyEngine makes around a pool.
  unfoldable pub engine_with : ℕ → Debug → P → Engine P L M
  unfolding new_statistics def_opt new_auto_scaler
  engine_with now debug pool = record {
    valids = no_valids;
    debug = debug;
    stats = new_statistics now;
    status = state_new;
    pending = [];
    use_prox = limiter.new_limiter def_opt.use_prox_config;
    bad_prox = limiter.new_limiter def_opt.bad_prox_config;
    ctx_done = false;
    http_opts_dirty = false;
    plot = plots.new_plot;
    con_killer = false;
    recycle_held = false;
    pool = pool;
    scaler = new_auto_scaler def_opt.max_workers (add64 def_opt.max_workers (pos 100)) (pos 50);
    scale_tick = false;
    recycle_tick = false;
    opt = def_opt;
    heap = λ _. no_proxy;
    next_address = 0;
  }

  -- NewProxyEngine at time `now`, with the package's debug state; `none` is its panic.
  unfoldable pub new_proxy_engine : ℕ → Debug → Option (Engine P L M)
  unfolding engine_with
  new_proxy_engine now debug = elim (ants.new_pool def_opt.max_workers) [
    | none ↦ none
    | some pool ↦ some (engine_with now (record debug { last_bad_announced = [] }) pool)
  ]
