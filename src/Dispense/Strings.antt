-- ===== src/Dispense/Strings.antt =====
-- dispense.go: getSocksStr for each protocol.
use prox.Base.{ℕ, List, Option}
use prox.Text.{Bytes}
use prox.Engine.{Engine, Limiter, Plot}
use prox.Engine.Lists.{socks5, socks4, socks4a, http}
use prox.Dispense.{get_socks_str}

module _ {P L M : Type 0} ⦃limiter : Limiter L⦄ ⦃plots : Plot M⦄
    (shuffle : List (Bytes × ℕ) → List (Bytes × ℕ))
    (schedule : List ((Engine P L M → Engine P L M) × ℕ)) where
  unfoldable pub socks5_str : Engine P L M → Engine P L M × Option Bytes
  unfolding get_socks_str
  socks5_str e = get_socks_str shuffle socks5 schedule e

  unfoldable pub socks4_str : Engine P L M → Engine P L M × Option Bytes
  unfolding get_socks_str
  socks4_str e = get_socks_str shuffle socks4 schedule e

  unfoldable pub socks4a_str : Engine P L M → Engine P L M × Option Bytes
  unfolding get_socks_str
  socks4a_str e = get_socks_str shuffle socks4a schedule e

  unfoldable pub get_http_tunnel : Engine P L M → Engine P L M × Option Bytes
  unfolding get_socks_str
  get_http_tunnel e = get_socks_str shuffle http schedule e
