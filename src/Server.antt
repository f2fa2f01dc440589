-- ===== src/Server.antt =====
-- socks5_server.go: the SOCKS5 server of the engine. The server itself is that of go-socks5; what is
-- modelled is how it is set up, and that a text for it reaches the logger.
pub mod Buffers
use prox.Base.{
  ◌⊎◌, inl, inr, not, ◌&&◌, ◌≡◌, ◌↔◌, refl, List, [], ◌∷◌, ◌++◌, Option, none, some, if◌then◌else◌,
}
use prox.Text.{Bytes, is_empty}
use prox.Debug.{Debug, simple_string, dbg_print, Arg}
use prox.Engine.{Engine}

-- The options of socks5.NewServer: the name and the password that a client must give, if there are
-- such. The buffers, the logger and the dialer are always those of the engine.
pub record ServerOptions : Type 0 where
  pub credentials : Option (Bytes × Bytes)

unfoldable pub server_options : Bytes → Bytes → ServerOptions
server_options username password = record {
  credentials =
      if not (is_empty username) && not (is_empty password)
      then some (username, password)
      else none;
}

-- SocksLogger.Printf; `sprintf` is that of fmt.
unfoldable pub socks_printf : (Bytes → List Arg → Bytes) → Bytes → List Arg → Debug → Debug
socks_printf sprintf format args d = dbg_print (sprintf format args) d

module _ {P L M : Type 0} where
  -- StartSOCKS5Server, with `serve` as ListenAndServe of a server with the given options on an
  -- address: its error, if there is one.
  unfoldable pub start_socks5_server :
      (ServerOptions → Bytes → Option Bytes)
      → (listen username password : Bytes) → Engine P L M
      → Engine P L M × Option Bytes
  unfolding server_options
  start_socks5_server serve listen username password e = (
    record e {
      debug = dbg_print (simple_string "listening for SOCKS5 connections on " ++ listen) e.debug;
    },
    serve (server_options username password) listen,
  )

server_options_open :
    (username password : Bytes)
    → (username ≡ []) ⊎ (password ≡ [])
    → (server_options username password).credentials ≡ none
unfolding server_options
server_options_open [] password h = refl
server_options_open (c ∷ username) [] h = refl
server_options_open (c ∷ username) (d ∷ password) (inl h) = absurd (cc h)
server_options_open (c ∷ username) (d ∷ password) (inr h) = absurd (cc h)

server_options_closed :
    (username password : Bytes)
    → (server_options username password).credentials ≡ none
    → (username ≡ []) ⊎ (password ≡ [])
unfolding server_options
server_options_closed [] password h = inl refl
server_options_closed (c ∷ username) [] h = inr refl
server_options_closed (c ∷ username) (d ∷ password) h = absurd (cc h)

-- The options that StartSOCKS5Server hands to the server ask a client for no credentials exactly if the
-- name or the password is empty: with a name and no password the server is open to everybody.
pub server_options_iff :
    (username password : Bytes)
    → ((server_options username password).credentials ≡ none) ↔ ((username ≡ []) ⊎ (password ≡ []))
server_options_iff username password =
    (server_options_closed username password, server_options_open username password)
