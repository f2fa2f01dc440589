-- ===== src/Clients.antt =====
-- mr_worldwide.go: the HTTP clients whose connections are dials through the pool. Nothing is ever put
-- back into the engine's `sync.Pool` of clients, so that its Get is always a call of its New, which
-- reads the options of that moment.
pub mod Options
use prox.Base.{Bool, true, false, not, Option, none, some, ℤ, pos, eqb_ℤ, if◌then◌else◌}
use prox.Engine.{Engine}
use prox.Engine.Options.{get_server_timeout, get_http_tls_verification_status}

-- An http.Client, as far as it is set: whether it skips the verification of certificates, whether it
-- keeps connections alive and takes compressed answers, and its timeout, none if that is zero.
pub record HttpClient : Type 0 where
  pub insecure_skip_verify : Bool
  pub disable_keep_alives : Bool
  pub disable_compression : Bool
  pub timeout : Option ℤ

module _ {P L M : Type 0} where
  unfoldable pub new_http_client : Engine P L M → HttpClient
  new_http_client e = record {
    insecure_skip_verify = not (get_http_tls_verification_status e);
    disable_keep_alives = true;
    disable_compression = false;
    timeout = if eqb_ℤ (get_server_timeout e) (pos 0) then none else some (get_server_timeout e);
  }

  -- GetHTTPClient
  unfoldable pub get_http_client : Engine P L M → Engine P L M × HttpClient
  unfolding new_http_client
  get_http_client e =
      let fresh : Engine P L M =
        if e.http_opts_dirty then record e { http_opts_dirty = false } else e in
      (fresh, new_http_client fresh)

  -- RoundTrip; `do` is that of the client on the request.
  unfoldable pub round_trip : {A : Type 0} → (HttpClient → A) → Engine P L M → Engine P L M × A
  unfolding get_http_client
  round_trip run e = let (e', client) = get_http_client e in (e', run client)
