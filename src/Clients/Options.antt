-- ===== src/Clients/Options.antt =====
-- Which options a client of the engine has.
use prox.Base.{Bool, true, false, not, ◌≡◌, none, some, ℤ, pos, eqb_ℤ, if◌then◌else◌, arith}
use prox.Engine.{Engine}
use prox.Engine.Options.{
  set_server_timeout, enable_http_client_tls_verification, disable_http_client_tls_verification,
}
use prox.Clients.{new_http_client, get_http_client}

module _ {P L M : Type 0} where
  -- The setter of the verification of certificates, on or off.
  abbrev pub set_tls : Bool → Engine P L M → Engine P L M
  set_tls true e = enable_http_client_tls_verification e
  set_tls false e = disable_http_client_tls_verification e

  -- A client that is got after the options were set has them, although no setter marks the clients as
  -- out of date: it skips the verification of certificates exactly if that was turned off, and has the
  -- timeout that was set, or none for zero. The engine's own options stay as they are, and the mark is
  -- gone.
  pub get_http_client_lem :
      (verify : Bool) (timeout : ℤ) (e : Engine P L M)
      → let (f, client) = get_http_client (set_tls verify (set_server_timeout timeout e)) in
        (client.insecure_skip_verify ≡ not verify)
        × (client.timeout ≡ (if eqb_ℤ timeout (pos 0) then none else some timeout))
        × (f.opt ≡ (set_tls verify (set_server_timeout timeout e)).opt)
        × (f.http_opts_dirty ≡ false)
  unfolding get_http_client new_http_client set_server_timeout enable_http_client_tls_verification
      disable_http_client_tls_verification
  get_http_client_lem true timeout e = (ground arith, ground arith, ground arith, ground arith)
  get_http_client_lem false timeout e = (ground arith, ground arith, ground arith, ground arith)
