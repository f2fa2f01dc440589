-- ===== src/Shim.antt =====
-- internal/randtls/shim.go: the adapter of a uTLS connection for the HTTP client. uTLS, and the types of the
-- two libraries that it joins, are parameters.
pub mod Handshake
use prox.Base.{ℕ, Bool, List}
use prox.Text.{Bytes}

module _ (Chain : Type 0) where
  -- tls.ConnectionState, with the fields that the adapter fills; utls.ConnectionState has the same.
  pub record ConnectionState : Type 0 where
    pub version : ℕ
    pub handshake_complete : Bool
    pub did_resume : Bool
    pub cipher_suite : ℕ
    pub negotiated_protocol : Bytes
    pub negotiated_protocol_is_mutual : Bool
    pub server_name : Bytes
    pub peer_certificates : Chain
    pub verified_chains : List Chain
    pub signed_certificate_timestamps : List Bytes
    pub ocsp_response : Bytes
    pub tls_unique : Bytes

module _ (Conn UConn : Type 0) where
  pub record Adapter : Type 0 where
    pub u_conn : UConn
    pub conn : Conn

module _ {Conn UConn : Type 0} where
  -- adapter.ConnectionState; `state` is that of uTLS.
  unfoldable pub connection_state :
      {Chain : Type 0}
      → (UConn → ConnectionState Chain)
      → Adapter Conn UConn
      → ConnectionState Chain
  connection_state {Chain} state c =
      let ustate : ConnectionState Chain = state c.u_conn in
      record {
        version = ustate.version;
        handshake_complete = ustate.handshake_complete;
        did_resume = ustate.did_resume;
        cipher_suite = ustate.cipher_suite;
        negotiated_protocol = ustate.negotiated_protocol;
        negotiated_protocol_is_mutual = ustate.negotiated_protocol_is_mutual;
        server_name = ustate.server_name;
        peer_certificates = ustate.peer_certificates;
        verified_chains = ustate.verified_chains;
        signed_certificate_timestamps = ustate.signed_certificate_timestamps;
        ocsp_response = ustate.ocsp_response;
        tls_unique = ustate.tls_unique;
      }

  unfoldable pub net_conn : Adapter Conn UConn → Conn
  net_conn c = c.conn

-- The fields that tls.Config and utls.Config share here.
pub record TlsConfig (Roots : Type 0) : Type 0 where
  pub root_cas : Roots
  pub next_protos : List Bytes
  pub server_name : Bytes
  pub insecure_skip_verify : Bool
  pub dynamic_record_sizing_disabled : Bool

-- utlsFactory; `u_client` is utls.UClient with the hello of Firefox 55.
unfoldable pub utls_factory :
    {Conn UConn Roots : Type 0}
    → (Conn → TlsConfig Roots → UConn)
    → Conn
    → TlsConfig Roots
    → Adapter Conn UConn
utls_factory u_client conn config = record {
  u_conn = u_client conn (record {
    root_cas = config.root_cas;
    next_protos = config.next_protos;
    server_name = config.server_name;
    insecure_skip_verify = config.insecure_skip_verify;
    dynamic_record_sizing_disabled = config.dynamic_record_sizing_disabled;
  });
  conn = conn;
}
