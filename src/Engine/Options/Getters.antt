-- ===== src/Engine/Options/Getters.antt =====
-- getters.go, but for those that hand on a function or choose at random; and String of proxy.go, with
-- the options of the proxy's engine.
use prox.Base.{Bool, not, [], ◌++◌, ℤ, pos, negsuc, eqb_ℤ, quot_ℤ, if◌then◌else◌}
use prox.Text.{Bytes, codes, same}
use prox.Text.Decimal.{itoa}
use prox.Scaler.{Ants, is_on, state_string}
use prox.Proxy.{Proxy, get_proto, proto_string}
use prox.Engine.{Engine, Config, second, is_running_state}

-- The seconds of a timeout, as text.
abbrev seconds_string : ℤ → Bytes
seconds_string timeout = itoa (quot_ℤ timeout second)

unfoldable pub server_timeout_string : Config → Bytes
server_timeout_string opt =
    if eqb_ℤ opt.server_timeout (pos 0) then codes "-1" else seconds_string opt.server_timeout

unfoldable pub validation_timeout_string : Config → Bytes
validation_timeout_string opt = seconds_string opt.validation_timeout

-- GetRemoveAfter
unfoldable pub remove_after_policy : Config → ℤ
remove_after_policy opt = if not opt.recycle then negsuc 0 else opt.remove_after

module _ {P L M : Type 0} where
  abbrev pub get_stale_time : Engine P L M → ℤ
  get_stale_time e = e.opt.stale

  abbrev pub get_validation_timeout : Engine P L M → ℤ
  get_validation_timeout e = e.opt.validation_timeout

  abbrev pub get_validation_timeout_str : Engine P L M → Bytes
  get_validation_timeout_str e = validation_timeout_string e.opt

  abbrev pub get_server_timeout : Engine P L M → ℤ
  get_server_timeout e = e.opt.server_timeout

  abbrev pub get_server_timeout_str : Engine P L M → Bytes
  get_server_timeout_str e = server_timeout_string e.opt

  abbrev pub is_running : Engine P L M → Bool
  is_running e = is_running_state e.status

  abbrev pub get_recycling_status : Engine P L M → Bool
  get_recycling_status e = e.opt.recycle

  abbrev pub get_remove_after : Engine P L M → ℤ
  get_remove_after e = remove_after_policy e.opt

  abbrev pub get_dialer_bailout : Engine P L M → ℤ
  get_dialer_bailout e = e.opt.dialer_bailout

  abbrev pub get_recycler_shuffle_status : Engine P L M → Bool
  get_recycler_shuffle_status e = e.opt.shuffle

  abbrev pub get_auto_scaler_status : Engine P L M → Bool
  get_auto_scaler_status e = is_on e.scaler

  abbrev pub get_auto_scaler_state_string : Engine P L M → Bytes
  get_auto_scaler_state_string e = state_string e.scaler

  abbrev pub get_debug_redact_status : Engine P L M → Bool
  get_debug_redact_status e = e.opt.redact

  abbrev pub get_http_tls_verification_status : Engine P L M → Bool
  get_http_tls_verification_status e = e.opt.tls_verify

module _ {P L M : Type 0} ⦃ants : Ants P⦄ where
  abbrev pub get_max_workers : Engine P L M → ℤ
  get_max_workers e = ants.cap e.pool

-- Proxy.String
unfoldable pub proxy_string : Config → Proxy → Bytes
unfolding server_timeout_string
proxy_string opt sock =
    proto_string (get_proto sock)
    ++ (codes "://"
        ++ (sock.endpoint
            ++ (if not (same (server_timeout_string opt) (codes "-1"))
                then codes "?timeout=" ++ (server_timeout_string opt ++ codes "s")
                else [])))
