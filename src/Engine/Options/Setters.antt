-- ===== src/Engine/Options/Setters.antt =====
-- setters.go, but for those that take a function.
use prox.Base.{true, false, ◌&&◌, List, [], ◌∷◌, ◌++◌, length, String, ℤ, pos, ltb_ℤ, if◌then◌else◌}
use prox.Text.{Bytes}
use prox.Scaler.{Ants, enable, disable, set_max, set_threshold, set_baseline}
use prox.Debug.{Arg, int, duration, printf}
use prox.Engine.{Engine, Config}
use prox.Engine.Counters.{is_empty}

module _ {P L M : Type 0} where
  -- A write of an option, and the notice to the logger.
  set_option : Config → String → List Arg → Engine P L M → Engine P L M
  set_option opt format args e = record e { opt = opt; debug = printf format args e.debug }

  unfoldable pub add_user_agents : List Bytes → Engine P L M → Engine P L M
  unfolding set_option
  add_user_agents uagents e =
      set_option (record e.opt { user_agents = e.opt.user_agents ++ uagents })
        "added %d useragents to cycle through for proxy validation"
        (int (pos (length uagents)) ∷ []) e

  unfoldable pub set_user_agents : List Bytes → Engine P L M → Engine P L M
  unfolding set_option
  set_user_agents uagents e =
      set_option (record e.opt { user_agents = uagents })
        "set %d useragents to cycle through for proxy validation" (int (pos (length uagents)) ∷ [])
        e

  unfoldable pub set_check_endpoints : List Bytes → Engine P L M → Engine P L M
  unfolding set_option
  set_check_endpoints endpoints e =
      set_option (record e.opt { check_endpoints = endpoints })
        "set %d check endpoints for proxy validations" (int (pos (length endpoints)) ∷ []) e

  unfoldable pub add_check_endpoints : List Bytes → Engine P L M → Engine P L M
  unfolding set_option
  add_check_endpoints endpoints e =
      set_option (record e.opt { check_endpoints = e.opt.check_endpoints ++ endpoints })
        "added %d check endpoints for proxy validations" (int (pos (length endpoints)) ∷ []) e

  unfoldable pub set_stale_time : ℤ → Engine P L M → Engine P L M
  unfolding set_option
  set_stale_time newtime e =
      set_option (record e.opt { stale = newtime }) "prox5 stale time set to %s"
        (duration newtime ∷ []) e

  unfoldable pub set_validation_timeout : ℤ → Engine P L M → Engine P L M
  unfolding set_option
  set_validation_timeout timeout e =
      set_option (record e.opt { validation_timeout = timeout })
        "prox5 validation timeout set to %s" (duration timeout ∷ []) e

  unfoldable pub set_server_timeout : ℤ → Engine P L M → Engine P L M
  unfolding set_option
  set_server_timeout timeout e =
      set_option (record e.opt { server_timeout = timeout }) "prox5 server timeout set to %s"
        (duration timeout ∷ []) e

  unfoldable pub enable_recycling : Engine P L M → Engine P L M
  unfolding set_option
  enable_recycling e = set_option (record e.opt { recycle = true }) "prox5 recycling enabled" [] e

  unfoldable pub disable_recycling : Engine P L M → Engine P L M
  unfolding set_option
  disable_recycling e =
      set_option (record e.opt { recycle = false }) "prox5 recycling disabled" [] e

  unfoldable pub set_remove_after : ℤ → Engine P L M → Engine P L M
  unfolding set_option
  set_remove_after timesfailed e =
      set_option (record e.opt { remove_after = timesfailed }) "prox5 removeafter policy set to %d"
        (int timesfailed ∷ []) e

  unfoldable pub set_dialer_bailout : ℤ → Engine P L M → Engine P L M
  unfolding set_option
  set_dialer_bailout dialattempts e =
      set_option (record e.opt { dialer_bailout = dialattempts }) "prox5 dialer bailout set to %d"
        (int dialattempts ∷ []) e

  unfoldable pub enable_debug_redaction : Engine P L M → Engine P L M
  unfolding set_option
  enable_debug_redaction e = set_option (record e.opt { redact = true }) "[redacted]" [] e

  unfoldable pub disable_debug_redaction : Engine P L M → Engine P L M
  unfolding set_option
  disable_debug_redaction e =
      set_option (record e.opt { redact = false }) "prox5 redaction disabled" [] e

  unfoldable pub enable_recycler_shuffling : Engine P L M → Engine P L M
  unfolding set_option
  enable_recycler_shuffling e =
      set_option (record e.opt { shuffle = true }) "prox5 recycler shuffling enabled" [] e

  unfoldable pub disable_recycler_shuffling : Engine P L M → Engine P L M
  unfolding set_option
  disable_recycler_shuffling e =
      set_option (record e.opt { shuffle = false }) "prox5 recycler shuffling disabled" [] e

  unfoldable pub enable_http_client_tls_verification : Engine P L M → Engine P L M
  unfolding set_option
  enable_http_client_tls_verification e =
      set_option (record e.opt { tls_verify = true }) "prox5 HTTP client TLS verification enabled"
        [] e

  unfoldable pub disable_http_client_tls_verification : Engine P L M → Engine P L M
  unfolding set_option
  disable_http_client_tls_verification e =
      set_option (record e.opt { tls_verify = false }) "prox5 HTTP client TLS verification disabled"
        [] e

  unfoldable pub enable_auto_scaler : Engine P L M → Engine P L M
  enable_auto_scaler e = record e {
    scaler = enable e.scaler;
    debug = printf "prox5 autoscaler enabled" [] e.debug;
  }

  unfoldable pub disable_auto_scaler : Engine P L M → Engine P L M
  disable_auto_scaler e = record e {
    scaler = disable e.scaler;
    debug = printf "prox5 autoscaler disabled" [] e.debug;
  }

  unfoldable pub set_auto_scaler_max_scale : ℤ → Engine P L M → Engine P L M
  set_auto_scaler_max_scale max e = record e {
    scaler = set_max e.scaler max;
    debug = printf "prox5 autoscaler max scale set to %d" (int max ∷ []) e.debug;
  }

  unfoldable pub set_auto_scaler_threshold : ℤ → Engine P L M → Engine P L M
  set_auto_scaler_threshold threshold e = record e {
    scaler = set_threshold e.scaler threshold;
    debug = printf "prox5 autoscaler threshold set to %d" (int threshold ∷ []) e.debug;
  }

module _ {P L M : Type 0} ⦃ants : Ants P⦄ where
  unfoldable pub tune_workers : ℤ → Engine P L M → Engine P L M
  tune_workers num e = record e { pool = ants.tune e.pool num; scaler = set_baseline e.scaler num }

  unfoldable pub set_max_workers : ℤ → Engine P L M → Engine P L M
  unfolding tune_workers is_empty
  set_max_workers num e =
      if is_empty e && ltb_ℤ num (pos 2)
      then tune_workers (pos 2) (record e {
        debug =
            printf
              "prox5 cannot set max workers to %d, minimum is 2 until we have some valid proxies"
              (int num ∷ []) e.debug;
      })
      else tune_workers num e
